-- ===== src/Decision/Bounded.antt =====
-- The bounds of the decisions that `parseDecision` of `backend/src/agent/decision.ts` returns.
use bondsman.Common.{
  ℕ, ◌≤◌, Bool, true, false, not, ◌&&◌, Option, none, some, List, [], ◌∷◌, nat_eq, length,
  if◌then◌else◌, ◌≡◌, ◌⊎◌, sym, ◌∙◌, ap, arith, Option-cases, Bool-cases, some-eq, inl, inr,
}
use bondsman.Decision.{
  json_objects, Parsed, Number, AgentDecision, Verdict, trimmed, is_confidence, is_reasoning,
  checked, decision_schema, decision_of, first_decision, parse_decision,
}

-- A number from zero to one.
abbrev pub IsFraction : Number → Type 0
IsFraction n = ((n.negative ≡ false) ⊎ (n.numerator ≡ 0)) × (n.numerator ≤ n.denominator)

-- A decision within the bounds of the schema.
abbrev pub IsDecision : AgentDecision → Type 0
IsDecision d = (1 ≤ length d.reasoning) × (length d.reasoning ≤ 2_000) × IsFraction d.confidence

is_confidence-IsFraction : (n : Number) → is_confidence n ≡ true → IsFraction n
unfolding is_confidence
is_confidence-IsFraction n h = elim (Bool-cases n.negative) [
  | inl negative ↦ (inr (ground arith), ground arith)
  | inr positive ↦ (inl positive, ground arith)
]

checked-IsDecision :
    (v : Verdict) (text : List ℕ) (n : Number) (extra : Bool) (d : AgentDecision)
    → checked v text n extra ≡ some d
    → IsDecision d
unfolding checked is_reasoning
checked-IsDecision v text n extra d h =
    elim (Bool-cases (not extra && is_reasoning (trimmed text) && is_confidence n)) [
      | inl taken ↦ rw (sym (is_of taken)) (bounds taken)
      | inr refused ↦ absurd (impossible refused)
    ]
  where
    taken_as : AgentDecision
    taken_as = record { decision = v; reasoning = trimmed text; confidence = n }

    is_of : (not extra && is_reasoning (trimmed text) && is_confidence n) ≡ true → taken_as ≡ d
    is_of taken = some-eq (sym (ap (λ b. if b then some taken_as else none) taken) ∙ h)

    impossible : (not extra && is_reasoning (trimmed text) && is_confidence n) ≡ false → ⊥
    impossible refused =
        let gone : none ≡ some d = sym (ap (λ b. if b then some taken_as else none) refused) ∙ h in
        ground arith

    bounds :
        (not extra && is_reasoning (trimmed text) && is_confidence n) ≡ true → IsDecision taken_as
    bounds taken = (ground arith, ground arith, is_confidence-IsFraction n (ground arith))

decision_schema-IsDecision :
    (p : Parsed) (d : AgentDecision) → decision_schema p ≡ some d → IsDecision d
unfolding decision_schema
decision_schema-IsDecision p d h = fields p.decision p.reasoning p.confidence h
  where
    fields :
        (v : Option Verdict) (text : Option (List ℕ)) (n : Option Number)
        → (elim v as (λ _. Option AgentDecision) [
          | none ↦ none
          | some decision ↦ elim text as (λ _. Option AgentDecision) [
            | none ↦ none
            | some reasoning ↦ elim n as (λ _. Option AgentDecision) [
              | none ↦ none
              | some confidence ↦ checked decision reasoning confidence p.extra
            ]
          ]
        ])
          ≡ some d
        → IsDecision d
    fields none text n h = absurd (ground arith)
    fields (some v) none n h = absurd (ground arith)
    fields (some v) (some text) none h = absurd (ground arith)
    fields (some v) (some text) (some n) h = checked-IsDecision v text n p.extra d h

decision_of-IsDecision :
    (json_parse : List ℕ → Option Parsed) (candidate : List ℕ) (d : AgentDecision)
    → decision_of json_parse candidate ≡ some d
    → IsDecision d
unfolding decision_of
decision_of-IsDecision json_parse candidate d h = of_parsed (json_parse candidate) h
  where
    of_parsed :
        (p : Option Parsed)
        → (elim p as (λ _. Option AgentDecision) [ none ↦ none | some q ↦ decision_schema q ])
          ≡ some d
        → IsDecision d
    of_parsed none h = absurd (ground arith)
    of_parsed (some p) h = decision_schema-IsDecision p d h

first_decision-IsDecision :
    (json_parse : List ℕ → Option Parsed) (candidates : List (List ℕ)) (d : AgentDecision)
    → first_decision json_parse candidates ≡ some d
    → IsDecision d
unfolding first_decision
first_decision-IsDecision json_parse [] d h = absurd (ground arith)
first_decision-IsDecision json_parse (x ∷ xs) d h = elim (Option-cases (decision_of json_parse x)) [
  | inl refused ↦ first_decision-IsDecision json_parse xs d (rw (refused, first_decision) at h)
  | inr (e, taken) ↦
      decision_of-IsDecision json_parse x d (taken ∙ (rw (taken, first_decision) at h))
]

-- Whatever the model answers, a decision that is returned has a reasoning of one to two thousand
-- units and a confidence between zero and one.
pub parse_decision-IsDecision :
    (json_parse : List ℕ → Option Parsed) (source : List ℕ) (d : AgentDecision)
    → parse_decision json_parse source ≡ some d
    → IsDecision d
unfolding parse_decision
parse_decision-IsDecision json_parse source d h =
    first_decision-IsDecision json_parse (json_objects source) d h
