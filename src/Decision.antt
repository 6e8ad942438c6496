-- ===== src/Decision.antt =====
-- The reading of the language model's answer, `backend/src/agent/decision.ts`. A text is the list of its
-- code units. `JSON.parse` and the parts of the schema that are not of the code's own are arguments:
-- what the text of an object parses to, with its fields.
pub mod Scanned
pub mod Grammar
pub mod Accepted
pub mod Bounded
mod Examples
use bondsman.Common.{
  ℕ, ◌+◌, ◌-◌, ◌≤◌, Bool, true, false, not, ◌&&◌, ◌||◌, Option, none, some, List, [], ◌∷◌, ◌++◌,
  ◌==◌, nat_eq, ltb, leb, length, take, drop, reverse, if◌then◌else◌,
}
use bondsman.SpendGuard.Settings.{drop_spaces}

abbrev pub quote : ℕ
quote = 34

abbrev pub backslash : ℕ
backslash = 92

abbrev pub left_brace : ℕ
left_brace = 123

abbrev pub right_brace : ℕ
right_brace = 125

-- The variables of the loop; `start` is none where the code has -1.
pub record Scan : Type 0 where
  pub found : List (List ℕ)
  pub depth : ℕ
  pub start : Option ℕ
  pub quoted : Bool
  pub escaped : Bool

abbrev pub new_scan : Scan
new_scan = record { found = []; depth = 0; start = none; quoted = false; escaped = false }

-- `source.slice(from, to)`
unfoldable pub slice : List ℕ → ℕ → ℕ → List ℕ
slice source from to = take (to - from) (drop from source)

unfoldable pub in_string : ℕ → Scan → Scan
in_string c s =
    if s.escaped
    then record s { escaped = false }
    else if c == backslash
    then record s { escaped = true }
    else if c == quote
    then record s { quoted = false }
    else s

unfoldable pub opened : ℕ → Scan → Scan
opened index s = record s {
  depth = s.depth + 1;
  start = if s.depth == 0 then some index else s.start;
}

abbrev pub pushed : List ℕ → ℕ → Option ℕ → Scan → Scan
unfolding slice
pushed source index none s = s
pushed source index (some start) s = record s {
  found = s.found ++ slice source start (index + 1) ∷ [];
  start = none;
}

unfoldable pub closed : List ℕ → ℕ → Scan → Scan
unfolding pushed
closed source index s =
    let shallower = record s { depth = s.depth - 1 } in
    if s.depth - 1 == 0 then pushed source index s.start shallower else shallower

-- The body of the loop.
unfoldable pub scan_step : List ℕ → ℕ → ℕ → Scan → Scan
unfolding in_string opened closed
scan_step source index c s =
    if s.quoted
    then in_string c s
    else if c == quote
    then record s { quoted = true }
    else if c == left_brace
    then opened index s
    else if c == right_brace && ltb 0 s.depth
    then closed source index s
    else s

unfoldable pub scan_from : List ℕ → ℕ → List ℕ → Scan → Scan
unfolding scan_step
scan_from source index [] s = s
scan_from source index (c ∷ rest) s = scan_from source (index + 1) rest (scan_step source index c s)

unfoldable pub json_objects : List ℕ → List (List ℕ)
unfolding scan_from
json_objects source = (scan_from source 0 source new_scan).found

pub data Verdict : Type 0 where
  approve reject : Verdict

-- A number, as a fraction.
pub record Number : Type 0 where
  pub negative : Bool
  pub numerator : ℕ
  pub denominator : ℕ

-- The fields of an object that `JSON.parse` gives: `none` for a field that is absent or of another
-- type, or for another text than the two of the enumeration; `extra` if there is any other field.
pub record Parsed : Type 0 where
  pub decision : Option Verdict
  pub reasoning : Option (List ℕ)
  pub confidence : Option Number
  pub extra : Bool

pub record AgentDecision : Type 0 where
  pub decision : Verdict
  pub reasoning : List ℕ
  pub confidence : Number

unfoldable pub trimmed : List ℕ → List ℕ
unfolding drop_spaces
trimmed text = reverse (drop_spaces (reverse (drop_spaces text)))

-- `z.number().min(0).max(1)`
unfoldable pub is_confidence : Number → Bool
is_confidence n =
    (not n.negative || n.numerator == 0) && (n.negative || leb n.numerator n.denominator)

-- `min(1).max(2_000)`
unfoldable pub is_reasoning : List ℕ → Bool
is_reasoning text = leb 1 (length text) && leb (length text) 2_000

-- The checks of the schema, once the fields have their types.
abbrev pub checked : Verdict → List ℕ → Number → Bool → Option AgentDecision
unfolding trimmed is_confidence is_reasoning
checked decision reasoning confidence extra =
    if not extra && is_reasoning (trimmed reasoning) && is_confidence confidence
    then some
        (record { decision = decision; reasoning = trimmed reasoning; confidence = confidence })
    else none

-- `decisionSchema.parse`; `none` where it throws.
unfoldable pub decision_schema : Parsed → Option AgentDecision
unfolding checked
decision_schema p = elim p.decision [
  | none ↦ none
  | some decision ↦ elim p.reasoning [
    | none ↦ none
    | some reasoning ↦ elim p.confidence [
      | none ↦ none
      | some confidence ↦ checked decision reasoning confidence p.extra
    ]
  ]
]

module _ (json_parse : List ℕ → Option Parsed) where
  unfoldable pub decision_of : List ℕ → Option AgentDecision
  unfolding decision_schema
  decision_of candidate = elim (json_parse candidate) [ none ↦ none | some p ↦ decision_schema p ]

  -- The first candidate that is a decision; `none` where the last error is thrown.
  unfoldable pub first_decision : List (List ℕ) → Option AgentDecision
  unfolding decision_of
  first_decision [] = none
  first_decision (candidate ∷ rest) =
      let later = first_decision rest in
      elim (decision_of candidate) [ none ↦ later | some decision ↦ some decision ]

  unfoldable pub parse_decision : List ℕ → Option AgentDecision
  unfolding json_objects first_decision
  parse_decision source = first_decision (json_objects source)
