-- ===== src/ApiErrors/Hidden.antt =====
-- Which texts of errors reach the caller of the API, `backend/src/api/errors.ts`.
use bondsman.Common.{
  false, is_none, not, ℕ, String, Bool, true, ◌||◌, none, some, List, [], ◌∷◌, ◌==◌, string_eq, any,
  ◌≡◌, refl, ◌⊎◌, inl, inr, Option-cases, Bool-cases, ap, arith, same_refl, nat_eq, some-eq, sym,
  ◌∙◌, Comparable,
}
use bondsman.Common.Table.{Table, lookup}
use bondsman.Authorization.{codes}
use bondsman.Arm.Failures.{includes}
use bondsman.ApiErrors.{
  ApiError, controller_error_codes, spending_tripped, funding_low, rate_limited, user_error,
  reverted, operational, named, normalize_message,
}

abbrev operational_texts : List String
operational_texts =
    "The demo spending circuit breaker is cooling down. Please try again shortly."
    ∷ "Backend funding is temporarily low. Please try again shortly."
    ∷ "The Casper node is rate-limiting requests right now. Please try again shortly." ∷ []

-- One of the texts that the module writes itself.
unfoldable pub IsFixed : String → Type 0
IsFixed text =
    (any (λ t. t == text) operational_texts
      || any (λ r. r.1.message == text) controller_error_codes)
    ≡ true

lookup-any {ℓ κ} :
    {K : Type ℓ} {V : Type κ} ⦃c : Comparable K⦄ (p : V → Bool) (k : K) (v : V) (t : Table K V)
    → lookup k t ≡ some v
    → p v ≡ true
    → any (λ r. p r.1) t ≡ true
unfolding lookup
lookup-any p k v [] h hp = ground arith
lookup-any p k v ((j, w) ∷ t) h hp = ground (arith, lookup-any p k v t)

reverted-IsFixed : (text : List ℕ) (e : ApiError) → reverted text ≡ some e → IsFixed e.message
unfolding reverted IsFixed
reverted-IsFixed text e h = elim (Option-cases (user_error text)) [
  | inl none_found ↦ absurd (ground arith)
  | inr (n, found) ↦
      let coded =
        lookup-any (λ v. v.message == e.message) n e controller_error_codes
          (rw (found, reverted) at h) (same_refl e.message) in
      ground arith
]

reverted-entry :
    (text : List ℕ) (e : ApiError)
    → reverted text ≡ some e
    → (n : ℕ) × (user_error text ≡ some n) × (lookup n controller_error_codes ≡ some e)
unfolding reverted
reverted-entry text e h = elim (Option-cases (user_error text)) [
  | inl none_found ↦ absurd (ground arith)
  | inr (n, found) ↦ (n, found, ground arith)
]

operational-cases :
    (text : List ℕ) (e : ApiError)
    → operational text ≡ some e
    → (e ≡ spending_tripped) ⊎ (e ≡ funding_low) ⊎ (e ≡ rate_limited)
unfolding operational
operational-cases text e h = elim (Bool-cases (includes text "SPENDING_CIRCUIT_TRIPPED")) [
  | inl spending ↦ inl (some-eq (sym h ∙ rw spending))
  | inr solvent ↦
      elim (Bool-cases
        (includes text "funding unavailable" || includes text "balance check failed")) [
          | inl funding ↦ inr (inl (some-eq (sym h ∙ rw (solvent, funding))))
          | inr funded ↦ elim (Bool-cases (includes text "rate limited at")) [
            | inl limited ↦ inr (inr (some-eq (sym h ∙ rw (solvent, funded, limited))))
            | inr free ↦ absurd (ground arith)
          ]
        ]
]

operational-IsFixed : (text : List ℕ) (e : ApiError) → operational text ≡ some e → IsFixed e.message
unfolding IsFixed
operational-IsFixed text e h = elim (operational-cases text e h) [
  | inl is ↦ rw is refl
  | inr (inl is) ↦ rw is refl
  | inr (inr is) ↦ rw is refl
]

named-message : (message : String) (status : ℕ) → (named message status).message ≡ message
unfolding named
named-message message status = ground arith

-- What the text of an operational failure holds.
abbrev pub operational_causes : List String
operational_causes =
    "SPENDING_CIRCUIT_TRIPPED" ∷ "funding unavailable" ∷ "balance check failed" ∷ "rate limited at"
    ∷ []

operational-causes :
    (text : List ℕ)
    → not (is_none (operational text)) ≡ any (λ cause. includes text cause) operational_causes
unfolding operational
operational-causes text = ground arith

-- An error that carries the code of a revert which the module knows is answered with the entry of
-- that code; any other that holds the text of an operational failure is answered with one of the
-- module's three answers for these; both are texts of the module, whatever else the message holds.
-- The message of any other error is passed on as it is.
pub normalize_message-IsFixed :
    (message : String) (status : ℕ)
    → let answer = normalize_message message status in
      ((n : ℕ) × ((user_error (codes message) ≡ some n)
          × (lookup n controller_error_codes ≡ some answer)
          × IsFixed answer.message))
      ⊎ ((reverted (codes message) ≡ none)
          × (any (λ cause. includes (codes message) cause) operational_causes ≡ true)
          × ((answer ≡ spending_tripped) ⊎ (answer ≡ funding_low) ⊎ (answer ≡ rate_limited))
          × IsFixed answer.message)
      ⊎ ((reverted (codes message) ≡ none)
          × (any (λ cause. includes (codes message) cause) operational_causes ≡ false)
          × (answer.message ≡ message))
unfolding normalize_message
normalize_message-IsFixed message status = elim (Option-cases (reverted (codes message))) [
  | inr (e, found) ↦
      let is : normalize_message message status ≡ e = rw (found, normalize_message) refl in
      let (n, coded, entry) = reverted-entry (codes message) e found in
      inl (n, (coded, rw is entry, rw is (reverted-IsFixed (codes message) e found)))
  | inl kept ↦ elim (Option-cases (operational (codes message))) [
    | inr (e, found) ↦
        let is : normalize_message message status ≡ e = rw (kept, found, normalize_message) refl in
        inr (
          inl (
            kept,
            sym (operational-causes (codes message)) ∙ rw found refl,
            rw is (operational-cases (codes message) e found),
            rw is (operational-IsFixed (codes message) e found),
          ))
    | inl free ↦
        let normalized : normalize_message message status ≡ named message status = ground arith in
        inr (
          inr (
            kept,
            sym (operational-causes (codes message)) ∙ rw free refl,
            ap (λ a. a.message) normalized ∙ named-message message status,
          ))
  ]
]
