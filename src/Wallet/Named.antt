-- ===== src/Wallet/Named.antt =====
-- What the tests of the action and of the target of a transaction say.
use bondsman.Common.{
  ℕ, Bool, false, List, [], ◌∷◌, ◌&&◌, ◌==◌, nat_eq, ◌∙◌, String, true, Option, none, some,
  string_eq, ◌≡◌, refl, arith, eq_iff, Option-cases, Bool-cases, ◌⊎◌, inl, inr,
}
use bondsman.Common.Int.{ℤ, pos, negsuc}
use bondsman.Authorization.{codes, same_codes}
use bondsman.Common.Json.{Json, Fields, str, get}
use bondsman.Wallet.{named_argument, target_hash}
use bondsman.Wallet.Transaction.{
  ChallengeExpectation, is_text, is_number, names_action, names_controller,
}

pub is_text_sound : (text : String) (o : Option Json) → is_text text o ≡ true → o ≡ some (str text)
is_text_sound text (some (str other)) h = rw ((eq_iff other text).0 h) refl
is_text_sound text _ h = absurd (ground arith)

same_codes_sound : (xs ys : List ℕ) → same_codes xs ys ≡ true → xs ≡ ys
unfolding same_codes
same_codes_sound [] [] h = refl
same_codes_sound [] (y ∷ ys) h = cc h
same_codes_sound (x ∷ xs) [] h = cc h
same_codes_sound (x ∷ xs) (y ∷ ys) h =
    let tail = same_codes_sound xs ys in ground (arith, h, tail, nat_eq.same_iff x y)

and_left : (a b : Bool) → (a && b) ≡ true → a ≡ true
and_left a b h = ground arith

and_right : (a b : Bool) → (a && b) ≡ true → b ≡ true
and_right a b h = ground arith

module _ (to_number : Json → Option ℤ) where
  -- The argument `action_id` is there, a `U64`, and its value converts to this number.
  abbrev pub IsActionArgument : Fields → ℕ → Type 0
  IsActionArgument fields action_id =
      (argument : Fields) × (value : Json) × ((named_argument fields "action_id" ≡ some argument)
        × (get "cl_type" argument ≡ some (str "U64"))
        × (get "parsed" argument ≡ some value)
        × (to_number value ≡ some (pos action_id)))

  -- The target has a hash, and it is that of the package or that of the contract.
  abbrev pub IsTarget : Fields → ChallengeExpectation → Type 0
  IsTarget fields expected =
      (target : List ℕ) × ((target_hash fields ≡ some target)
        × ((target ≡ codes expected.controller_package_hash)
            ⊎ (target ≡ codes expected.controller_contract_hash)))

  abbrev IsNumberValue : ℕ → Option Json → Type 0
  IsNumberValue n o = (value : Json) × ((o ≡ some value) × (to_number value ≡ some (pos n)))

  is_number_sound : (n : ℕ) (o : Option Json) → is_number to_number n o ≡ true → IsNumberValue n o
  is_number_sound n none h = cc h
  is_number_sound n (some value) h = elim (Option-cases (to_number value)) [
    | inl bad ↦ cc (rw (bad, is_number) at h)
    | inr (z, found) ↦ (value, (refl, found ∙ is_pos n z (rw (found, is_number) at h)))
  ]
    where
      is_pos :
          (n : ℕ) (z : ℤ)
          → (elim (some z) as (λ _. Bool) [ some (pos m) ↦ m == n | _ ↦ false ]) ≡ true
          → some z ≡ some (pos n)
      is_pos n (pos m) h = ground (arith, h, nat_eq.same_iff m n)
      is_pos n (negsuc m) h = cc h

  pub names_action_sound :
      (fields : Fields) (action_id : ℕ)
      → names_action to_number fields action_id ≡ true
      → IsActionArgument fields action_id
  unfolding names_action
  names_action_sound fields action_id h = elim (Option-cases (named_argument fields "action_id")) [
    | inl bad ↦ cc (rw (bad, names_action) at h)
    | inr (argument, found) ↦
        let kind = is_text "U64" (get "cl_type" argument) in
        let number = is_number to_number action_id (get "parsed" argument) in
        let both : (kind && number) ≡ true = rw (found, names_action) at h in
        let (value, (has, converted)) =
          is_number_sound action_id (get "parsed" argument) (and_right kind number both) in
        (
          argument,
          value,
          (
            found,
            is_text_sound "U64" (get "cl_type" argument) (and_left kind number both),
            has,
            converted,
          ),
        )
  ]

  pub names_controller_sound :
      (fields : Fields) (expected : ChallengeExpectation)
      → names_controller to_number fields expected ≡ true
      → IsTarget fields expected
  unfolding names_controller
  names_controller_sound fields expected h = elim (Option-cases (target_hash fields)) [
    | inl bad ↦ cc (rw (bad, names_controller) at h)
    | inr (target, found) ↦
        let of_package = codes expected.controller_package_hash in
        let of_contract = codes expected.controller_contract_hash in
        elim (Bool-cases (same_codes target of_package)) [
          | inl same ↦ (target, (found, inl (same_codes_sound target of_package same)))
          | inr other ↦ (
            target,
            (
              found,
              inr (same_codes_sound target of_contract (rw (found, other, names_controller) at h)),
            ),
          )
        ]
  ]
