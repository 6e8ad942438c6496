-- ===== src/Watchdog/Detection/Contradictions.antt =====
-- What the contradiction detector hands to the challenger.
use bondsman.Common.{
  ℕ, ◌*◌, String, true, Option, none, some, List, [], ◌∷◌, ◌++◌, ◌≤◌, Bool, any, any-append, ◌∙◌,
  false, nat_eq, string_eq, eq_iff, ◌≡◌, refl, All, arith, length, Bool-cases, inl, inr,
}
use bondsman.Common.Sort.{sort_by, any-sort_by}
use bondsman.Authorization.{codes}
use bondsman.Repository.Records.{ActionRecord, DeliveryAttestationRecord}
use bondsman.Watchdog.Detection.{
  by_action_id, open_to_contradiction, evidence_hex, unused_by_others, candidate_of,
  candidate_of_hex, contradictions_from, detect_delivery_contradictions, hex_bytes, is_evidence_hex,
  DeliveryContradictionCandidate,
}

pub length-hex_bytes : (n : ℕ) (cs : List ℕ) → length cs ≡ 2 * n → length (hex_bytes cs) ≡ n
unfolding hex_bytes
length-hex_bytes n [] h = omega arith
length-hex_bytes n (c ∷ []) h = absurd (omega arith)
length-hex_bytes ℕ.zero (c ∷ d ∷ cs) h = absurd (omega arith)
length-hex_bytes (ℕ.suc n) (c ∷ d ∷ cs) h = omega (arith, length-hex_bytes n cs (omega arith))

length-evidence :
    (text : String) → is_evidence_hex text ≡ true → length (hex_bytes (codes text)) ≡ 120
unfolding is_evidence_hex
length-evidence text h = length-hex_bytes 120 (codes text) (ground arith)

candidate_of_hex-length :
    (a : ActionRecord) (t : DeliveryAttestationRecord) (hex : Option String)
    (c : DeliveryContradictionCandidate)
    → candidate_of_hex a t hex ≡ some c
    → (unused_by_others a t ≡ true)
      × (c.action ≡ a)
      × (c.attestation ≡ t)
      × ((text : String) × (hex ≡ some text)
          × (c.evidence ≡ hex_bytes (codes text))
          × (length c.evidence ≡ 120))
unfolding candidate_of_hex
candidate_of_hex-length a t none c e = cc
candidate_of_hex-length a t (some hex) c e = (
  ground arith,
  ground arith,
  ground arith,
  (hex, refl, ground arith, ground (arith, length-evidence hex)),
)

-- What an action that may be challenged is.
open_to_contradiction-parts :
    (now : ℕ) (a : ActionRecord)
    → open_to_contradiction now a ≡ true
    → (a.status ≡ "Executed")
      × (now ≤ a.window_end)
      × (a.reserved_for_manual ≡ false)
      × (a.challenger ≡ none)
unfolding open_to_contradiction
open_to_contradiction-parts now a h =
    let same = eq_iff a.status "Executed" in
    (ground (arith, same), ground (arith, same), ground (arith, same), ground (arith, same))

unused_by_others-used :
    (a : ActionRecord) (t : DeliveryAttestationRecord) (used : ℕ)
    → unused_by_others a t ≡ true
    → t.used_action_id ≡ some used
    → used ≡ a.action_id
unfolding unused_by_others
unused_by_others-used a t used h is = ground arith

module _ (now : ℕ) (attestation_for : ℕ → Option DeliveryAttestationRecord) where
  -- The candidate stands for an executed action without a challenger whose window is not over and
  -- which is not reserved, with the attestation that is stored for it, used for no other action,
  -- and the 120 bytes that the text of the attestation's payload stands for.
  abbrev pub IsFounded : DeliveryContradictionCandidate → Type 0
  IsFounded c =
      (c.action.status ≡ "Executed")
      × (now ≤ c.action.window_end)
      × (c.action.reserved_for_manual ≡ false)
      × (c.action.challenger ≡ none)
      × (attestation_for c.action.action_id ≡ some c.attestation)
      × ((used : ℕ) → c.attestation.used_action_id ≡ some used → used ≡ c.action.action_id)
      × ((text : String) × (evidence_hex c.attestation.payload ≡ some text)
          × (c.evidence ≡ hex_bytes (codes text))
          × (length c.evidence ≡ 120))

  IsFounded-at :
      (a : ActionRecord) (c : DeliveryContradictionCandidate) (o : Option DeliveryAttestationRecord)
      → open_to_contradiction now a ≡ true
      → attestation_for a.action_id ≡ o
      → (elim o [ none ↦ none | some t ↦ candidate_of_hex a t (evidence_hex t.payload) ]) ≡ some c
      → IsFounded c
  IsFounded-at a c none is_open e h = cc
  IsFounded-at a c (some t) is_open e h =
      let (unused, same, same_t, decoded) =
        candidate_of_hex-length a t (evidence_hex t.payload) c h in
      let (executed, in_time, free, unchallenged) = open_to_contradiction-parts now a is_open in
      (
        rw same executed,
        rw same in_time,
        rw same free,
        rw same unchallenged,
        rw (same, same_t) e,
        rw (same, same_t) (λ used is. unused_by_others-used a t used unused is),
        rw same_t decoded,
      )

  founded :
      (a : ActionRecord) (c : DeliveryContradictionCandidate)
      → candidate_of now attestation_for a ≡ some c
      → IsFounded c
  unfolding candidate_of
  founded a c e = elim (Bool-cases (open_to_contradiction now a)) [
    | inl is_open ↦ IsFounded-at a c (attestation_for a.action_id) is_open refl (rw is_open at e)
    | inr closed ↦ cc (rw closed at e)
  ]

  All-found :
      (o : Option DeliveryContradictionCandidate) (found : List DeliveryContradictionCandidate)
      → ((c : DeliveryContradictionCandidate) → o ≡ some c → IsFounded c)
      → All IsFounded found
      → All IsFounded (elim o [ none ↦ found | some c ↦ c ∷ found ])
  All-found none found f h = h
  All-found (some c) found f h = (f c refl, h)

  contradictions-IsFounded :
      (xs : List ActionRecord) → All IsFounded (contradictions_from now attestation_for xs)
  unfolding contradictions_from
  contradictions-IsFounded [] = tt
  contradictions-IsFounded (a ∷ xs) =
      All-found (candidate_of now attestation_for a) (contradictions_from now attestation_for xs)
        (founded a) (contradictions-IsFounded xs)

  -- Every candidate that the contradiction detector gives stands for an executed action without a
  -- challenger whose window is not over at this time and which is not reserved for a manual
  -- challenge, with the attestation that is stored for it, used for no other action, and as
  -- evidence the 120 bytes that the text in the attestation's payload stands for.
  pub detect_delivery_contradictions-IsFounded :
      (actions : List ActionRecord)
      → All IsFounded (detect_delivery_contradictions actions attestation_for now)
  unfolding detect_delivery_contradictions
  detect_delivery_contradictions-IsFounded actions =
      contradictions-IsFounded (sort_by by_action_id actions)

  abbrev found : (DeliveryContradictionCandidate → Bool) → ActionRecord → Bool
  found p a = elim (candidate_of now attestation_for a) [ none ↦ false | some c ↦ p c ]

  any-contradictions_from :
      (p : DeliveryContradictionCandidate → Bool) (xs : List ActionRecord)
      → any p (contradictions_from now attestation_for xs) ≡ any (found p) xs
  unfolding contradictions_from
  any-contradictions_from p [] = refl
  any-contradictions_from p (a ∷ xs) = ground (arith, any-contradictions_from p xs)

  -- The candidate of an action that is among the actions is among the candidates: a test that it
  -- passes finds one there.
  pub detect_delivery_contradictions_complete :
      (p : DeliveryContradictionCandidate → Bool) (a : ActionRecord)
      (c : DeliveryContradictionCandidate) (xs ys : List ActionRecord)
      → candidate_of now attestation_for a ≡ some c
      → p c ≡ true
      → any p (detect_delivery_contradictions (xs ++ a ∷ ys) attestation_for now) ≡ true
  unfolding detect_delivery_contradictions
  detect_delivery_contradictions_complete p a c xs ys h k =
      any-contradictions_from p (sort_by by_action_id (xs ++ a ∷ ys))
      ∙ (any-sort_by by_action_id (found p) (xs ++ a ∷ ys)
          ∙ ground (arith, any-append (found p) xs (a ∷ ys)))
