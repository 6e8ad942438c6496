-- ===== src/Watchdog/Detection/Duplicates.antt =====
-- The duplicate detector against a description without order or sets.
use bondsman.Common.{
  ℕ, ◌<◌, String, Bool, true, false, ◌&&◌, ◌||◌, List, [], ◌∷◌, ◌==◌, nat_eq, string_eq, leb, ltb,
  ◌≡◌, ◌≢◌, refl, ◌∙◌, if◌then◌else◌, any, All, All-weaken, arith, Bool-cases, inl, inr,
}
use bondsman.Common.Sort.{sort_by, insert_by, any-sort_by, All-insert_by, All-sort_by}
use bondsman.Repository.Records.{ActionRecord}
use bondsman.Watchdog.Detection.{
  is_paid_status, by_action_id, challengeable_duplicate, duplicates_from, detect_duplicate_actions,
}

-- No two actions have one number.
abbrev pub HasDistinctIds : List ActionRecord → Type 0
HasDistinctIds [] = Unit
HasDistinctIds (a ∷ rest) = All (λ b. a.action_id ≢ b.action_id) rest × HasDistinctIds rest

abbrev IsIncreasing : List ActionRecord → Type 0
IsIncreasing [] = Unit
IsIncreasing (a ∷ rest) = All (λ b. a.action_id < b.action_id) rest × IsIncreasing rest

insert-IsIncreasing :
    (a : ActionRecord) (xs : List ActionRecord)
    → All (λ b. a.action_id ≢ b.action_id) xs
    → IsIncreasing xs
    → IsIncreasing (insert_by by_action_id a xs)
insert-IsIncreasing a [] ne inc = (tt, tt)
insert-IsIncreasing a (x ∷ xs) ne inc = elim (Bool-cases (leb a.action_id x.action_id)) [
  | inl first ↦
      rw first
        ((ground (arith, ne.0), All-weaken _ _ (λ b above. ground (arith, ne.0)) xs inc.0), inc)
  | inr later ↦ rw later (
    All-insert_by by_action_id (λ b. x.action_id < b.action_id) a xs (ground arith) inc.0,
    insert-IsIncreasing a xs ne.1 inc.1,
  )
]

sort-IsIncreasing :
    (xs : List ActionRecord) → HasDistinctIds xs → IsIncreasing (sort_by by_action_id xs)
sort-IsIncreasing [] h = tt
sort-IsIncreasing (a ∷ xs) h =
    insert-IsIncreasing a (sort_by by_action_id xs)
      (All-sort_by by_action_id (λ b. a.action_id ≢ b.action_id) xs h.0) (sort-IsIncreasing xs h.1)

-- An earlier action was paid for the same claim.
abbrev pub repeats : ActionRecord → ActionRecord → Bool
repeats a b = ltb b.action_id a.action_id && is_paid_status b.status && b.claim_hash == a.claim_hash

any_congr {ℓ} :
    {A : Type ℓ} (p q : A → Bool) (xs : List A) → All (λ x. p x ≡ q x) xs → any p xs ≡ any q xs
any_congr p q [] h = refl
any_congr p q (x ∷ xs) h = cc (h.0, any_congr p q xs h.1)

not_repeated :
    (x : ActionRecord) (xs : List ActionRecord)
    → All (λ b. x.action_id < b.action_id) xs
    → any (repeats x) xs ≡ false
not_repeated x [] h = refl
not_repeated x (y ∷ ys) h = ground (arith, not_repeated x ys h.1)

-- What the loop reports, of the actions numbered `k`.
reported : ℕ → ℕ → List String → List ActionRecord → ActionRecord → Bool
reported now k seen xs a =
    a.action_id == k
    && is_paid_status a.status
    && challengeable_duplicate now a
    && (any (λ h. h == a.claim_hash) seen || any (repeats a) xs)

abbrev seen_after : List String → ActionRecord → List String
seen_after seen x = if is_paid_status x.status then x.claim_hash ∷ seen else seen

reported_step :
    (now k : ℕ) (seen : List String) (x : ActionRecord) (xs : List ActionRecord) (a : ActionRecord)
    → x.action_id < a.action_id
    → reported now k (seen_after seen x) xs a ≡ reported now k seen (x ∷ xs) a
unfolding reported
reported_step now k seen x xs a below = ground arith

head_reported :
    (now k : ℕ) (seen : List String) (x : ActionRecord) (xs : List ActionRecord)
    → All (λ b. x.action_id < b.action_id) xs
    → ((is_paid_status x.status
          && any (λ h. h == x.claim_hash) seen
          && challengeable_duplicate now x)
        && x.action_id == k)
      ≡ reported now k seen (x ∷ xs) x
unfolding reported
head_reported now k seen x xs above = ground (arith, not_repeated x xs above)

All-of {ℓ κ} : {A : Type ℓ} {P : A → Type κ} → ((a : A) → P a) → (xs : List A) → All P xs
All-of f [] = tt
All-of f (x ∷ xs) = (f x, All-of f xs)

any_if {ℓ} :
    {A : Type ℓ} (p : A → Bool) (b : Bool) (x : A) (xs : List A)
    → any p (if b then x ∷ xs else xs) ≡ (b && p x || any p xs)
any_if p true x xs = refl
any_if p false x xs = refl

join : {a b c d : Bool} → a ≡ b → c ≡ d → (a || c) ≡ (b || d)
join h k = cc

duplicates_from-reported :
    (now k : ℕ) (seen : List String) (xs : List ActionRecord)
    → IsIncreasing xs
    → any (λ a. a.action_id == k) (duplicates_from now seen xs) ≡ any (reported now k seen xs) xs
unfolding duplicates_from
duplicates_from-reported now k seen [] inc = refl
duplicates_from-reported now k seen (x ∷ xs) inc =
    any_if (λ a. a.action_id == k) _ x (duplicates_from now (seen_after seen x) xs)
    ∙ join (head_reported now k seen x xs inc.0) (
        duplicates_from-reported now k (seen_after seen x) xs inc.1
        ∙ any_congr (reported now k (seen_after seen x) xs) (reported now k seen (x ∷ xs)) xs
            (All-weaken _ _ (λ a below. reported_step now k seen x xs a below) xs inc.0))

All-if {ℓ κ} :
    {A : Type ℓ} (P : A → Type κ) (b : Bool) (x : A) (xs : List A)
    → (b ≡ true → P x)
    → All P xs
    → All P (if b then x ∷ xs else xs)
All-if P true x xs h hs = (h refl, hs)
All-if P false x xs h hs = hs

duplicates_from-challengeable :
    (now : ℕ) (seen : List String) (xs : List ActionRecord)
    → All (λ a. challengeable_duplicate now a ≡ true) (duplicates_from now seen xs)
unfolding duplicates_from
duplicates_from-challengeable now seen [] = tt
duplicates_from-challengeable now seen (x ∷ xs) =
    All-if (λ a. challengeable_duplicate now a ≡ true) _ x
      (duplicates_from now (seen_after seen x) xs) (λ h. ground arith)
      (duplicates_from-challengeable now (seen_after seen x) xs)

-- What the detector reports can be challenged as a duplicate at this time.
pub detect_duplicate_actions-challengeable :
    (actions : List ActionRecord) (now : ℕ)
    → All (λ a. challengeable_duplicate now a ≡ true) (detect_duplicate_actions actions now)
unfolding detect_duplicate_actions
detect_duplicate_actions-challengeable actions now =
    duplicates_from-challengeable now [] (sort_by by_action_id actions)

-- For a database whose actions have distinct numbers, the detector reports the action numbered `k`
-- exactly when there is such an action that is paid, that can be challenged as a duplicate at this
-- time, and that repeats the claim of a paid action with a smaller number.
pub detect_duplicate_actions_exact :
    (actions : List ActionRecord) (now k : ℕ)
    → HasDistinctIds actions
    → any (λ a. a.action_id == k) (detect_duplicate_actions actions now)
      ≡ any
          (λ a.
            a.action_id == k
            && is_paid_status a.status
            && challengeable_duplicate now a
            && any (repeats a) actions)
          actions
unfolding detect_duplicate_actions reported
detect_duplicate_actions_exact actions now k distinct =
    duplicates_from-reported now k [] (sort_by by_action_id actions)
      (sort-IsIncreasing actions distinct)
    ∙ (any-sort_by by_action_id (reported now k [] (sort_by by_action_id actions)) actions
        ∙ any_congr (reported now k [] (sort_by by_action_id actions)) _ actions
            (All-of (λ a. rw any-sort_by refl) actions))
