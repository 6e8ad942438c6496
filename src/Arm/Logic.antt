-- ===== src/Arm/Logic.antt =====
-- Rules for operations on a world: what holds of their values, and how many steps they start.
use bondsman.Common.{
  ℕ, ◌+◌, ◌≤◌, String, Bool, true, false, List, [], ◌∷◌, ◌==◌, string_eq, ◌≡◌, refl, arith,
  if◌then◌else◌,
}
use bondsman.Arm.{
  Failure, Outcome, ok, err, Entry, step_start, step_end, step_failed, World, M, ◌>>=◌,
  bind_outcome, caught, attempt, handled, either_end,
}
use bondsman.Arm.Steps.{entrypoint}

-- A property of the value and of the world that it comes in; an error has it.
abbrev pub Gives : {S A : Type 0} → (A → World S → Type 0) → Outcome A × World S → Type 0
Gives Q (ok a, w) = Q a w
Gives Q (err e, w) = Unit

pub Gives->>= :
    {S A B : Type 0} (P : A → World S → Type 0) (Q : B → World S → Type 0) (m : M S A)
    (f : A → M S B) (w : World S)
    → Gives P (m w)
    → ((a : A) (w' : World S) → P a w' → Gives Q (f a w'))
    → Gives Q ((m >>= f) w)
unfolding ◌>>=◌
Gives->>= P Q m f w h next = bound (m w) h
  where
    bound : (r : _) → Gives P r → Gives Q (bind_outcome r f)
    bound (ok a, w') h = next a w' h
    bound (err e, w') h = tt

-- Where nothing is known of the first value.
pub Gives-after :
    {S A B : Type 0} (Q : B → World S → Type 0) (m : M S A) (f : A → M S B) (w : World S)
    → ((a : A) (w' : World S) → Gives Q (f a w'))
    → Gives Q ((m >>= f) w)
unfolding ◌>>=◌
Gives-after Q m f w next = bound (m w)
  where
    bound : (r : _) → Gives Q (bind_outcome r f)
    bound (ok a, w') = next a w'
    bound (err e, w') = tt

pub Gives-map :
    {S A : Type 0} (P Q : A → World S → Type 0) (r : Outcome A × World S)
    → Gives P r
    → ((a : A) (w : World S) → P a w → Gives Q (ok a, w))
    → Gives Q r
Gives-map P Q (ok a, w) h f = f a w h
Gives-map P Q (err e, w) h f = tt

-- What is shown of a value may use that it is the value of the operation.
pub Gives-self :
    {S A : Type 0} (P Q : A → World S → Type 0) (r : Outcome A × World S)
    → Gives P r
    → ((a : A) (w : World S) → r ≡ (ok a, w) → P a w → Q a w)
    → Gives Q r
Gives-self P Q (ok a, w) h f = f a w refl h
Gives-self P Q (err e, w) h f = tt

pub Gives-ok :
    {S A : Type 0} (Q : A → World S → Type 0) (r : Outcome A × World S) (a : A) (w : World S)
    → Gives Q r
    → r ≡ (ok a, w)
    → Q a w
Gives-ok Q r a w h e = rw e at h

-- How many transactions of an entry point were started.
abbrev pub started : String → List Entry → ℕ
started name [] = 0
started name (step_start call signer ∷ es) =
    let rest = started name es in if entrypoint call == name then 1 + rest else rest
started name (step_end call signer duration hash ∷ es) = started name es
started name (step_failed call signer duration reason ∷ es) = started name es

abbrev pub cost : String → String → ℕ
cost name entry = if entry == name then 1 else 0

pub record StartsAtMost {S A : Type 0} (name : String) (k : ℕ) (m : M S A) : Type 0 where
  pub at_most : (w : World S) → started name (m w).1.log ≤ started name w.log + k

module _ {S : Type 0} {name : String} where
  pub StartsAtMost->>= :
      {A B : Type 0} {j k : ℕ} {m : M S A} {f : A → M S B}
      → StartsAtMost name j m
      → ((a : A) → StartsAtMost name k (f a))
      → StartsAtMost name (j + k) (m >>= f)
  unfolding ◌>>=◌
  StartsAtMost->>= {j = j} {k = k} {m = m} {f = f} first next = record {
    at_most = λ w. bound w (m w) (first.at_most w);
  }
    where
      bound :
          (w : World S) (r : Outcome _ × World S)
          → started name (r.1).log ≤ started name w.log + j
          → started name (bind_outcome r f).1.log ≤ started name w.log + (j + k)
      bound w (ok a, w') h = omega (arith, h, (next a).at_most w')
      bound w (err e, w') h = omega (arith, h)

  pub StartsAtMost-handled :
      {A B : Type 0} {j k : ℕ} {m : M S A} {f : A → M S B} {g : Failure → M S B}
      → StartsAtMost name j m
      → ((a : A) → StartsAtMost name k (f a))
      → ((e : Failure) → StartsAtMost name k (g e))
      → StartsAtMost name (j + k) (handled m f g)
  unfolding handled
  StartsAtMost-handled {j = j} {k = k} {m = m} {f = f} {g = g} first next after = record {
    at_most = λ w. bound w (m w) (first.at_most w);
  }
    where
      bound :
          (w : World S) (r : Outcome _ × World S)
          → started name (r.1).log ≤ started name w.log + j
          → started name (either_end r f g).1.log ≤ started name w.log + (j + k)
      bound w (ok a, w') h = omega (arith, h, (next a).at_most w')
      bound w (err e, w') h = omega (arith, h, (after e).at_most w')

  pub StartsAtMost-attempt :
      {A : Type 0} {j k : ℕ} {m : M S A} {handler : Failure → M S A}
      → StartsAtMost name j m
      → ((e : Failure) → StartsAtMost name k (handler e))
      → StartsAtMost name (j + k) (attempt m handler)
  unfolding attempt
  StartsAtMost-attempt {j = j} {k = k} {m = m} {handler = handler} first next = record {
    at_most = λ w. bound w (m w) (first.at_most w);
  }
    where
      bound :
          (w : World S) (r : Outcome _ × World S)
          → started name (r.1).log ≤ started name w.log + j
          → started name (caught r handler).1.log ≤ started name w.log + (j + k)
      bound w (ok a, w') h = omega (arith, h)
      bound w (err e, w') h = omega (arith, h, (next e).at_most w')

  pub StartsAtMost-if :
      {A : Type 0} {k : ℕ} {m n : M S A} (b : Bool)
      → StartsAtMost name k m
      → StartsAtMost name k n
      → StartsAtMost name k (if b then m else n)
  StartsAtMost-if true h i = h
  StartsAtMost-if false h i = i

  pub StartsAtMost-le :
      {A : Type 0} {j k : ℕ} {m : M S A} → j ≤ k → StartsAtMost name j m → StartsAtMost name k m
  StartsAtMost-le le h = record { at_most = λ w. omega (arith, h.at_most w, le) }

  -- After a part that starts nothing.
  pub StartsAtMost-after :
      {A B : Type 0} {k : ℕ} {m : M S A} {f : A → M S B}
      → StartsAtMost name 0 m
      → ((a : A) → StartsAtMost name k (f a))
      → StartsAtMost name k (m >>= f)
  StartsAtMost-after first next = StartsAtMost-le (omega arith) (StartsAtMost->>= first next)
