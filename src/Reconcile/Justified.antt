-- ===== src/Reconcile/Justified.antt =====
-- What `resolveExpiredClean` of `backend/src/listener/reconcile.ts` sends, against what the chain said before:
-- every call of the chain is written down as it is made.
use bondsman.Common.{
  ℕ, String, Bool, true, false, ◌&&◌, List, [], ◌∷◌, ◌++◌, ◌==◌, string_eq, nat_eq, ltb, leb,
  if◌then◌else◌, ◌≡◌, refl, arith, Bool-cases, Option-cases, inl, inr,
}
use bondsman.Arm.{
  Outcome, ok, err, World, ◌>>=◌, pure, ask, query, modify, outward, handled, bind_outcome,
  either_end,
}
use bondsman.Repository.Records.{ActionRecord}
use bondsman.Repository.Actions.{action}
use bondsman.Reconcile.Chain.{ChainAction}
use bondsman.Reconcile.Expiry.{
  Dates, Chain, Visit, left, sent, failed, stopped, Sweep, is_stale, resolve_expired, check_expired,
  visit_known, visit, sweep,
}

pub data Call : Type 0 where
  clock : ℕ → Call
  said : ℕ → ChainAction → Call
  silent : ℕ → Call
  resolving : ℕ → Call

abbrev answer_call : ℕ → Outcome ChainAction → Call
answer_call id (ok chain) = said id chain
answer_call id (err e) = silent id

-- A chain that writes its calls down, the last one first.
abbrev pub traced : {S : Type 0} → Chain S → Chain (S × List Call)
traced chain = record {
  now = λ s. let (n, s') = chain.now s.0 in (n, (s', clock n ∷ s.1));
  read_action = λ id s. let (r, s') = chain.read_action id s.0 in (r, (s', answer_call id r ∷ s.1));
  resolve_action =
      λ id s. let (r, s') = chain.resolve_action id s.0 in (r, (s', resolving id ∷ s.1));
  reconcile = pure tt;
}

-- The chain just said that the action is executed, and the clock then that its window is over.
abbrev pub follows : ℕ → List Call → Bool
follows id (clock n ∷ said j chain ∷ _) =
    j == id && chain.status == "Executed" && ltb chain.window_end n
follows id _ = false

abbrev pub is_justified : List Call → Bool
is_justified [] = true
is_justified (resolving id ∷ calls) = follows id calls && is_justified calls
is_justified (_ ∷ calls) = is_justified calls

module _ {S : Type 0} (chain : Chain S) (dates : Dates) where
  abbrev Justified : World (S × List Call) → Type 0
  Justified w = is_justified w.outer.1 ≡ true

  abbrev Checked : ℕ → Outcome Bool × World (S × List Call) → Type 0
  Checked id (ok true, w) = Justified w
  Checked id (ok false, w) = Justified w × (follows id w.outer.1 ≡ true)
  Checked id (err e, w) = Justified w

  check_expired-Checked :
      (id : ℕ) (local : ActionRecord) (w : World (S × List Call))
      → Justified w
      → Checked id (check_expired (traced chain) dates id local w)
  unfolding check_expired ◌>>=◌ outward is_stale pure ask modify
  check_expired-Checked id local w h = of_answer (chain.read_action id w.outer.0) refl
    where
      over :
          (c : ChainAction) (n : ℕ)
          → (c.status == "Executed") ≡ true
          → leb n c.window_end ≡ false
          → (id == id && c.status == "Executed" && ltb c.window_end n) ≡ true
      over c n executed late = ground (arith, nat_eq.same_iff id id)

      of_clock :
          (c : ChainAction) (s : S)
          → chain.read_action id w.outer.0 ≡ (ok c, s)
          → (c.status == "Executed") ≡ true
          → (b : Bool) → leb (chain.now s).0 c.window_end ≡ b
          → Checked id (check_expired (traced chain) dates id local w)
      of_clock c s e executed true early = rw e (rw executed (rw early h))
      of_clock c s e executed false late =
          rw e (rw executed (rw late (h, over c (chain.now s).0 executed late)))

      of_answer :
          (x : Outcome ChainAction × S)
          → chain.read_action id w.outer.0 ≡ x
          → Checked id (check_expired (traced chain) dates id local w)
      of_answer (err f, s) e = rw e h
      of_answer (ok c, s) e = elim (Bool-cases (c.status == "Executed")) [
        | inl executed ↦ of_clock c s e executed (leb (chain.now s).0 c.window_end) refl
        | inr other ↦ rw e (rw other h)
      ]

  resolve_expired-Justified :
      (id : ℕ) (w : World (S × List Call))
      → Justified w
      → follows id w.outer.1 ≡ true
      → Justified (resolve_expired (traced chain) dates id w).1
  unfolding resolve_expired handled outward pure
  resolve_expired-Justified id w h next = of_answer (chain.resolve_action id w.outer.0) refl
    where
      both : (follows id w.outer.1 && is_justified w.outer.1) ≡ true
      both = ground arith

      of_answer :
          (x : Outcome String × S)
          → chain.resolve_action id w.outer.0 ≡ x
          → Justified (resolve_expired (traced chain) dates id w).1
      of_answer (ok hash, s) e = rw e both
      of_answer (err f, s) e = rw e both

  visit_known-Justified :
      (id : ℕ) (local : ActionRecord) (w : World (S × List Call))
      → Justified w
      → Justified (visit_known (traced chain) dates id local w).1
  unfolding visit_known handled pure
  visit_known-Justified id local w h =
      of_check (check_expired (traced chain) dates id local w) (check_expired-Checked id local w h)
    where
      of_check :
          (r : Outcome Bool × World (S × List Call))
          → Checked id r
          → Justified
              (either_end {B = Visit} r
                (λ stale. if stale then pure left else resolve_expired (traced chain) dates id)
                (λ e. pure (failed e.message))).1
      of_check (ok true, w') j = j
      of_check (ok false, w') j = resolve_expired-Justified id w' j.0 j.1
      of_check (err e, w') j = j

  visit-Justified :
      (id : ℕ) (w : World (S × List Call))
      → Justified w
      → Justified (visit (traced chain) dates id w).1
  unfolding visit ◌>>=◌ pure query
  visit-Justified id w h = elim (Option-cases (action id w.db)) [
    | inl unknown ↦ rw unknown h
    | inr (local, known) ↦ rw known (visit_known-Justified id local w h)
  ]

-- Whatever the chain answers, and however the loop ends, every `resolve_action` that is sent follows
-- at once on a reading of that action which said that it is executed and on a reading of the clock
-- after the end of its window.
pub sweep-is_justified :
    {S : Type 0} (chain : Chain S) (dates : Dates) (ids : List ℕ) (so_far : Sweep)
    (w : World (S × List Call))
    → is_justified w.outer.1 ≡ true
    → is_justified (sweep (traced chain) dates ids so_far w).1.outer.1 ≡ true
unfolding sweep ◌>>=◌ pure
sweep-is_justified {S = S} chain dates [] so_far w h = h
sweep-is_justified {S = S} chain dates (id ∷ ids) so_far w h =
    of_visit (visit (traced chain) dates id w) (visit-Justified chain dates id w h)
      (λ after w' j. sweep-is_justified chain dates ids after w' j)
  where
    of_visit :
        (r : Outcome Visit × World (S × List Call))
        → is_justified r.1.outer.1 ≡ true
        → ((after : Sweep) (w' : World (S × List Call))
            → is_justified w'.outer.1 ≡ true
            → is_justified (sweep (traced chain) dates ids after w').1.outer.1 ≡ true)
        → is_justified
            (bind_outcome r (λ v. elim v [
              | left ↦ sweep (traced chain) dates ids so_far
              | sent hash ↦
                  sweep
                    (traced chain)
                    dates
                    ids
                    (record so_far { hashes = so_far.hashes ++ hash ∷ [] })
              | failed message ↦
                  sweep
                    (traced chain)
                    dates
                    ids
                    (record so_far { failures = so_far.failures ++ (id, message) ∷ [] })
              | stopped message ↦
                  pure (record so_far { failures = so_far.failures ++ (id, message) ∷ [] })
            ])).1.outer.1
          ≡ true
    of_visit (ok left, w') j rest = rest so_far w' j
    of_visit (ok (sent hash), w') j rest = rest _ w' j
    of_visit (ok (failed message), w') j rest = rest _ w' j
    of_visit (ok (stopped message), w') j rest = j
    of_visit (err e, w') j rest = j
