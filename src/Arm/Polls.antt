-- ===== src/Arm/Polls.antt =====
-- What the polls of an arming give.
use bondsman.Common.{
  ℕ, zero, suc, Bool, true, false, ◌&&◌, Option, none, some, string_eq, nat_eq, ◌≡◌, refl, sym, ◌∙◌,
  arith, eq_iff, leb, if◌then◌else◌,
}
use bondsman.Repository.Tables.{Database}
use bondsman.Arm.{
  Failure, Outcome, ok, err, RawAction, Outside, World, M, ◌>>◌, pure, throw, ask, outward,
}
use bondsman.Arm.Loops.{
  is_open, ready_round, found_or, poll, poll_arm_readiness, poll_executed_readiness,
}
use bondsman.Arm.Logic.{Gives, Gives->>=}
use bondsman.Arm.Request.{Deployed, ArmRequest, is_duplicate_claim, ready}

module _ {S : Type 0} (outside : Outside S) where
  -- The chain gave this for the action, in a state of its own.
  abbrev pub IsReady : ℕ → RawAction → Type 0
  IsReady action_id raw =
      ((s : S) × ((outside.read_action action_id s).0 ≡ ok raw))
      × (raw.status ≡ "Executed")
      × (raw.challenger ≡ "None")

  pub outward-Gives :
      {A : Type 0} (op : S → Outcome A × S) (w : World S)
      → Gives (λ a (w' : World S). ((op w.outer).0 ≡ ok a) × (w'.db ≡ w.db)) (outward op w)
  unfolding outward
  outward-Gives op w = cases (op w.outer).0 refl
    where
      cases :
          (r : Outcome _)
          → (op w.outer).0 ≡ r
          → Gives
              (λ a (w' : World S). ((op w.outer).0 ≡ ok a) × (w'.db ≡ w.db))
              (r, record w { outer = (op w.outer).1 })
      cases (ok a) e = (e, refl)
      cases (err f) e = tt

  open-IsReady :
      (action_id now : ℕ) (a raw : RawAction) (is : Bool) (s : S)
      → (outside.read_action action_id s).0 ≡ ok a
      → (if is && is_open outside a now then some a else none) ≡ some raw
      → IsReady action_id raw
  unfolding is_open
  open-IsReady action_id now a raw is s read h =
      let same : a ≡ raw = ground (arith, h) in
      (
        (s, rw (sym same) read),
        rw (sym same) (ground (arith, eq_iff a.status "Executed")),
        rw (sym same) (ground (arith, eq_iff a.challenger "None")),
      )

  abbrev MaybeReady : ℕ → Database → Option RawAction → World S → Type 0
  MaybeReady action_id db found w =
      ((raw : RawAction) → found ≡ some raw → IsReady action_id raw) × (w.db ≡ db)

  -- A round of a poll, where the second read leaves the database alone.
  round-Gives :
      (action_id : ℕ) (get_ready : M S Bool)
      → ((v : World S) → Gives (λ _ (v' : World S). v'.db ≡ v.db) (get_ready v))
      → (w : World S)
      → Gives
          (MaybeReady action_id w.db)
          (ready_round outside (outward (outside.read_action action_id)) get_ready w)
  unfolding ready_round ask pure
  round-Gives action_id get_ready keeps w =
      Gives->>= _ _ _ _ w (outward-Gives (outside.read_action action_id) w) λ a w' (read, same).
        Gives->>= _ _ _ _ w' (keeps w') λ is v kept.
          Gives->>= (λ _ (u : World S). u.db ≡ v.db) _ _ _ v refl
            λ now u still.
              (λ raw h. open-IsReady action_id now a raw is w.outer read h, still ∙ kept ∙ same)

  abbrev pub ReadyIn : ℕ → Database → RawAction → World S → Type 0
  ReadyIn action_id db raw w = IsReady action_id raw × (w.db ≡ db)

  found_or-Gives :
      (action_id : ℕ) (db : Database) (later : M S RawAction) (found : Option RawAction)
      (w : World S)
      → ((raw : RawAction) → found ≡ some raw → IsReady action_id raw)
      → w.db ≡ db
      → Gives (ReadyIn action_id db) (later w)
      → Gives (ReadyIn action_id db) (found_or outside later found w)
  unfolding found_or pure
  found_or-Gives action_id db later none w is same h = h
  found_or-Gives action_id db later (some raw) w is same h = (is raw refl, same)

  slept-Gives :
      (action_id : ℕ) (again : M S RawAction) (db : Database) (b : Bool) (w : World S)
      → ((v : World S) → v.db ≡ db → Gives (ReadyIn action_id db) (again v))
      → w.db ≡ db
      → Gives
          (ReadyIn action_id db)
          ((if b then (outward (λ s. (ok tt, outside.sleep 2_000 s)) >> again) else again) w)
  unfolding outward
  slept-Gives action_id again db true w gives same =
      Gives->>= (λ _ (u : World S). u.db ≡ w.db) _ _ _ w refl λ _ u still. gives u (still ∙ same)
  slept-Gives action_id again db false w gives same = gives w same

  poll-Gives :
      (action_id : ℕ) (late : Failure) (attempts : ℕ) (round : M S (Option RawAction))
      (db : Database)
      → ((w : World S) → Gives (MaybeReady action_id w.db) (round w))
      → (w : World S) → w.db ≡ db
      → Gives (ReadyIn action_id db) (poll outside late attempts round w)
  unfolding poll throw
  poll-Gives action_id late zero round db gives w same = tt
  poll-Gives action_id late (suc attempts) round db gives w same =
      let again = poll-Gives action_id late attempts round db gives in
      Gives->>= _ _ round _ w (gives w) λ found w' (is, kept).
        found_or-Gives action_id db _ found w' is (kept ∙ same)
          (slept-Gives action_id _ db (leb 1 attempts) w' again (kept ∙ same))

  pub ready-Gives :
      (deployed : Deployed) (request : ArmRequest) (attempts action_id : ℕ) (w : World S)
      → Gives (ReadyIn action_id w.db) (ready outside deployed request attempts action_id w)
  unfolding ready poll_arm_readiness poll_executed_readiness pure
  ready-Gives deployed request attempts action_id w = cases (is_duplicate_claim request.fault_class)
    where
      cases :
          (b : Bool)
          → Gives (ReadyIn action_id w.db) (
              (if b
                  then poll_arm_readiness outside attempts action_id
                  else poll_executed_readiness outside attempts action_id)
                w)
      cases true =
          poll-Gives action_id _ attempts _ w.db
            (round-Gives action_id _ λ v.
              Gives->>= _ _ _ _ v (outward-Gives (outside.read_duplicate action_id) v)
                λ is u (_, kept). kept)
            w refl
      cases false =
          poll-Gives action_id _ attempts _ w.db (round-Gives action_id _ λ v. refl) w refl
