-- ===== src/Arm/Bounded.antt =====
-- How many transactions a whole arming starts.
use bondsman.Common.{
  ℕ, zero, suc, ◌+◌, ◌*◌, String, Bool, true, Option, none, some, List, [], ◌∷◌, string_eq, refl,
  arith, reverse,
}
use bondsman.Repository.Tables.{Database}
use bondsman.Policy.{FaultClass, duplicate_claim, delivery_contradiction}
use bondsman.Arm.{Failure, RawAction, Outside, M, modify, query}
use bondsman.Arm.Loops.{
  ChainActionView, probe_from, resolve_action_cursor, select_from, select_resumable_pending,
  assert_challenge_window, ready_round, found_or, poll, poll_arm_readiness, poll_executed_readiness,
  max_unprojected_action_probes, next_free,
}
use bondsman.Arm.Logic.{
  cost, StartsAtMost, StartsAtMost->>=, StartsAtMost-handled, StartsAtMost-if, StartsAtMost-le,
  StartsAtMost-after,
}
use bondsman.Arm.Sent.{
  Quiet, asked, thrown, given, called, ensure_token_target-Quiet, ensure_invoice-starts,
  initiate-starts, ensure_bond-starts, ensure_executed-starts,
}
use bondsman.Arm.Request.{
  Deployed, ArmRequest, check_key, has_key, key_bytes, check_version, find_pending, invoice_for,
  reasoning_for, purchase_order_hash, invoice_call, ready, SeedInvoice,
}
use bondsman.Arm.Once.{begin_new, store_armed, answer, complete, arm_once}

module _ {S : Type 0} (outside : Outside S) (name : String) where
  modified : (f : Database → Database) → Quiet {S = S} outside name (modify f)
  unfolding modify
  modified f = record { at_most = λ w. omega arith }

  queried : {A : Type 0} (f : Database → A) → Quiet {S = S} outside name (query f)
  unfolding query
  queried f = record { at_most = λ w. omega arith }

  probe_from-Quiet :
      (probes : ℕ) (actions : List ChainActionView) (action_id : ℕ)
      → Quiet outside name (probe_from outside probes actions action_id)
  unfolding probe_from
  probe_from-Quiet zero actions action_id = thrown outside name _ _
  probe_from-Quiet (suc probes) actions action_id =
      StartsAtMost-handled (called outside name _)
        (λ raw. probe_from-Quiet probes _ (suc action_id))
        λ e. StartsAtMost-if _ (thrown outside name _ e) (given outside name _)

  select_from-Quiet :
      (is_paid matches : ℕ → M S Bool) (actions : List ChainActionView)
      → ((i : ℕ) → Quiet outside name (is_paid i))
      → ((i : ℕ) → Quiet outside name (matches i))
      → Quiet outside name (select_from outside is_paid matches actions)
  unfolding select_from
  select_from-Quiet is_paid matches [] paid matched = given outside name none
  select_from-Quiet is_paid matches (action ∷ rest) paid matched =
      let later = select_from-Quiet is_paid matches rest paid matched in
      StartsAtMost-if _
        (StartsAtMost->>= (matched action.action_id) λ claimed.
          StartsAtMost-if claimed
            (StartsAtMost->>= (paid action.invoice_id)
              λ is. StartsAtMost-if is later (given outside name (some action)))
            later)
        later

  found_or-Quiet :
      (later : M S RawAction) (found : Option RawAction)
      → Quiet outside name later
      → Quiet outside name (found_or outside later found)
  unfolding found_or
  found_or-Quiet later none quiet = quiet
  found_or-Quiet later (some action) quiet = given outside name action

  poll-Quiet :
      (late : Failure) (attempts : ℕ) (round : M S (Option RawAction))
      → Quiet outside name round
      → Quiet outside name (poll outside late attempts round)
  unfolding poll
  poll-Quiet late zero round quiet = thrown outside name _ late
  poll-Quiet late (suc attempts) round quiet =
      let again = poll-Quiet late attempts round quiet in
      StartsAtMost->>= quiet λ found.
        found_or-Quiet _ found
          (StartsAtMost-if _ (StartsAtMost->>= (called outside name _) λ _. again) again)

  ready-Quiet :
      (deployed : Deployed) (request : ArmRequest) (attempts action_id : ℕ)
      → Quiet outside name (ready outside deployed request attempts action_id)
  unfolding ready poll_arm_readiness poll_executed_readiness ready_round
  ready-Quiet deployed request attempts action_id =
      StartsAtMost-if _
        (poll-Quiet _ attempts _ (
          StartsAtMost->>= (called outside name _) λ action.
            StartsAtMost->>=
              (StartsAtMost->>= (called outside name _) λ duplicate. given outside name _)
              λ is. StartsAtMost->>= (asked outside name _) λ now. given outside name _))
        (poll-Quiet _ attempts _ (
          StartsAtMost->>= (called outside name _) λ action.
            StartsAtMost->>= (given outside name true)
              λ is. StartsAtMost->>= (asked outside name _) λ now. given outside name _))

  store_armed-Quiet :
      (deployed : Deployed) (request : ArmRequest) (action_id : ℕ) (reasoning : String)
      (invoice : SeedInvoice) (raw : RawAction) (transactions : List (String × String))
      → Quiet outside name
          (store_armed outside deployed request action_id reasoning invoice raw transactions)
  unfolding store_armed
  store_armed-Quiet deployed request action_id reasoning invoice raw transactions =
      StartsAtMost->>= (modified _) λ _. StartsAtMost->>= (modified _) λ _. called outside name _

  answer-Quiet :
      (deployed : Deployed) (request : ArmRequest) (action_id : ℕ) (invoice : SeedInvoice)
      → Quiet outside name (answer outside deployed request action_id invoice)
  unfolding answer
  answer-Quiet deployed request action_id invoice = StartsAtMost->>= (queried _) λ detail.
      StartsAtMost-if _ (given outside name _) (
        StartsAtMost->>= (asked outside name _)
          λ now. StartsAtMost->>= (asked outside name _) λ nonce. given outside name _)

  complete-starts :
      (deployed : Deployed) (request : ArmRequest) (action_id : ℕ) (reasoning : String)
      (invoice : SeedInvoice) (started_at : ℕ) (initiated : Option String)
      → StartsAtMost name
          (cost name "approve" + cost name "post_bond" + cost name "execute_action")
          (complete outside deployed request action_id reasoning invoice started_at initiated)
  unfolding complete assert_challenge_window
  complete-starts deployed request action_id reasoning invoice started_at initiated =
      StartsAtMost-le
        {j = cost name "approve" + cost name "post_bond" + (cost name "execute_action" + 0)}
        (omega arith)
        (StartsAtMost-after (called outside name _) λ first.
          StartsAtMost->>= (ensure_bond-starts outside name deployed.agent action_id first)
            λ bonded.
              StartsAtMost->>=
                (ensure_executed-starts outside name deployed.agent action_id (bonded.0))
                λ executed. StartsAtMost-after (ready-Quiet deployed request 15 action_id) λ raw.
                  StartsAtMost-after
                    (StartsAtMost-if _ (thrown outside name _ _) (given outside name tt))
                    λ _.
                      StartsAtMost-after
                        (StartsAtMost-if _ (given outside name tt) (thrown outside name _ _))
                        λ _.
                          StartsAtMost-after
                            (store_armed-Quiet deployed request action_id reasoning invoice raw _)
                            λ _.
                              StartsAtMost-after (ready-Quiet deployed request 1 action_id)
                                λ _. answer-Quiet deployed request action_id invoice)

  find_pending-Quiet :
      (deployed : Deployed) (request : ArmRequest) (actions : List ChainActionView)
      → Quiet outside name (find_pending outside deployed request actions)
  unfolding find_pending select_resumable_pending
  find_pending-Quiet deployed request actions =
      StartsAtMost-if _
        (select_from-Quiet _ _ (reverse actions) (λ i. called outside name _)
          λ i. StartsAtMost-after (called outside name _) λ candidate. given outside name _)
        (given outside name none)

  check_key-Quiet :
      (deployed : Deployed) (request : ArmRequest)
      → Quiet outside name (check_key outside deployed request)
  unfolding check_key has_key
  check_key-Quiet deployed request = cases request.fault_class (key_bytes outside deployed request)
    where
      cases :
          (fault : FaultClass) (key : Option (List ℕ))
          → Quiet outside name (has_key outside deployed fault key)
      cases duplicate_claim key = given outside name tt
      cases delivery_contradiction none = thrown outside name _ _
      cases delivery_contradiction (some key) =
          StartsAtMost-if _ (given outside name tt) (thrown outside name _ _)

  -- The sum over the steps of an arming.
  pub arm_once-starts :
      (deployed : Deployed) (request : ArmRequest)
      → StartsAtMost name
          (cost name "submit_invoice"
            + 2 * cost name "initiate_action"
            + cost name "approve"
            + cost name "post_bond"
            + cost name "execute_action")
          (arm_once outside deployed request)
  unfolding arm_once check_version invoice_for reasoning_for purchase_order_hash begin_new
      invoice_call resolve_action_cursor
  arm_once-starts deployed request =
      StartsAtMost-le
        {j = cost name "submit_invoice"
          + (2 * cost name "initiate_action"
              + (cost name "approve" + cost name "post_bond" + cost name "execute_action"))}
        (omega arith)
        (StartsAtMost-after (StartsAtMost-if _ (thrown outside name _ _) (given outside name tt))
          λ _. StartsAtMost-after (ensure_token_target-Quiet outside name _ _) λ _.
            StartsAtMost-after (ensure_token_target-Quiet outside name _ _) λ _.
              StartsAtMost-after (queried _) λ views.
                StartsAtMost-after
                  (probe_from-Quiet max_unprojected_action_probes views (next_free views))
                  λ cursor.
                    StartsAtMost-after (find_pending-Quiet deployed request (cursor.0)) λ pending.
                      StartsAtMost-after (check_key-Quiet deployed request) λ _.
                        StartsAtMost-after
                          (StartsAtMost-if _ (given outside name _) (
                            StartsAtMost-after (asked outside name _) λ hash. given outside name _))
                          λ invoice.
                            StartsAtMost->>=
                              (StartsAtMost-if _
                                (StartsAtMost-le (omega arith) (given outside name tt))
                                (ensure_invoice-starts outside name deployed.deployer invoice.id _ _
                                  (StartsAtMost-if _ (given outside name _) (asked outside name _))
                                  (λ hash. refl)))
                              λ _.
                                StartsAtMost-after
                                  (StartsAtMost-if _
                                    (StartsAtMost-if _ (given outside name _)
                                      (thrown outside name _ _))
                                    (given outside name _))
                                  λ reasoning.
                                    StartsAtMost-after (asked outside name _) λ started_at.
                                      StartsAtMost->>=
                                        (StartsAtMost-if _
                                          (StartsAtMost-le (omega arith) (given outside name none))
                                          (initiate-starts outside name deployed.agent _ _))
                                        λ initiated.
                                          complete-starts deployed request _ reasoning invoice
                                            started_at initiated)
