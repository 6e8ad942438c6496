-- ===== src/Arm/Loops.antt =====
-- The loops of `backend/src/api/arm.ts`: `createInvoiceIdGenerator`, `selectResumablePending`,
-- `resolveActionCursor`, `pollArmReadiness` and `pollExecutedReadiness`.
use bondsman.Common.{
  ℕ, zero, suc, ◌+◌, max, String, Bool, true, ◌&&◌, ◌||◌, Option, none, some, List, [], ◌∷◌, ◌++◌,
  reverse, map, ◌==◌, string_eq, leb, ltb, if◌then◌else◌,
}
use bondsman.Repository.Records.{ActionRecord}
use bondsman.Repository.Tables.{Database}
use bondsman.Repository.Actions.{list_actions}
use bondsman.Arm.Failures.{is_transient_rpc_error}
use bondsman.Arm.{
  Failure, plain, ok, RawAction, Outside, M, ◌>>=◌, ◌>>◌, pure, throw, ask, outward, handled,
}

pub record ChainActionView : Type 0 where
  pub action_id : ℕ
  pub invoice_id : ℕ
  pub window_end : ℕ
  pub status : String

-- One call of the generator, on the identifier that it gave last.
unfoldable pub next_invoice_id : ℕ → ℕ → ℕ
next_invoice_id now previous = max now (previous + 1)

abbrev pub thirty_minutes_ms : ℕ
thirty_minutes_ms = 1_800_000

abbrev pub fifteen_minutes_ms : ℕ
fifteen_minutes_ms = 900_000

abbrev pub max_unprojected_action_probes : ℕ
max_unprojected_action_probes = 200

unfoldable pub projected_action_views : Database → List ChainActionView
projected_action_views db = map view (list_actions db)
  where
    view : ActionRecord → ChainActionView
    view action = record {
      action_id = action.action_id;
      invoice_id = action.invoice_id;
      window_end = action.window_end;
      status = action.status;
    }

-- `Math.max(-1, ...ids) + 1`
unfoldable pub next_free : List ChainActionView → ℕ
next_free [] = 0
next_free (v ∷ vs) = max (v.action_id + 1) (next_free vs)

unfoldable pub view_of : ℕ → RawAction → ChainActionView
view_of action_id raw = record {
  action_id = action_id;
  invoice_id = raw.invoice_id;
  window_end = raw.window_end;
  status = raw.status;
}

module _ {S : Type 0} (outside : Outside S) where
  unfoldable pub assert_challenge_window : ℕ → ℕ → M S (Unit {0})
  assert_challenge_window started_at window_end =
      if ltb window_end (started_at + thirty_minutes_ms)
      then throw (plain "armed action challenge window is under thirty minutes")
      else pure tt

  -- The argument counts the probes that are left.
  unfoldable pub probe_from : ℕ → List ChainActionView → ℕ → M S (List ChainActionView × ℕ)
  unfolding view_of
  probe_from zero actions action_id =
      throw (plain "action cursor is more than three actions ahead of the local projection")
  probe_from (suc probes) actions action_id =
      handled (outward (outside.read_action action_id))
        (λ raw. probe_from probes (actions ++ (view_of action_id raw ∷ [])) (suc action_id))
        (λ error. if is_transient_rpc_error error then throw error else pure (actions, action_id))

  unfoldable pub resolve_action_cursor : List ChainActionView → M S (List ChainActionView × ℕ)
  unfolding probe_from next_free
  resolve_action_cursor projected =
      probe_from max_unprojected_action_probes projected (next_free projected)

  resumable : ChainActionView → Bool
  resumable action =
      leb 1_000_000_000_000 action.invoice_id
      && (action.status == "Initiated" || action.status == "Bonded")

  unfoldable pub select_from :
      (ℕ → M S Bool) → (ℕ → M S Bool) → List ChainActionView → M S (Option ChainActionView)
  unfolding resumable
  select_from is_paid matches [] = pure none
  select_from is_paid matches (action ∷ rest) =
      let later = select_from is_paid matches rest in
      if resumable action
      then (do
        claimed ← matches action.action_id
        if claimed
            then (do paid ← is_paid action.invoice_id; if paid then later else pure (some action))
            else later)
      else later

  unfoldable pub select_resumable_pending :
      List ChainActionView → (ℕ → M S Bool) → (ℕ → M S Bool) → M S (Option ChainActionView)
  unfolding select_from
  select_resumable_pending actions is_paid matches = select_from is_paid matches (reverse actions)

  -- Whether an action that was read can still be challenged for 15 minutes.
  unfoldable pub is_open : RawAction → ℕ → Bool
  is_open raw now =
      raw.status == "Executed"
      && raw.challenger == "None"
      && leb (now + fifteen_minutes_ms) raw.window_end

  -- One round of a poll: an action that is ready, or none.
  unfoldable pub ready_round : M S RawAction → M S Bool → M S (Option RawAction)
  unfolding is_open
  ready_round get_action get_ready = do
    action ← get_action
    ready ← get_ready
    now ← ask outside.now
    pure (if ready && is_open action now then some action else none)

  unfoldable pub found_or : M S RawAction → Option RawAction → M S RawAction
  found_or later none = later
  found_or later (some action) = pure action

  unfoldable pub poll : Failure → ℕ → M S (Option RawAction) → M S RawAction
  unfolding found_or
  poll late zero round = throw late
  poll late (suc attempts) round =
      let again = poll late attempts round in
      let slept =
        (if leb 1 attempts
          then (outward (λ s. (ok tt, outside.sleep 2_000 s)) >> again)
          else again) in
      round >>= found_or slept

  unfoldable pub poll_arm_readiness : ℕ → ℕ → M S RawAction
  unfolding poll ready_round
  poll_arm_readiness attempts action_id =
      poll (plain "armed action did not become challengeable before readiness timeout") attempts (
        ready_round (outward (outside.read_action action_id))
          (outward (outside.read_duplicate action_id) >>= λ duplicate. pure (duplicate == "true")))

  unfoldable pub poll_executed_readiness : ℕ → ℕ → M S RawAction
  unfolding poll ready_round
  poll_executed_readiness attempts action_id =
      poll (plain "paid action did not become executable before readiness timeout") attempts
        (ready_round (outward (outside.read_action action_id)) (pure true))
