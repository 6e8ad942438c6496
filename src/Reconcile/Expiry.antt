-- ===== src/Reconcile/Expiry.antt =====
-- `resolveExpiredClean` of `backend/src/listener/reconcile.ts`: the executed actions whose window is over
-- are resolved on the chain, and the run's end is kept for the next. The chain's reconciliation is
-- an argument. The clock is read before the tests of the state that is kept, not among them.
use bondsman.Common.{
  ℕ, ◌+◌, ◌*◌, String, Bool, true, false, not, ◌&&◌, ◌||◌, Option, none, some, List, [], ◌∷◌, ◌++◌,
  ◌==◌, string_eq, map, ltb, leb, if◌then◌else◌, or_default,
}
use bondsman.Common.Json.{Json, Fields, bool, str, obj, field, end, get}
use bondsman.Common.Decimal.{to_text}
use bondsman.Authorization.{codes, to_lower}
use bondsman.Arm.{Outcome, M, ◌>>=◌, ◌>>◌, pure, handled, ask, outward, modify, query}
use bondsman.Arm.Failures.{includes}
use bondsman.Repository.Records.{ActionRecord}
use bondsman.Repository.Tables.{Database}
use bondsman.Repository.Actions.{action, upsert_action, expired_clean_actions}
use bondsman.Repository.Projection.{set_system_state, system_state}
use bondsman.Reconcile.Chain.{ChainAction, challenger_of}

abbrev pub expiry_failure_cooldown_ms : ℕ
expiry_failure_cooldown_ms = 60 * 60_000

-- `Date` and its texts: `parse` gives nothing where `Date.parse` gives NaN.
pub record Dates : Type 0 where
  pub to_iso_string : ℕ → String
  pub parse : String → Option ℕ

pub record Chain (S : Type 0) : Type 0 where
  pub now : S → ℕ × S
  pub read_action : ℕ → S → Outcome ChainAction × S
  pub resolve_action : ℕ → S → Outcome String × S
  pub reconcile : M S (Unit {0})

-- `/insufficient balance|SPENDING_CIRCUIT_TRIPPED/i`
unfoldable pub is_funding_failure : String → Bool
unfolding includes to_lower
is_funding_failure message =
    let text = map to_lower (codes message) in
    includes text "insufficient balance" || includes text "spending_circuit_tripped"

-- `Object.values(failures).some(...)`. The values are texts wherever the code writes them.
unfoldable pub any_funding : Fields → Bool
unfolding is_funding_failure
any_funding end = false
any_funding (field key (str message) rest) =
    let later = any_funding rest in is_funding_failure message || later
any_funding (field key _ rest) = any_funding rest

-- `previous?.failures ?? {}`
abbrev pub fields_of : Option Json → Fields
fields_of failures = elim failures [ some (obj fields) ↦ fields | _ ↦ end ]

-- `previous?.ok === false`
abbrev pub is_not_ok : Option Json → Bool
is_not_ok value = elim value [ some (bool false) ↦ true | _ ↦ false ]

-- `previous?.failedAt ? Date.parse(previous.failedAt) : 0`
unfoldable pub failed_at : Dates → Option Json → Option ℕ
failed_at dates value = elim value [
  | some (str text) ↦ if text == "" then some 0 else dates.parse text
  | _ ↦ some 0
]

-- `Date.now() - previousFailedAt < EXPIRY_FAILURE_COOLDOWN_MS`, which NaN fails.
abbrev pub is_recent : ℕ → Option ℕ → Bool
is_recent now none = false
is_recent now (some failed) = ltb now (failed + expiry_failure_cooldown_ms)

unfoldable pub is_cooling : Dates → ℕ → Option Json → Bool
unfolding any_funding failed_at
is_cooling dates now (some (obj previous)) =
    is_not_ok (get "ok" previous)
    && any_funding (fields_of (get "failures" previous))
    && is_recent now (failed_at dates (get "failedAt" previous))
is_cooling dates now _ = false

-- `{ ...fields, key: value }`
unfoldable pub put : String → Json → Fields → Fields
put key value end = field key value end
put key value (field k v rest) =
    let later = put key value rest in if k == key then field k value rest else field k v later

unfoldable pub skipped_state : String → Json → Json
unfolding put
skipped_state time (obj previous) = obj (
    put "reason" (str "cooling down after funding or spend-limit failure")
      (put "skippedAt" (str time) previous))
skipped_state time other = other

-- What became of an expired action.
pub data Visit : Type 0 where
  left : Visit
  sent : String → Visit
  failed : String → Visit
  stopped : String → Visit

pub record Sweep : Type 0 where
  pub hashes : List String
  pub failures : List (ℕ × String)

abbrev pub failure_fields : List (ℕ × String) → Fields
failure_fields [] = end
failure_fields ((id, message) ∷ rest) = field (to_text id) (str message) (failure_fields rest)

unfoldable pub end_state : String → List (ℕ × String) → Json
end_state time [] = obj (field "ok" (bool true) (field "checkedAt" (str time) end))
end_state time (f ∷ fs) = obj (
    field "ok" (bool false)
      (field "failedAt" (str time) (field "failures" (obj (failure_fields (f ∷ fs))) end)))

abbrev pub state_key : String
state_key = "listener_expiry_resolution"

module _ {S : Type 0} (chain : Chain S) (dates : Dates) where
  -- Whether the chain's action is no longer to be resolved: the clock is read only if it is executed.
  unfoldable pub is_stale : ChainAction → M S Bool
  unfolding ◌>>=◌ pure ask
  is_stale said =
      if not (said.status == "Executed")
      then pure true
      else (ask chain.now >>= λ now. pure (leb now said.window_end))

  unfoldable pub refreshed_row : ActionRecord → ChainAction → ActionRecord
  unfolding challenger_of
  refreshed_row local said = record local {
    status = said.status;
    window_end = said.window_end;
    challenger = challenger_of said.challenger;
  }

  unfoldable pub resolve_expired : ℕ → M S Visit
  unfolding pure handled outward is_funding_failure
  resolve_expired action_id =
      handled (outward (chain.resolve_action action_id)) (λ hash. pure (sent hash))
        (λ e. pure (if is_funding_failure e.message then stopped e.message else failed e.message))

  -- The first `try`: whether the row was stale, and was written again.
  unfoldable pub check_expired : ℕ → ActionRecord → M S Bool
  unfolding ◌>>=◌ pure outward modify is_stale refreshed_row upsert_action
  check_expired action_id local = outward (chain.read_action action_id) >>= λ said.
      is_stale said >>= λ stale.
      (if stale
        then (modify (upsert_action (refreshed_row local said)) >> pure true)
        else pure false)

  unfoldable pub visit_known : ℕ → ActionRecord → M S Visit
  unfolding pure handled check_expired resolve_expired
  visit_known action_id local =
      handled (check_expired action_id local)
        (λ stale. if stale then pure left else resolve_expired action_id)
        (λ e. pure (failed e.message))

  unfoldable pub visit : ℕ → M S Visit
  unfolding ◌>>=◌ pure query action visit_known
  visit action_id = query (action action_id) >>= λ local. elim local [
    | none ↦ pure left
    | some row ↦ visit_known action_id row
  ]

  -- The loop.
  unfoldable pub sweep : List ℕ → Sweep → M S Sweep
  unfolding ◌>>=◌ pure visit
  sweep [] so_far = pure so_far
  sweep (id ∷ ids) so_far = visit id >>= λ v. elim v [
    | left ↦ sweep ids so_far
    | sent hash ↦ sweep ids (record so_far { hashes = so_far.hashes ++ hash ∷ [] })
    | failed message ↦
        sweep ids (record so_far { failures = so_far.failures ++ (id, message) ∷ [] })
    | stopped message ↦ pure (record so_far { failures = so_far.failures ++ (id, message) ∷ [] })
  ]

  abbrev pub reconcile_if_sent : List String → M S (Unit {0})
  unfolding pure
  reconcile_if_sent [] = pure tt
  reconcile_if_sent (h ∷ hs) = chain.reconcile

  unfoldable pub write_state : (String → Json) → M S (Unit {0})
  unfolding ◌>>=◌ ask modify set_system_state
  write_state state = ask chain.now >>= λ now.
      modify (set_system_state state_key (state (dates.to_iso_string now)) now)

  unfoldable pub stored_state : Database → Option Json
  unfolding system_state
  stored_state db = elim (system_state state_key db) [
    | none ↦ none
    | some row ↦ some row.value_json
  ]

  unfoldable pub finish : Sweep → M S (List String)
  unfolding ◌>>=◌ pure write_state end_state
  finish done =
      reconcile_if_sent done.hashes
      >> write_state (λ time. end_state time done.failures)
      >> pure done.hashes

  unfoldable pub resolve_expired_clean : M S (List String)
  unfolding ◌>>=◌ pure ask query stored_state is_cooling skipped_state write_state
      expired_clean_actions sweep finish
  resolve_expired_clean = query stored_state >>= λ previous. ask chain.now >>= λ now.
      (if is_cooling dates now previous
        then (write_state (λ time. skipped_state time (or_default previous (obj end))) >> pure [])
        else (ask chain.now >>= λ later. query (expired_clean_actions later) >>= λ ids.
            sweep ids (record { hashes = []; failures = [] }) >>= λ done. finish done))
