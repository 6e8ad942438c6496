-- ===== src/Reconcile/Cooldown.antt =====
-- The pause after a failure of funds in `resolveExpiredClean` of `backend/src/listener/reconcile.ts`.
use bondsman.Common.{
  ℕ, ◌+◌, String, true, false, ◌&&◌, some, List, [], ◌∷◌, ◌==◌, string_eq, ltb, ◌<◌, ◌≡◌, refl,
  arith, ◌∙◌, ap,
}
use bondsman.Common.Json.{Json, Fields, str, obj, field, end, get}
use bondsman.Arm.{World}
use bondsman.Repository.Tables.{StateRow}
use bondsman.Repository.Projection.{system_state}
use bondsman.Reconcile.Expiry.{
  Dates, Chain, is_cooling, any_funding, fields_of, is_not_ok, failed_at, is_recent, put,
  skipped_state, end_state, failure_fields, state_key, resolve_expired_clean,
  expiry_failure_cooldown_ms,
}

get-put :
    (key other : String) (value : Json) (fields : Fields)
    → (key == other) ≡ false
    → get other (put key value fields) ≡ get other fields
unfolding put
get-put key other value end h = ground arith
get-put key other value (field k v rest) h = ground (
  arith,
  get-put key other value rest h,
  string_eq.same_iff k key,
  string_eq.same_iff k other,
  string_eq.same_iff key other,
)

-- A skipped run leaves the pause of the failure as it was: it starts no new one.
pub is_cooling-skipped_state :
    (dates : Dates) (now : ℕ) (time : String) (state : Json)
    → is_cooling dates now (some (skipped_state time state)) ≡ is_cooling dates now (some state)
unfolding is_cooling skipped_state failed_at
is_cooling-skipped_state dates now time (obj previous) =
    ap
      (λ o.
        is_not_ok o
        && any_funding (fields_of (get "failures" skipped))
        && is_recent now (failed_at dates (get "failedAt" skipped)))
      (kept "ok" refl refl)
    ∙ ap
        (λ o.
          is_not_ok (get "ok" previous)
          && any_funding (fields_of o)
          && is_recent now (failed_at dates (get "failedAt" skipped)))
        (kept "failures" refl refl)
    ∙ ap
        (λ o.
          is_not_ok (get "ok" previous)
          && any_funding (fields_of (get "failures" previous))
          && is_recent now (failed_at dates o))
        (kept "failedAt" refl refl)
  where
    reason : Json
    reason = str "cooling down after funding or spend-limit failure"

    skipped : Fields
    skipped = put "reason" reason (put "skippedAt" (str time) previous)

    kept :
        (other : String)
        → ("reason" == other) ≡ false
        → ("skippedAt" == other) ≡ false
        → get other skipped ≡ get other previous
    kept other a b =
        get-put "reason" other reason (put "skippedAt" (str time) previous) a
        ∙ get-put "skippedAt" other (str time) previous b
is_cooling-skipped_state dates now time state = refl

-- The pause after a run that ended at `t` with failures.
pub is_cooling-end_state :
    (dates : Dates) (now t : ℕ) (failures : List (ℕ × String))
    → (dates.to_iso_string t == "") ≡ false
    → dates.parse (dates.to_iso_string t) ≡ some t
    → is_cooling dates now (some (end_state (dates.to_iso_string t) failures))
      ≡ (any_funding (failure_fields failures) && ltb now (t + expiry_failure_cooldown_ms))
unfolding is_cooling end_state failed_at any_funding
is_cooling-end_state dates now t [] shown read = refl
is_cooling-end_state dates now t (f ∷ fs) shown read = rw (shown, read) refl

-- What may come between two runs, and the runs themselves, each before `until`: other work leaves the
-- row of the state alone.
pub data RunsBefore {S : Type 0} (chain : Chain S) (dates : Dates) (until : ℕ)
    : World S → World S → Type 0 where
  none_yet : {w : World S} → RunsBefore chain dates until w w
  meanwhile :
      {w v u : World S}
      → RunsBefore chain dates until w v
      → system_state state_key u.db ≡ system_state state_key v.db
      → RunsBefore chain dates until w u
  and_run :
      {w v : World S}
      → RunsBefore chain dates until w v
      → (chain.now v.outer).0 < until
      → RunsBefore chain dates until w (resolve_expired_clean chain dates v).1

-- The row that is kept holds a pause that lasts until then.
IsPaused : {S : Type 0} → Dates → ℕ → World S → Type 0
IsPaused dates until w =
    (row : StateRow) × (system_state state_key w.db ≡ some row)
    × ((now : ℕ) → now < until → is_cooling dates now (some row.value_json) ≡ true)
