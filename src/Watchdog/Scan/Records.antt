-- ===== src/Watchdog/Scan/Records.antt =====
-- What a catch leaves in the tables.
use bondsman.Common.{
  ℕ, ◌/◌, String, false, some, List, [], ◌∷◌, ◌++◌, ◌≡◌, refl, ◌==◌, nat_eq, string_eq, arith,
  if◌then◌else◌,
}
use bondsman.Common.Decimal.{big_int, big_int-to_text}
use bondsman.Common.Table.{lookup, lookup-upsert}
use bondsman.Repository.Records.{ActionRecord, WatchdogCatchRecord, watchdog, watchdog_key}
use bondsman.Repository.Tables.{Database}
use bondsman.Repository.Actions.{action, upsert_action}
use bondsman.Repository.Actions.Stored.{stored, action-upsert_action}
use bondsman.Repository.Catches.{record_watchdog_catch, watchdog_catch, catch_row}
use bondsman.Watchdog.Scan.{
  WatchdogChallengeCandidate, Encounter, goes_on, record_catch, catch_record, caught_action,
}

-- A catch that is recorded is read back, and no other.
pub watchdog_catch-record :
    (r : WatchdogCatchRecord) (j : ℕ) (db : Database)
    → watchdog_catch j (record_watchdog_catch r db)
      ≡ (if r.action_id == j then some r else watchdog_catch j db)
unfolding watchdog_catch record_watchdog_catch
watchdog_catch-record r j db =
    ground (arith, lookup-upsert r.action_id j (λ _. catch_row r) db.watchdog_catches)

action-record :
    (r : WatchdogCatchRecord) (j : ℕ) (db : Database)
    → action j (record_watchdog_catch r db) ≡ action j db
unfolding action record_watchdog_catch
action-record r j db = refl

id-catch_record :
    (current : ActionRecord) (bond : ℕ) (reasoning : String) (txs : String × String) (at : ℕ)
    → (catch_record current bond reasoning txs at).action_id ≡ current.action_id
unfolding catch_record
id-catch_record current bond reasoning (a, b) at = refl

module _ (address : String) (e : Encounter) (c : WatchdogChallengeCandidate) where
  -- After a catch the row of the catch holds the hashes of the two transactions, the reasoning, the
  -- time and half of the posted bond, rounded down, as reward, and the scan returns this record
  -- last. The action is stored as slashed by the watchdog's own key with the fault class and
  -- evidence of the candidate and with the two transactions, its bond, window, agent and claim as
  -- they were; every other action is left as it was.
  pub record_catch-stored :
      (current : ActionRecord) (reasoning challenge_tx resolve_tx : String) (bond : ℕ)
      (db after : Database) (caught caught' : List WatchdogCatchRecord)
      → big_int current.bond_posted ≡ some bond
      → record_catch address e c current reasoning (challenge_tx, resolve_tx) db caught
        ≡ goes_on after caught'
      → (r : WatchdogCatchRecord) × (a : ActionRecord) × ((watchdog_catch current.action_id after
            ≡ some r)
          × (caught' ≡ caught ++ r ∷ [])
          × (r.action_id ≡ current.action_id)
          × (big_int r.reward ≡ some (bond / 2))
          × (r.reasoning ≡ reasoning)
          × (r.challenge_tx ≡ challenge_tx)
          × (r.resolve_tx ≡ resolve_tx)
          × (r.timestamp ≡ e.finished_at)
          × (action current.action_id after ≡ some a)
          × (a.status ≡ "ResolvedSlash")
          × (a.challenger ≡ some address)
          × (a.challenger_type ≡ some watchdog)
          × (a.challenge_signing ≡ some watchdog_key)
          × (a.fault_class ≡ some c.fault_class)
          × (a.evidence_root ≡ c.evidence_root)
          × (lookup "challenge" a.transactions ≡ some challenge_tx)
          × (lookup "resolve" a.transactions ≡ some resolve_tx)
          × (a.bond_posted ≡ current.bond_posted)
          × (a.window_end ≡ current.window_end)
          × (a.agent ≡ current.agent)
          × (a.claim_hash ≡ current.claim_hash)
          × ((j : ℕ) → (j == current.action_id) ≡ false → action j after ≡ action j db))
  unfolding record_catch catch_record caught_action lookup
  record_catch-stored current reasoning challenge_tx resolve_tx bond db after caught caught' b h =
      let r = catch_record current bond reasoning (challenge_tx, resolve_tx) e.finished_at in
      let a = caught_action c current address (challenge_tx, resolve_tx) in
      let db' = upsert_action a db in
      (
        r,
        stored a,
        (
          ground (arith, watchdog_catch-record r current.action_id db'),
          ground arith,
          refl,
          big_int-to_text (bond / 2),
          refl,
          refl,
          refl,
          refl,
          ground (
            arith,
            action-record r current.action_id db',
            action-upsert_action a current.action_id db,
          ),
          refl,
          refl,
          refl,
          refl,
          refl,
          refl,
          refl,
          refl,
          refl,
          refl,
          refl,
          refl,
          λ j other. ground (arith, action-record r j db', action-upsert_action a j db),
        ),
      )
