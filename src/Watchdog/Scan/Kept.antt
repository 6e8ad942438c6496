-- ===== src/Watchdog/Scan/Kept.antt =====
-- What the writes of a scan do to the table of catches.
use bondsman.Common.{
  ℕ, String, Bool, false, inl, inr, Option, none, some, List, [], ◌∷◌, ◌++◌, ◌≡◌, ◌⊎◌, refl, ◌==◌,
  nat_eq, arith, if◌then◌else◌,
}
use bondsman.Repository.Records.{ActionRecord, WatchdogCatchRecord}
use bondsman.Repository.Tables.{Database, done}
use bondsman.Repository.Actions.{upsert_action}
use bondsman.Repository.Catches.{watchdog_catch}
use bondsman.Repository.Evidence.{use_delivery_evidence, release_delivery_evidence}
use bondsman.Watchdog.Scan.{returned, Encounter, bind_evidence, release_evidence}

abbrev or_else {ℓ} : {A : Type ℓ} → Option A → Option A → Option A
or_else (some a) other = some a
or_else none other = other

-- Every catch that is in the first table is in the second, as it was.
abbrev pub Kept : Database → Database → Type 0
Kept db db' =
    (j : ℕ) (r : WatchdogCatchRecord) → watchdog_catch j db ≡ some r → watchdog_catch j db' ≡ some r

-- No other writer deletes or changes catches while the scan waits.
pub record IsGentle (e : Encounter) : Type 0 where
  pub asleep : (db : Database) → Kept db (e.while_asleep db)
  pub waiting : (db : Database) → Kept db (e.while_waiting db)
  pub reconciling : (db db' : Database) → e.reconcile db ≡ returned db' → Kept db db'

pub catch-upsert_action :
    (a : ActionRecord) (j : ℕ) (db : Database)
    → watchdog_catch j (upsert_action a db) ≡ watchdog_catch j db
unfolding watchdog_catch upsert_action
catch-upsert_action a j db = refl

pub catch-release :
    (root : Option String) (id j : ℕ) (db : Database)
    → watchdog_catch j (release_evidence root id db) ≡ watchdog_catch j db
unfolding watchdog_catch release_evidence release_delivery_evidence
catch-release none id j db = refl
catch-release (some root) id j db = refl

pub catch-bind :
    (root : Option String) (id j : ℕ) (db db' : Database) (bound : Bool)
    → bind_evidence root id db ≡ done (bound, db')
    → watchdog_catch j db' ≡ watchdog_catch j db
unfolding watchdog_catch bind_evidence use_delivery_evidence
catch-bind none id j db db' bound h = ground arith
catch-bind (some root) id j db db' bound h = ground arith

-- What a step may do: nothing to the returned list and to any catch, or one more catch, whose row
-- is its content, and nothing to the others.
abbrev pub Extends :
    Database → Database → List WatchdogCatchRecord → List WatchdogCatchRecord → Type 0
Extends db after caught caught' =
    ((caught' ≡ caught) × Kept db after)
    ⊎ ((r : WatchdogCatchRecord) × ((caught' ≡ caught ++ r ∷ [])
          × (watchdog_catch r.action_id after ≡ some r)
          × ((j : ℕ) (x : WatchdogCatchRecord)
              → (r.action_id == j) ≡ false
              → watchdog_catch j db ≡ some x
              → watchdog_catch j after ≡ some x)))

pub Extends-after :
    (db db' after : Database) (caught caught' : List WatchdogCatchRecord)
    → Kept db db'
    → Extends db' after caught caught'
    → Extends db after caught caught'
Extends-after db db' after caught caught' k (inl (same, kept)) =
    inl (same, λ j r h. kept j r (k j r h))
Extends-after db db' after caught caught' k (inr (r, (eq, here, others))) =
    inr (r, (eq, here, λ j x other h. others j x other (k j x h)))

-- The last catch of an action among those that were returned.
abbrev pub last_for : ℕ → List WatchdogCatchRecord → Option WatchdogCatchRecord
last_for j [] = none
last_for j (r ∷ rs) = or_else (last_for j rs) (if r.action_id == j then some r else none)

pub last_for-snoc :
    (j : ℕ) (rs : List WatchdogCatchRecord) (r : WatchdogCatchRecord)
    → last_for j (rs ++ r ∷ []) ≡ (if r.action_id == j then some r else last_for j rs)
last_for-snoc j [] r = ground arith
last_for-snoc j (x ∷ rs) r = ground (arith, last_for-snoc j rs r)
