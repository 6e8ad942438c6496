-- ===== src/Reconcile/Stored.antt =====
-- What a projection of events stores and names.
use bondsman.Common.{
  ℕ, String, Bool, true, false, Option, none, some, List, [], ◌∷◌, ◌≡◌, arith, ◌==◌, string_eq,
  nat_eq, pair_eq, same_refl, All, Bool-cases, Option-cases, inl, inr, any, refl, ◌∙◌, ap,
}
use bondsman.Common.Table.{lookup, lookup-upsert}
use bondsman.Repository.Tables.{Database, EventRow}
use bondsman.Repository.Records.{EventRecord}
use bondsman.Repository.Events.{upsert_event, event_cursor, advance_event_cursor, merge_event}
use bondsman.Reconcile.{
  ParsedOdraEvent, ChainEvent, projected, is_behind, with_action, event_record, project_event,
  project_from, project_events,
}

abbrev pub names : List ℕ → ℕ → Bool
names ids id = any (λ i. i == id) ids

-- The row of the event: what was parsed of it, and the transaction where one is known for it.
abbrev pub IsRow : (Option ℕ → String → Option String) → ParsedOdraEvent → Option EventRow → Type 0
IsRow transaction_for parsed found =
    (row : EventRow) × ((found ≡ some row)
      × (row.event_type ≡ parsed.event_type)
      × (row.action_id ≡ parsed.action_id)
      × (row.fields ≡ parsed.fields)
      × ((h : String)
          → transaction_for parsed.action_id parsed.event_type ≡ some h
          → row.transaction_hash ≡ some h))

-- The event was parsed and stored, and its action, where it has one, is named.
abbrev pub IsRecorded :
    (Option ℕ → String → Option String) → String → Database → List ℕ → ChainEvent → Type 0
IsRecorded transaction_for contract db ids e =
    (parsed : ParsedOdraEvent) × (e.parsed ≡ some parsed)
    × IsRow transaction_for parsed (lookup (contract, e.index) db.events)
    × ((id : ℕ) → parsed.action_id ≡ some id → names ids id ≡ true)

-- Another index than those of the events.
abbrev pub IsOther : ℕ → List ChainEvent → Type 0
IsOther i = All (λ e. (e.index == i) ≡ false)

-- No two events have the same index.
abbrev pub AreDistinct : List ChainEvent → Type 0
AreDistinct [] = Unit
AreDistinct (e ∷ rest) = IsOther e.index rest × AreDistinct rest

names-with_action :
    (o : Option ℕ) (ids : List ℕ) (id : ℕ)
    → names ids id ≡ true
    → names (with_action o ids) id ≡ true
unfolding with_action
names-with_action none ids id h = h
names-with_action (some a) ids id h = ground arith

names_new :
    (o : Option ℕ) (ids : List ℕ) (id : ℕ) → o ≡ some id → names (with_action o ids) id ≡ true
unfolding with_action
names_new none ids id h = cc
names_new (some a) ids id h = ground arith

same_key :
    (contract : String) (index : ℕ)
    → ◌==◌ {K = String × ℕ} (contract, index) (contract, index) ≡ true
same_key contract index = same_refl {K = String × ℕ} (contract, index)

other_key :
    (contract : String) (index i : ℕ)
    → (index == i) ≡ false
    → ◌==◌ {K = String × ℕ} (contract, index) (contract, i) ≡ false
other_key contract index i other =
    elim (Bool-cases (◌==◌ {K = String × ℕ} (contract, index) (contract, i))) [
      | inr apart ↦ apart
      | inl same ↦
          let pairs : ◌≡◌ {A = String × ℕ} (contract, index) (contract, i) =
            ((pair_eq {K = String} {L = ℕ}).same_iff (contract, index) (contract, i)).0 same in
          let is : index ≡ i = ap (λ (p : String × ℕ). p.1) pairs in
          absurd (ground (arith, is, nat_eq.same_iff index i))
    ]

merged-type :
    (event : EventRecord) (old : Option EventRow)
    → (merge_event event old).event_type ≡ event.event_type
merged-type event none = refl
merged-type event (some row) = refl

merged-action :
    (event : EventRecord) (old : Option EventRow)
    → (merge_event event old).action_id ≡ event.action_id
merged-action event none = refl
merged-action event (some row) = refl

merged-fields :
    (event : EventRecord) (old : Option EventRow) → (merge_event event old).fields ≡ event.fields
merged-fields event none = refl
merged-fields event (some row) = refl

merged-transaction :
    (event : EventRecord) (old : Option EventRow) (h : String)
    → event.transaction_hash ≡ some h
    → (merge_event event old).transaction_hash ≡ some h
merged-transaction event none h is = is
merged-transaction event (some row) h is = rw is refl

module _ (transaction_for : Option ℕ → String → Option String) (now : ℕ) (contract : String) where
  keeps_event :
      (index i : ℕ) (parsed : ParsedOdraEvent) (db : Database)
      → (index == i) ≡ false
      → lookup (contract, i) (project_event transaction_for now contract index parsed db).events
        ≡ lookup (contract, i) db.events
  unfolding project_event upsert_event advance_event_cursor
  keeps_event index i parsed db other = ground (
    arith,
    other_key contract index i other,
    lookup-upsert (contract, index) (contract, i)
        (merge_event (event_record transaction_for now contract index parsed)) db.events,
  )

  stores_own :
      (index : ℕ) (parsed : ParsedOdraEvent) (db : Database)
      → IsRow transaction_for parsed (
          lookup
            (contract, index)
            (project_event transaction_for now contract index parsed db).events)
  unfolding project_event upsert_event advance_event_cursor
  stores_own index parsed db =
      let event = event_record transaction_for now contract index parsed in
      let old = lookup (contract, index) db.events in
      (
        merge_event event old,
        (
          ground (
            arith,
            same_key contract index,
            lookup-upsert (contract, index) (contract, index) (merge_event event) db.events,
          ),
          merged-type event old,
          merged-action event old,
          merged-fields event old,
          λ h is. merged-transaction event old h is,
        ),
      )

  HasRecorded : Option ℕ → List ChainEvent → Database → List ℕ → Database → List ℕ → Type 0
  HasRecorded cursor events db ids after ids' =
      ((i : ℕ)
        → IsOther i events
        → lookup (contract, i) after.events ≡ lookup (contract, i) db.events)
      × ((id : ℕ) → names ids id ≡ true → names ids' id ≡ true)
      × All
          (λ e. is_behind cursor e.index ≡ false → IsRecorded transaction_for contract after ids' e)
          events

  project_from-records :
      (cursor : Option ℕ) (events : List ChainEvent) (db after : Database) (ids ids' : List ℕ)
      → AreDistinct events
      → project_from transaction_for now contract cursor events db ids ≡ projected after ids'
      → HasRecorded cursor events db ids after ids'
  unfolding project_from HasRecorded
  project_from-records cursor [] db after ids ids' distinct h =
      ((λ i _. ground arith), (λ id b. ground (arith, b)), tt)
  project_from-records cursor (e ∷ rest) db after ids ids' (fresh, distinct) h =
      elim (Bool-cases (is_behind cursor e.index)) [
        | inl behind ↦
            let (keeps, named, others) =
              project_from-records cursor rest db after ids ids' distinct (rw behind at h) in
            ((λ i o. keeps i o.1), named, ((λ past. cc), others))
        | inr past ↦ elim (Option-cases e.parsed) [
          | inl broken ↦ cc (rw (past, broken) at h)
          | inr (parsed, found) ↦
              let next = project_event transaction_for now contract e.index parsed db in
              let (keeps, named, others) =
                project_from-records cursor rest next after (with_action parsed.action_id ids) ids'
                  distinct (rw (past, found) at h) in
              (
                (λ i o. keeps i o.1 ∙ keeps_event e.index i parsed db o.0),
                (λ id b. named id (names-with_action parsed.action_id ids id b)),
                (
                  (λ _. (
                    parsed,
                    found,
                    rw (keeps e.index fresh) (stores_own e.index parsed db),
                    (λ id is. named id (names_new parsed.action_id ids id is)),
                  )),
                  others,
                ),
              )
        ]
      ]

  -- Where a projection of events with distinct indices ended, every event past the cursor was parsed,
  -- its row under the contract and its index holds the type, the action and the fields that were
  -- parsed of it, and the transaction where one is known for it; and the action of each of these
  -- events is named to be refreshed.
  pub project_events-records :
      (events : List ChainEvent) (db after : Database) (ids : List ℕ)
      → AreDistinct events
      → project_events transaction_for now contract events db ≡ projected after ids
      → All
          (λ e.
            is_behind (event_cursor contract db) e.index ≡ false
            → IsRecorded transaction_for contract after ids e)
          events
  unfolding project_events HasRecorded
  project_events-records events db after ids distinct h =
      (project_from-records (event_cursor contract db) events db after [] ids distinct h).2
