-- ===== src/Reconcile/Cursor.antt =====
-- A projection that ended leaves nothing to the next one.
use bondsman.Common.{
  ℕ, String, true, Option, some, List, [], ◌∷◌, ◌≡◌, refl, arith, string_eq, eq_iff, nat_eq,
  pair_eq, All, Bool-cases, Option-cases, inl, inr,
}
use bondsman.Repository.Tables.{Database}
use bondsman.Repository.Records.{EventRecord}
use bondsman.Repository.Events.{upsert_event, event_cursor}
use bondsman.Repository.Events.Cursor.{event_cursor-advance, raised}
use bondsman.Reconcile.{
  ParsedOdraEvent, ChainEvent, projected, is_behind, with_action, event_record, project_event,
  project_from, project_events,
}

event_cursor-upsert_event :
    (contract : String) (e : EventRecord) (db : Database)
    → event_cursor contract (upsert_event e db) ≡ event_cursor contract db
unfolding event_cursor upsert_event
event_cursor-upsert_event contract e db = refl

module _ (transaction_for : Option ℕ → String → Option String) (now : ℕ) (contract : String) where
  -- Its own event is behind the cursor afterwards, and what was behind stays behind.
  project_event-behind :
      (index i : ℕ) (parsed : ParsedOdraEvent) (db : Database)
      → is_behind
          (event_cursor contract (project_event transaction_for now contract index parsed db))
          i
        ≡ is_behind (some (raised index (event_cursor contract db))) i
  unfolding project_event
  project_event-behind index i parsed db = ground (
    arith,
    eq_iff contract contract,
    event_cursor-advance contract contract index now
        (upsert_event (event_record transaction_for now contract index parsed) db),
    event_cursor-upsert_event contract (event_record transaction_for now contract index parsed) db,
  )

  grows :
      (index i : ℕ) (parsed : ParsedOdraEvent) (db : Database)
      → is_behind (event_cursor contract db) i ≡ true
      → is_behind
          (event_cursor contract (project_event transaction_for now contract index parsed db))
          i
        ≡ true
  unfolding is_behind
  grows index i parsed db h = elim (Option-cases (event_cursor contract db)) [
    | inl e ↦ ground (arith, e, project_event-behind index i parsed db)
    | inr (c, e) ↦ ground (arith, e, project_event-behind index i parsed db)
  ]

  passes_own :
      (index : ℕ) (parsed : ParsedOdraEvent) (db : Database)
      → is_behind
          (event_cursor contract (project_event transaction_for now contract index parsed db))
          index
        ≡ true
  unfolding is_behind
  passes_own index parsed db = elim (Option-cases (event_cursor contract db)) [
    | inl e ↦ ground (arith, e, project_event-behind index index parsed db)
    | inr (c, e) ↦ ground (arith, e, project_event-behind index index parsed db)
  ]

  Covers : Option ℕ → Database → Type 0
  Covers cursor db =
      (i : ℕ) → is_behind cursor i ≡ true → is_behind (event_cursor contract db) i ≡ true

  project_from-behind :
      (cursor : Option ℕ) (events : List ChainEvent) (db after : Database) (ids ids' : List ℕ)
      → Covers cursor db
      → project_from transaction_for now contract cursor events db ids ≡ projected after ids'
      → ((i : ℕ)
          → is_behind (event_cursor contract db) i ≡ true
          → is_behind (event_cursor contract after) i ≡ true)
        × All (λ e. is_behind (event_cursor contract after) e.index ≡ true) events
  unfolding project_from Covers
  project_from-behind cursor [] db after ids ids' c h = (λ i b. ground (arith, b), tt)
  project_from-behind cursor (e ∷ rest) db after ids ids' c h =
      elim (Bool-cases (is_behind cursor e.index)) [
        | inl behind ↦
            let (keeps, others) =
              project_from-behind cursor rest db after ids ids' c (rw behind at h) in
            (keeps, (keeps e.index (c e.index behind), others))
        | inr past ↦ elim (Option-cases e.parsed) [
          | inl broken ↦ cc (rw (past, broken) at h)
          | inr (parsed, found) ↦
              let next = project_event transaction_for now contract e.index parsed db in
              let (keeps, others) =
                project_from-behind cursor rest next after (with_action parsed.action_id ids) ids'
                  (λ i b. grows e.index i parsed db (c i b)) (rw (past, found) at h) in
              (
                (λ i b. keeps i (grows e.index i parsed db b)),
                (keeps e.index (passes_own e.index parsed db), others),
              )
        ]
      ]

  quiet :
      (cursor : Option ℕ) (events : List ChainEvent) (db : Database) (ids : List ℕ)
      → All (λ e. is_behind cursor e.index ≡ true) events
      → project_from transaction_for now contract cursor events db ids ≡ projected db ids
  unfolding project_from
  quiet cursor [] db ids h = refl
  quiet cursor (e ∷ rest) db ids h = rw h.0 (quiet cursor rest db ids h.1)

  -- Where a projection of events ended, a second one of the same events, from the cursor that the
  -- first one left, names no action and changes nothing.
  pub project_events-quiet :
      (events : List ChainEvent) (db after : Database) (ids : List ℕ)
      → project_events transaction_for now contract events db ≡ projected after ids
      → project_events transaction_for now contract events after ≡ projected after []
  unfolding project_events Covers
  project_events-quiet events db after ids h =
      quiet (event_cursor contract after) events after []
        (project_from-behind (event_cursor contract db) events db after [] ids (λ i b. b) h).1
