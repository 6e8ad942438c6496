-- ===== src/Idempotency/Exclusive.antt =====
-- The operations that run under the keys of `backend/src/api/idempotency.ts`, call by call: a request
-- may arrive at any moment, and an operation that runs gives its value or ends at any moment.
use bondsman.Common.{
  ℕ, ◌+◌, String, Bool, true, not, ◌&&◌, none, some, [], ◌∷◌, ◌==◌, string_eq, nat_eq, ◌≡◌, refl,
  Option-cases, inl, inr, arith, filter, any,
}
use bondsman.Common.Table.{
  Table, lookup, IsKeyed, lookup-upsert, upsert-IsKeyed, any-lookup, lookup-filter-sift,
  filter-IsKeyed,
}
use bondsman.Idempotency.{
  Headers, header, Answer, started, IdempotencyStore, empty_store, scoped_key, run, run_keyed,
  on_value, on_settled,
}
use bondsman.Idempotency.Keyed.{lookup-delete, delete-IsKeyed}

module _ {V : Type 0} where
  abbrev with_started : String → Answer V → Table String ℕ → Table String ℕ
  with_started key (started p) live = (key, p) ∷ live
  with_started key _ live = live

abbrev pub is_operation : String → ℕ → String × ℕ → Bool
is_operation key p o = o.0 == key && o.1 == p

-- A store with the operations started under a key that have not ended yet, by key and promise.
pub record World (V : Type 0) : Type 0 where
  pub store : IdempotencyStore V
  pub live : Table String ℕ
  pub next : ℕ

module _ {V : Type 0} where
  abbrev pub new_world : World V
  new_world = record { store = empty_store; live = []; next = 0 }

  unfoldable pub request : Headers → String → ℕ → World V → World V
  unfolding header scoped_key run
  request headers scope now w = elim (header headers) [
    | none ↦ record w { store = (run headers scope now w.next w.store).1; next = w.next + 1 }
    | some raw ↦
        let (given, store) = run headers scope now w.next w.store in
        record {
          store = store;
          live = with_started (scoped_key scope raw) given w.live;
          next = w.next + 1;
        }
  ]

  -- What can happen next.
  pub data Step (ttl_ms : ℕ) : World V → World V → Type 0 where
    requested :
        {w : World V} (headers : Headers) (scope : String) (now : ℕ)
        → Step ttl_ms w (request headers scope now w)
    gave_value :
        {w : World V} (key : String) (p : ℕ) (value : V) (now : ℕ)
        → any (is_operation key p) w.live ≡ true
        → Step ttl_ms w (record w { store = on_value ttl_ms key value now w.store })
    settled :
        {w : World V} (key : String) (p : ℕ)
        → any (is_operation key p) w.live ≡ true
        → Step ttl_ms w (record w {
          store = on_settled key w.store;
          live = filter (λ o. not (is_operation key p o)) w.live;
        })

  pub data Reached (ttl_ms : ℕ) : World V → Type 0 where
    fresh : Reached ttl_ms new_world
    after : {w w' : World V} → Reached ttl_ms w → Step ttl_ms w w' → Reached ttl_ms w'

  -- The table of the store is the operations that run.
  abbrev Tracks : World V → Type 0
  Tracks w =
      IsKeyed w.store.in_flight
      × IsKeyed w.live
      × ((k : String) → lookup k w.store.in_flight ≡ lookup k w.live)

  run_keyed-Tracks :
      (key : String) (now : ℕ) (w : World V)
      → Tracks w
      → Tracks (record {
        store = (run_keyed key now w.next w.store).1;
        live = with_started key (run_keyed key now w.next w.store).0 w.live;
        next = w.next + 1;
      })
  unfolding run_keyed lookup
  run_keyed-Tracks key now w h = (
    let keyed = h.0 in ground (arith, upsert-IsKeyed key (λ _. w.next) w.store.in_flight keyed),
    let same = h.2 key in let keyed = h.1 in ground arith,
    λ k.
        let same = h.2 k in
        ground (
          arith,
          string_eq.same_iff k key,
          string_eq.same_iff key k,
          lookup-upsert key k (λ _. w.next) w.store.in_flight,
        ),
  )

  request-Tracks :
      (headers : Headers) (scope : String) (now : ℕ) (w : World V)
      → Tracks w
      → Tracks (request headers scope now w)
  unfolding request run
  request-Tracks headers scope now w h = elim (Option-cases (header headers)) [
    | inl bare ↦ rw (bare, request) (rw (bare, run) h)
    | inr (raw, keyed) ↦
        rw (keyed, request) (rw (keyed, run) (run_keyed-Tracks (scoped_key scope raw) now w h))
  ]

  -- The operation that ends is the one that the store has under its key.
  settled-Tracks :
      (key : String) (p : ℕ) (w : World V)
      → any (is_operation key p) w.live ≡ true
      → Tracks w
      → Tracks (record w {
        store = on_settled key w.store;
        live = filter (λ o. not (is_operation key p o)) w.live;
      })
  unfolding on_settled
  settled-Tracks key p w runs h =
      let one = any-lookup (λ o. o.1 == p) key w.live h.1 in
      (
        delete-IsKeyed key w.store.in_flight h.0,
        filter-IsKeyed (λ o. not (is_operation key p o)) w.live h.1,
        λ k.
            let same = h.2 k in
            let sifted = lookup-filter-sift (λ o. not (is_operation key p o)) k w.live h.1 in
            ground (
              arith,
              string_eq.same_iff k key,
              string_eq.same_iff key k,
              lookup-delete key k w.store.in_flight h.0,
            ),
      )

  step-Tracks : {ttl_ms : ℕ} {w w' : World V} → Step ttl_ms w w' → Tracks w → Tracks w'
  step-Tracks (requested {w = w} headers scope now) h = request-Tracks headers scope now w h
  step-Tracks (gave_value key p value now runs) h = unfold on_value in h
  step-Tracks (settled {w = w} key p runs) h = settled-Tracks key p w runs h

  reached-Tracks : {ttl_ms : ℕ} {w : World V} → Reached ttl_ms w → Tracks w
  reached-Tracks fresh = (tt, tt, λ k. unfold lookup in refl)
  reached-Tracks (after r s) = step-Tracks s (reached-Tracks r)

-- In every world that requests and operations can lead to, whatever the order in which they arrive
-- and end, the operations that run under a key have different scoped keys: no two of them run at
-- once under one key of one scope.
pub reached-IsKeyed : {V : Type 0} {ttl_ms : ℕ} {w : World V} → Reached ttl_ms w → IsKeyed w.live
reached-IsKeyed r = (reached-Tracks r).1
