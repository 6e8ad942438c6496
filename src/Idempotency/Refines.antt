-- ===== src/Idempotency/Refines.antt =====
-- The store of `backend/src/api/idempotency.ts` against what it promises of each key.
use bondsman.Common.{
  ℕ, ◌+◌, String, Option, none, some, List, [], ◌∷◌, string_eq, ◌≡◌, refl, Option-cases, inl, inr,
  arith,
}
use bondsman.Common.Table.{lookup, IsKeyed, lookup-upsert, upsert-IsKeyed}
use bondsman.Idempotency.{
  header, Cached, IdempotencyStore, empty_store, scoped_key, drop_expired, run, run_keyed, on_value,
  on_settled,
}
use bondsman.Idempotency.Keyed.{
  lookup-drop_expired, drop_expired-IsKeyed, lookup-delete, delete-IsKeyed,
}
use bondsman.Idempotency.Promise.{
  Slot, idle, flying, landed, resting, Event, asked, gave, ended, age, answer, asked_slot, filled,
  freed, at_key, promised, answers,
}

module _ {V : Type 0} where
  abbrev slot_of : Option ℕ → Option (Cached V) → Slot V
  slot_of none none = idle
  slot_of (some p) none = flying p
  slot_of (some p) (some r) = landed p r
  slot_of none (some r) = resting r

  -- The tables have no key twice, and every key's rows are its slot.
  abbrev Shows : IdempotencyStore V → (String → Slot V) → Type 0
  Shows store slots =
      IsKeyed store.in_flight
      × IsKeyed store.completed
      × ((k : String) → slot_of (lookup k store.in_flight) (lookup k store.completed) ≡ slots k)

  drop_expired-Shows :
      (now : ℕ) (store : IdempotencyStore V) (slots : String → Slot V)
      → Shows store slots
      → Shows
          (record store { completed = drop_expired now store.completed })
          (λ k. age now (slots k))
  drop_expired-Shows now store slots h = (
    h.0,
    drop_expired-IsKeyed now store.completed h.1,
    λ k. ground (arith, lookup-drop_expired now k store.completed h.1, h.2 k),
  )

  on_settled-Shows :
      (key : String) (store : IdempotencyStore V) (slots : String → Slot V)
      → Shows store slots
      → Shows (on_settled key store) (at_key key freed slots)
  unfolding on_settled
  on_settled-Shows key store slots h = (
    delete-IsKeyed key store.in_flight h.0,
    h.1,
    λ k. ground (arith, lookup-delete key k store.in_flight h.0, h.2 k),
  )

  on_value-Shows :
      (ttl_ms : ℕ) (key : String) (value : V) (now : ℕ) (store : IdempotencyStore V)
      (slots : String → Slot V)
      → Shows store slots
      → Shows
          (on_value ttl_ms key value now store)
          (at_key key (filled (record { value = value; expires_at = now + ttl_ms })) slots)
  unfolding on_value
  on_value-Shows ttl_ms key value now store slots h = (
    h.0,
    upsert-IsKeyed key (λ _. record { value = value; expires_at = now + ttl_ms }) store.completed
        h.1,
    λ k. ground (
      arith,
      string_eq.same_iff k key,
      string_eq.same_iff key k,
      lookup-upsert key k (λ _. record { value = value; expires_at = now + ttl_ms })
          store.completed,
      h.2 k,
    ),
  )

  -- The rows of the key after the expired values are gone, as its slot has them.
  run_keyed-answer :
      (key : String) (now next : ℕ) (store : IdempotencyStore V) (slots : String → Slot V)
      → Shows store slots
      → (run_keyed key now next store).0 ≡ answer next (age now (slots key))
  unfolding run_keyed
  run_keyed-answer key now next store slots h =
      let aged = (drop_expired-Shows now store slots h).2 key in ground arith

  run_keyed-Shows :
      (key : String) (now next : ℕ) (store : IdempotencyStore V) (slots : String → Slot V)
      → Shows store slots
      → Shows
          (run_keyed key now next store).1
          (at_key key (asked_slot next) (λ k. age now (slots k)))
  unfolding run_keyed
  run_keyed-Shows key now next store slots h = (
    let keyed = h.0 in ground (arith, upsert-IsKeyed key (λ _. next) store.in_flight keyed),
    let keyed = drop_expired-IsKeyed now store.completed h.1 in ground arith,
    λ k.
        let aged = (drop_expired-Shows now store slots h).2 key in
        let aged_k = (drop_expired-Shows now store slots h).2 k in
        ground (
          arith,
          string_eq.same_iff k key,
          string_eq.same_iff key k,
          lookup-upsert key k (λ _. next) store.in_flight,
        ),
  )

  answers-Shows :
      (ttl_ms : ℕ) (events : List (Event V)) (store : IdempotencyStore V) (slots : String → Slot V)
      → Shows store slots
      → answers ttl_ms events store ≡ promised ttl_ms events slots
  unfolding answers promised run
  answers-Shows ttl_ms [] store slots h = refl
  answers-Shows ttl_ms (asked headers scope now next ∷ events) store slots h =
      elim (Option-cases (header headers)) [
        | inl bare ↦ ground (arith, answers-Shows ttl_ms events store slots h)
        | inr (raw, keyed) ↦
            let key = scoped_key scope raw in
            let same = run_keyed-answer key now next store slots h in
            let later =
              answers-Shows ttl_ms events (run_keyed key now next store).1
                (at_key key (asked_slot next) (λ k. age now (slots k)))
                (run_keyed-Shows key now next store slots h) in
            ground arith
      ]
  answers-Shows ttl_ms (gave key value now ∷ events) store slots h =
      answers-Shows ttl_ms events (on_value ttl_ms key value now store)
        (at_key key (filled (record { value = value; expires_at = now + ttl_ms })) slots)
        (on_value-Shows ttl_ms key value now store slots h)
  answers-Shows ttl_ms (ended key ∷ events) store slots h =
      answers-Shows ttl_ms events (on_settled key store) (at_key key freed slots)
        (on_settled-Shows key store slots h)

-- Whatever happens at a new store, in whatever order, its answers are those of one slot per scoped
-- key: an idle slot starts the caller's operation, a flying one gives the promise in flight, and
-- a slot with a value gives the value until the time to live is over. A request with no key starts
-- its operation and touches no slot.
pub answers-promised :
    {V : Type 0} (ttl_ms : ℕ) (events : List (Event V))
    → answers ttl_ms events empty_store ≡ promised ttl_ms events (λ _. idle)
answers-promised ttl_ms events =
    answers-Shows ttl_ms events empty_store (λ _. idle) (tt, tt, λ k. unfold lookup in refl)
