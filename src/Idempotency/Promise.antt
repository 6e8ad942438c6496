-- ===== src/Idempotency/Promise.antt =====
-- What the store of `backend/src/api/idempotency.ts` promises, with no table: every scoped key has a slot.
use bondsman.Common.{ℕ, ◌+◌, String, none, some, List, [], ◌∷◌, ◌==◌, string_eq, leb, if◌then◌else◌}
use bondsman.Idempotency.{
  Headers, header, Answer, unkeyed, cached, joined, started, Cached, IdempotencyStore, scoped_key,
  run, on_value, on_settled,
}

-- No operation; one in flight; one that has given its value and is not settled yet; a kept value.
pub data Slot (V : Type 0) : Type 0 where
  idle : Slot V
  flying : ℕ → Slot V
  landed : ℕ → Cached V → Slot V
  resting : Cached V → Slot V

-- What happens at a store: a request with the promise that it would start, a value, an end.
pub data Event (V : Type 0) : Type 0 where
  asked : Headers → String → ℕ → ℕ → Event V
  gave : String → V → ℕ → Event V
  ended : String → Event V

module _ {V : Type 0} where
  -- A value is forgotten when its time has come.
  abbrev pub age : ℕ → Slot V → Slot V
  age now (landed p r) = if leb r.expires_at now then flying p else landed p r
  age now (resting r) = if leb r.expires_at now then idle else resting r
  age now slot = slot

  -- Only an idle slot starts an operation.
  abbrev pub answer : ℕ → Slot V → Answer V
  answer next idle = started next
  answer next (flying p) = joined p
  answer next (landed p r) = cached r.value
  answer next (resting r) = cached r.value

  abbrev pub asked_slot : ℕ → Slot V → Slot V
  asked_slot next idle = flying next
  asked_slot next slot = slot

  abbrev pub filled : Cached V → Slot V → Slot V
  filled r idle = resting r
  filled r (flying p) = landed p r
  filled r (landed p _) = landed p r
  filled r (resting _) = resting r

  abbrev pub freed : Slot V → Slot V
  freed idle = idle
  freed (flying p) = idle
  freed (landed p r) = resting r
  freed (resting r) = resting r

  -- A change to one key's slot.
  abbrev pub at_key : String → (Slot V → Slot V) → (String → Slot V) → String → Slot V
  at_key key f slots k = if k == key then f (slots k) else slots k

  -- The answers that the slots promise to a sequence of events, whatever its order.
  unfoldable pub promised : ℕ → List (Event V) → (String → Slot V) → List (Answer V)
  unfolding header scoped_key
  promised ttl_ms [] slots = []
  promised ttl_ms (asked headers scope now next ∷ events) slots = elim (header headers) [
    | none ↦ unkeyed ∷ promised ttl_ms events slots
    | some raw ↦
        let key = scoped_key scope raw in
        answer next (age now (slots key))
        ∷ promised ttl_ms events (at_key key (asked_slot next) (λ k. age now (slots k)))
  ]
  promised ttl_ms (gave key value now ∷ events) slots =
      promised ttl_ms events
        (at_key key (filled (record { value = value; expires_at = now + ttl_ms })) slots)
  promised ttl_ms (ended key ∷ events) slots = promised ttl_ms events (at_key key freed slots)

  -- The answers of the code.
  unfoldable pub answers : ℕ → List (Event V) → IdempotencyStore V → List (Answer V)
  unfolding run on_value on_settled
  answers ttl_ms [] store = []
  answers ttl_ms (asked headers scope now next ∷ events) store =
      let (given, after) = run headers scope now next store in given ∷ answers ttl_ms events after
  answers ttl_ms (gave key value now ∷ events) store =
      answers ttl_ms events (on_value ttl_ms key value now store)
  answers ttl_ms (ended key ∷ events) store = answers ttl_ms events (on_settled key store)
