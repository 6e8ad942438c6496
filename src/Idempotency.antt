-- ===== src/Idempotency.antt =====
-- The answers kept by idempotency key, `backend/src/api/idempotency.ts`. An operation is known by
-- the number of its promise; the two callbacks of its promise are the functions `on_value` and
-- `on_settled`, which run one after the other when the operation has ended.
pub mod Keyed
pub mod Promise
pub mod Refines
pub mod Exclusive
mod Examples
use Prim.Native.Char.{code}
use Prim.Native.String.{◌++◌}
use bondsman.Common.{
  ℕ, ◌+◌, String, Bool, true, false, not, Option, none, some, List, [], ◌∷◌, ◌==◌, string_eq, leb,
  or_else, filter, if◌then◌else◌,
}
use bondsman.Common.Table.{Table, lookup, upsert}
use bondsman.SpendGuard.Settings.{is_space}

-- A header of a request, which may stand several times.
pub data HeaderValue : Type 0 where
  once : String → HeaderValue
  repeated : List String → HeaderValue

pub record Headers : Type 0 where
  pub idempotency_key : Option HeaderValue
  pub x_idempotency_key : Option HeaderValue

trim_start : String → String
unfolding is_space
trim_start String.[] = ""
trim_start (String.◌∷◌ c s) =
    let rest = trim_start s in if is_space (code c) then rest else String.◌∷◌ c s

trim_end : String → String
unfolding is_space
trim_end String.[] = ""
trim_end (String.◌∷◌ c s) =
    let rest = trim_end s in
    if is_space (code c) then (if rest == "" then "" else String.◌∷◌ c rest) else String.◌∷◌ c rest

pub trim : String → String
unfolding trim_start trim_end
trim s = trim_end (trim_start s)

pub non_empty : String → Option String
non_empty s = if s == "" then none else some s

unfoldable pub header : Headers → Option String
unfolding trim non_empty
header headers = elim (or_else headers.idempotency_key headers.x_idempotency_key) [
  | none ↦ none
  | some (once raw) ↦ non_empty (trim raw)
  | some (repeated _) ↦ none
]

-- What `run` gives its caller: the promise of a new operation that is not kept, a value that is
-- kept, the promise of an operation that is in flight, or that of a new one which is kept.
pub data Answer (V : Type 0) : Type 0 where
  unkeyed : Answer V
  cached : V → Answer V
  joined : ℕ → Answer V
  started : ℕ → Answer V

pub record Cached (V : Type 0) : Type 0 where
  pub value : V
  pub expires_at : ℕ

pub record IdempotencyStore (V : Type 0) : Type 0 where
  pub in_flight : Table String ℕ
  pub completed : Table String (Cached V)

-- `map.delete(key)`
unfoldable pub delete : {A : Type 0} → String → Table String A → Table String A
delete key t = filter (λ r. not (r.0 == key)) t

unfoldable pub scoped_key : String → String → String
scoped_key scope key = scope ++ ":" ++ key

module _ {V : Type 0} where
  -- `createIdempotencyStore`
  abbrev pub empty_store : IdempotencyStore V
  empty_store = record { in_flight = []; completed = [] }

  -- The loop over the kept values, which drops those that have expired.
  unfoldable pub drop_expired : ℕ → Table String (Cached V) → Table String (Cached V)
  drop_expired now t = filter (λ r. not (leb r.1.expires_at now)) t

  -- `run` up to its first wait. A new operation has the promise `next`.
  unfoldable pub run_keyed : String → ℕ → ℕ → IdempotencyStore V → Answer V × IdempotencyStore V
  unfolding lookup upsert drop_expired
  run_keyed scoped now next store =
      let kept = record store { completed = drop_expired now store.completed } in
      elim (lookup scoped kept.completed) [
        | some result ↦ (cached result.value, kept)
        | none ↦ elim (lookup scoped kept.in_flight) [
          | some existing ↦ (joined existing, kept)
          | none ↦
              (started next, record kept { in_flight = upsert scoped (λ _. next) kept.in_flight })
        ]
      ]

  unfoldable pub run : Headers → String → ℕ → ℕ → IdempotencyStore V → Answer V × IdempotencyStore V
  unfolding header scoped_key run_keyed
  run headers scope now next store = elim (header headers) [
    | none ↦ (unkeyed, store)
    | some key ↦ run_keyed (scoped_key scope key) now next store
  ]

  -- `.then(...)`, where the operation gave a value
  unfoldable pub on_value : ℕ → String → V → ℕ → IdempotencyStore V → IdempotencyStore V
  unfolding upsert
  on_value ttl_ms scoped value now store = record store {
    completed =
        upsert scoped (λ _. record { value = value; expires_at = now + ttl_ms }) store.completed;
  }

  -- `.finally(...)`, after a value and after an error
  unfoldable pub on_settled : String → IdempotencyStore V → IdempotencyStore V
  unfolding delete
  on_settled scoped store = record store { in_flight = delete scoped store.in_flight }
