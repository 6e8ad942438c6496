-- ===== src/Idempotency/Examples.antt =====
-- Runs of the store of `backend/src/api/idempotency.ts`.
use bondsman.Common.{ℕ, none, some, List, [], ◌∷◌, ◌≡◌, refl, string_eq}
use bondsman.Common.Table.{lookup, upsert, IsKeyed}
use bondsman.Idempotency.{
  Headers, once, header, trim, run, run_keyed, on_value, on_settled, delete, drop_expired,
  empty_store, cached, joined, started, scoped_key,
}
use bondsman.Idempotency.Promise.{asked, gave, ended, Event, answers, promised, idle}
use bondsman.Idempotency.Refines.{answers-promised}
use bondsman.Idempotency.Exclusive.{new_world, request, requested, fresh, after, reached-IsKeyed}

abbrev keyed_headers : Headers
keyed_headers = record { idempotency_key = some (once " k "); x_idempotency_key = none }

abbrev events : List (Event ℕ)
events =
    asked keyed_headers "arm" 10 0
    ∷ asked keyed_headers "arm" 20 1
    ∷ gave "arm:k" 7 30
    ∷ ended "arm:k"
    ∷ asked keyed_headers "arm" 129 2
    ∷ asked keyed_headers "arm" 130 3
    ∷ asked keyed_headers "resolve" 130 4
    ∷ []

-- The second request joins the first; its value answers until its time; another scope is another key.
events_answered :
    answers 100 events empty_store ≡ started 0 ∷ joined 0 ∷ cached 7 ∷ started 3 ∷ started 4 ∷ []
unfolding answers run run_keyed header trim on_value on_settled delete drop_expired lookup upsert
    scoped_key
events_answered = refl

answers-promised_example : answers 100 events empty_store ≡ promised 100 events (λ _. idle)
answers-promised_example = answers-promised 100 events

reached-IsKeyed_example :
    IsKeyed
      (request keyed_headers "arm" 20 (request keyed_headers "arm" 10 (new_world {V = ℕ}))).live
reached-IsKeyed_example =
    reached-IsKeyed {V = ℕ} {ttl_ms = 100}
      (after (after fresh (requested keyed_headers "arm" 10)) (requested keyed_headers "arm" 20))
