-- ===== src/Idempotency/Keyed.antt =====
-- The rows that deletion and expiry leave in the maps of `backend/src/api/idempotency.ts`.
use bondsman.Common.{
  ℕ, String, not, Option, none, some, ◌==◌, string_eq, leb, if◌then◌else◌, ◌≡◌, arith,
}
use bondsman.Common.Table.{Table, lookup, IsKeyed, lookup-filter-sift, filter-IsKeyed}
use bondsman.Idempotency.{Cached, delete, drop_expired}

abbrev pub unless_expired : {V : Type 0} → ℕ → Option (Cached V) → Option (Cached V)
unless_expired now none = none
unless_expired now (some r) = if leb r.expires_at now then none else some r

pub lookup-drop_expired :
    {V : Type 0} (now : ℕ) (k : String) (t : Table String (Cached V))
    → IsKeyed t
    → lookup k (drop_expired now t) ≡ unless_expired now (lookup k t)
unfolding drop_expired
lookup-drop_expired now k t h =
    ground (arith, lookup-filter-sift (λ r. not (leb r.1.expires_at now)) k t h)

pub drop_expired-IsKeyed :
    {V : Type 0} (now : ℕ) (t : Table String (Cached V)) → IsKeyed t → IsKeyed (drop_expired now t)
unfolding drop_expired
drop_expired-IsKeyed now t h = filter-IsKeyed (λ r. not (leb r.1.expires_at now)) t h

pub lookup-delete :
    {A : Type 0} (key k : String) (t : Table String A)
    → IsKeyed t
    → lookup k (delete key t) ≡ (if k == key then none else lookup k t)
unfolding delete
lookup-delete key k t h = ground (arith, lookup-filter-sift (λ r. not (r.0 == key)) k t h)

pub delete-IsKeyed :
    {A : Type 0} (key : String) (t : Table String A) → IsKeyed t → IsKeyed (delete key t)
unfolding delete
delete-IsKeyed key t h = filter-IsKeyed (λ r. not (r.0 == key)) t h
