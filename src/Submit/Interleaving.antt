-- ===== src/Submit/Interleaving.antt =====
-- Requests that run interleaved. A schedule lists which part of which request runs next; between
-- `authorize` and `settle` a request is in flight, and its submission is running on chain.
use bondsman.Common.{
  ℕ, ◌+◌, ◌≤◌, String, Bool, true, false, Option, none, some, List, [], ◌∷◌, ◌≡◌, refl, arith,
  eq_iff, ◌==◌, string_eq, if◌then◌else◌, leb, any, count, remove_first, count-remove_first,
  count-remove_first_ne, Bool-cases, inl, inr,
}
use bondsman.Common.Table.{lookup, lookup-update, lookup-upsert}
use bondsman.Repository.Records.{PaidQuoteRecord, QuoteStatus, consumed}
use bondsman.Repository.Tables.{Database, QuoteRow}
use bondsman.Repository.Quotes.{
  upsert_paid_quote, merge_quote, reserve_paid_quote, reserve_row, release_paid_quote, release_row,
  consume_paid_quote, consume_row, use_submit_authorization_nonce, passes, is_consuming,
}
use bondsman.Repository.Quotes.Lifecycle.{kept}
use bondsman.Authorization.{Crypto}
use bondsman.Submit.{SubmitInput, Reply, ok, err, authorize, settle}

-- The database, the quotes whose submission is running, one entry for each request in flight, and
-- the quotes for which a request was answered with an action.
pub record World : Type 0 where
  pub db : Database
  pub flights : List String
  pub answered : List String

pub data Move : Type 0 where
  authorizing : SubmitInput → PaidQuoteRecord → String → ℕ → Move
  settling : String → Option ℕ → ℕ → Move
  quoting : PaidQuoteRecord → Move

abbrev is_ok {ℓ} : {A : Type 0} {B : Type ℓ} → Reply A → B → B → B
is_ok (ok _) x y = x
is_ok (err _) x y = y

abbrev for_quote : String → String → Bool
for_quote h f = f == h

land : String → Option ℕ → ℕ → World → World
land h outcome now w =
    let (r, db') = settle h outcome now w.db in
    record {
      db = db';
      flights = remove_first (for_quote h) w.flights;
      answered = is_ok r (h ∷ w.answered) w.answered;
    }

module _ (crypto : Crypto) (payload_hash : SubmitInput → String) where
  unfoldable pub move : Move → World → World
  unfolding land
  move (authorizing input quote bond now) w =
      let (r, db') = authorize crypto payload_hash input quote bond now w.db in
      record w { db = db'; flights = is_ok r (input.quote_hash ∷ w.flights) w.flights }
  move (settling h outcome now) w = if any (for_quote h) w.flights then land h outcome now w else w
  move (quoting q) w = record w { db = kept w.db (upsert_paid_quote q w.db) }

  unfoldable pub schedule : List Move → World → World
  unfolding move
  schedule [] w = w
  schedule (m ∷ ms) w = schedule ms (move m w)

abbrev has_status : (QuoteStatus → Bool) → Option QuoteRow → Bool
has_status test o = passes (λ row. test row.status) o

is_consumed : QuoteStatus → Bool
is_consumed consumed = true
is_consumed _ = false

-- A quote in flight is being consumed, and a quote that was answered is consumed.
status_fits : ℕ → ℕ → Option QuoteRow → Bool
unfolding is_consumed
status_fits open_flights won o =
    if leb 1 open_flights
    then has_status is_consuming o
    else if leb 1 won
    then has_status is_consumed o
    else true

abbrev pub in_flight : String → World → ℕ
in_flight h w = count (for_quote h) w.flights

-- How many requests for the quote were answered with an action.
abbrev pub answers : String → World → ℕ
answers h w = count (for_quote h) w.answered

-- Of one quote at most one request is in flight or was answered, and the status says which.
pub record IsSafe (h : String) (w : World) : Type 0 where
  single : in_flight h w + answers h w ≤ 1
  fits : status_fits (in_flight h w) (answers h w) (lookup h w.db.paid_quotes) ≡ true

quoting-IsSafe :
    (h : String) (q : PaidQuoteRecord) (w : World)
    → IsSafe h w
    → IsSafe h (record w { db = kept w.db (upsert_paid_quote q w.db) })
unfolding upsert_paid_quote status_fits
quoting-IsSafe h q w s =
    ground (arith, lookup-upsert q.quote_hash h (merge_quote q) w.db.paid_quotes)

module _ (crypto : Crypto) (payload_hash : SubmitInput → String) where
  authorizing-IsSafe :
      (h : String) (input : SubmitInput) (quote : PaidQuoteRecord) (bond : String) (now : ℕ)
      (w : World)
      → IsSafe h w
      → IsSafe h (move crypto payload_hash (authorizing input quote bond now) w)
  unfolding move authorize use_submit_authorization_nonce reserve_paid_quote status_fits
  authorizing-IsSafe h input quote bond now w s = ground (
    arith,
    lookup-update input.quote_hash h (reserve_row (payload_hash input)) w.db.paid_quotes,
    eq_iff input.quote_hash h,
  )

settle_other :
    (h k : String) (outcome : Option ℕ) (now : ℕ) (db : Database)
    → (k == h) ≡ false
    → lookup h (settle k outcome now db).1.paid_quotes ≡ lookup h db.paid_quotes
unfolding settle release_paid_quote consume_paid_quote
settle_other h k none now db ne = ground (arith, lookup-update k h release_row db.paid_quotes)
settle_other h k (some a) now db ne = ground (
  arith,
  lookup-update k h release_row db.paid_quotes,
  lookup-update k h (consume_row a now) db.paid_quotes,
)

-- A settled flight leaves its quote consumed if it was answered.
settle_same :
    (h : String) (outcome : Option ℕ) (now : ℕ) (db : Database)
    → has_status is_consuming (lookup h db.paid_quotes) ≡ true
    → (is_ok
        (settle h outcome now db).0
        (has_status is_consumed (lookup h (settle h outcome now db).1.paid_quotes))
        true)
      ≡ true
unfolding settle release_paid_quote consume_paid_quote is_consumed
settle_same h none now db c = refl
settle_same h (some a) now db c = ground (
  arith,
  lookup-update h h release_row db.paid_quotes,
  lookup-update h h (consume_row a now) db.paid_quotes,
  eq_iff h h,
)

for_quote_ne : (h k : String) (f : String) → (k == h) ≡ false → (f == k) ≡ true → (f == h) ≡ false
for_quote_ne h k f ne e = ground (arith, eq_iff k h, eq_iff f k, eq_iff f h)

land-IsSafe_same :
    (h : String) (outcome : Option ℕ) (now : ℕ) (w : World)
    → any (for_quote h) w.flights ≡ true
    → IsSafe h w
    → IsSafe h (land h outcome now w)
unfolding land status_fits
land-IsSafe_same h outcome now w flying s =
    ground (
      arith,
      count-remove_first (for_quote h) w.flights,
      settle_same h outcome now w.db,
      eq_iff h h,
    )

land-IsSafe_other :
    (h k : String) (outcome : Option ℕ) (now : ℕ) (w : World)
    → (k == h) ≡ false
    → IsSafe h w
    → IsSafe h (land k outcome now w)
unfolding land
land-IsSafe_other h k outcome now w ne s = ground (
  arith,
  settle_other h k outcome now w.db ne,
  count-remove_first_ne (for_quote h) (for_quote k) w.flights (λ f. for_quote_ne h k f ne),
)

settling-IsSafe :
    (h k : String) (outcome : Option ℕ) (now : ℕ) (w : World)
    → any (for_quote k) w.flights ≡ true
    → IsSafe h w
    → IsSafe h (land k outcome now w)
settling-IsSafe h k outcome now w flying s = elim (Bool-cases (k == h)) [
  | inl same ↦
      let e : k ≡ h = (eq_iff k h).0 same in
      rw e (land-IsSafe_same h outcome now w (rw e at flying) s)
  | inr other ↦ land-IsSafe_other h k outcome now w other s
]

-- No request has run yet.
abbrev pub start : Database → World
start db = record { db = db; flights = []; answered = [] }

module _ (crypto : Crypto) (payload_hash : SubmitInput → String) where
  move-IsSafe :
      (h : String) (m : Move) (w : World) → IsSafe h w → IsSafe h (move crypto payload_hash m w)
  move-IsSafe h (authorizing input quote bond now) w s =
      authorizing-IsSafe crypto payload_hash h input quote bond now w s
  move-IsSafe h (settling k outcome now) w s = elim (Bool-cases (any (for_quote k) w.flights)) [
    | inl flying ↦ unfold move in rw flying (settling-IsSafe h k outcome now w flying s)
    | inr absent ↦ unfold move in rw absent s
  ]
  move-IsSafe h (quoting q) w s = unfold move in quoting-IsSafe h q w s

  schedule-IsSafe :
      (h : String) (ms : List Move) (w : World)
      → IsSafe h w
      → IsSafe h (schedule crypto payload_hash ms w)
  unfolding schedule
  schedule-IsSafe h [] w s = s
  schedule-IsSafe h (m ∷ ms) w s =
      schedule-IsSafe h ms (move crypto payload_hash m w) (move-IsSafe h m w s)

  -- However the parts of any number of requests and quotes interleave, of one paid quote at most
  -- one request is in flight or was answered with an action. A request that was answered with an
  -- error gives the quote back and is not counted, whatever its submission did on the chain.
  pub schedule-answers :
      (h : String) (ms : List Move) (db : Database)
      → in_flight h (schedule crypto payload_hash ms (start db))
          + answers h (schedule crypto payload_hash ms (start db))
        ≤ 1
  schedule-answers h ms db =
      (schedule-IsSafe h ms (start db)
        (record { single = omega arith; fits = unfold status_fits in refl })).single
