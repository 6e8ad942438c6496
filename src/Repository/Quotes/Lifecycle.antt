-- ===== src/Repository/Quotes/Lifecycle.antt =====
-- The life of a paid quote under any sequence of the repository's statements: paid, consuming,
-- consumed, and back to paid only by a release.
use mathlib.Core.Option
use bondsman.Common.{
  ℕ, String, Bool, true, false, not, Option, none, some, List, [], ◌∷◌, ◌==◌, nat_eq, string_eq,
  ◌≡◌, ◌≢◌, ◌⊎◌, refl, if◌then◌else◌, arith, eq_iff, All, inl, inr,
}
use bondsman.Common.Table.{lookup, update, lookup-upsert, lookup-update}
use bondsman.Repository.Records.{PaidQuoteRecord, consumed}
use bondsman.Repository.Tables.{QuoteRow, Database, Sql, done, constraint_failed}
use bondsman.Repository.Quotes.{
  paid_quote, quote_from_row, upsert_paid_quote, merge_quote, reserve_paid_quote, reserve_row,
  release_paid_quote, release_row, consume_paid_quote, consume_row, is_consumed_by, is_paid, passes,
}

-- The statements that write the table.
pub data QuoteOp : Type 0 where
  upserting : PaidQuoteRecord → QuoteOp
  reserving : String → String → QuoteOp
  releasing : String → QuoteOp
  consuming_by : String → ℕ → ℕ → QuoteOp

-- A statement that throws leaves the tables as they were.
abbrev pub kept : Database → Sql Database → Database
kept db (done db') = db'
kept db constraint_failed = db

unfoldable pub run_op : QuoteOp → Database → Database
run_op (upserting q) db = kept db (upsert_paid_quote q db)
run_op (reserving h p) db = (reserve_paid_quote h p db).1
run_op (releasing h) db = release_paid_quote h db
run_op (consuming_by h a now) db = kept db (consume_paid_quote h a now db)

unfoldable pub run_ops : List QuoteOp → Database → Database
run_ops [] db = db
run_ops (op ∷ ops) db = run_ops ops (run_op op db)

-- What a statement does to the row of one quote.
effect : String → QuoteOp → Option QuoteRow → Option QuoteRow
effect h (upserting q) o = if q.quote_hash == h then some (merge_quote q o) else o
effect h (reserving j p) o = if j == h then Option.map (reserve_row p) o else o
effect h (releasing j) o = if j == h then Option.map release_row o else o
effect h (consuming_by j a now) o = if j == h then Option.map (consume_row a now) o else o

lookup-run_op :
    (h : String) (op : QuoteOp) (db : Database)
    → (lookup h (run_op op db).paid_quotes ≡ effect h op (lookup h db.paid_quotes))
      ⊎ (lookup h (run_op op db).paid_quotes ≡ lookup h db.paid_quotes)
unfolding run_op upsert_paid_quote reserve_paid_quote release_paid_quote consume_paid_quote effect
lookup-run_op h (upserting q) db =
    ground (arith, lookup-upsert q.quote_hash h (merge_quote q) db.paid_quotes)
lookup-run_op h (reserving j p) db = inl (lookup-update j h (reserve_row p) db.paid_quotes)
lookup-run_op h (releasing j) db = inl (lookup-update j h release_row db.paid_quotes)
lookup-run_op h (consuming_by j a now) db =
    ground (arith, lookup-update j h (consume_row a now) db.paid_quotes)

-- A test of rows that every effect keeps holds after any run.
run_ops-keeps :
    (h : String) (test : QuoteRow → Bool) (allowed : QuoteOp → Type 0)
    → ((op : QuoteOp) (row : QuoteRow)
        → allowed op
        → test row ≡ true
        → passes test (effect h op (some row)) ≡ true)
    → (ops : List QuoteOp) (db : Database) → All allowed ops
    → passes test (lookup h db.paid_quotes) ≡ true
    → passes test (lookup h (run_ops ops db).paid_quotes) ≡ true
unfolding run_ops
run_ops-keeps h test allowed keep [] db fine start = start
run_ops-keeps h test allowed keep (op ∷ ops) db fine start =
    run_ops-keeps h test allowed keep ops (run_op op db) fine.1
      (step (lookup h db.paid_quotes) refl (lookup-run_op h op db))
  where
    step :
        (o : Option QuoteRow)
        → lookup h db.paid_quotes ≡ o
        → (lookup h (run_op op db).paid_quotes ≡ effect h op (lookup h db.paid_quotes))
          ⊎ (lookup h (run_op op db).paid_quotes ≡ lookup h db.paid_quotes)
        → passes test (lookup h (run_op op db).paid_quotes) ≡ true
    step none e r = cc (rw e at start)
    step (some row) e (inl r) = rw (r, e) (keep op row fine.0 (rw e at start))
    step (some row) e (inr r) = rw r start

All-any_op : (ops : List QuoteOp) → All (λ (_ : QuoteOp). Unit {0}) ops
All-any_op [] = tt
All-any_op (op ∷ ops) = (tt, All-any_op ops)

is_spent : ℕ → QuoteRow → Bool
is_spent a row = elim row.status [ consumed ↦ is_consumed_by (some a) row | _ ↦ false ]

effect-keeps_spent :
    (h : String) (a : ℕ) (op : QuoteOp) (row : QuoteRow)
    → Unit {0}
    → is_spent a row ≡ true
    → passes (is_spent a) (effect h op (some row)) ≡ true
unfolding effect is_spent
effect-keeps_spent h a (upserting q) row u s = ground arith
effect-keeps_spent h a (reserving j p) row u s = ground arith
effect-keeps_spent h a (releasing j) row u s = ground arith
effect-keeps_spent h a (consuming_by j b now) row u s = ground arith

-- The quote is there, and was consumed by the action.
abbrev pub IsSpent : String → ℕ → Database → Type 0
IsSpent h a db =
    (q : PaidQuoteRecord) × (paid_quote h db ≡ some q)
    × (q.status ≡ consumed)
    × (q.consumed_action_id ≡ some a)

spent_of :
    (h : String) (a : ℕ) (db : Database)
    → IsSpent h a db
    → passes (is_spent a) (lookup h db.paid_quotes) ≡ true
unfolding paid_quote is_spent
spent_of h a db (q, e, s, c) = ground arith

of_IsSpent :
    (h : String) (a : ℕ) (db : Database)
    → passes (is_spent a) (lookup h db.paid_quotes) ≡ true
    → IsSpent h a db
unfolding paid_quote is_spent
of_IsSpent h a db s = go (lookup h db.paid_quotes) refl s
  where
    go :
        (o : Option QuoteRow)
        → lookup h db.paid_quotes ≡ o
        → passes (is_spent a) o ≡ true
        → IsSpent h a db
    go none e s = cc
    go (some row) e s = (quote_from_row h row, rw e, ground arith, ground arith)

-- A quote that an action has consumed stays consumed by that action, whatever statements follow:
-- no upsert, reservation, release or second consumption reopens it.
pub run_ops-IsSpent :
    (h : String) (a : ℕ) (ops : List QuoteOp) (db : Database)
    → IsSpent h a db
    → IsSpent h a (run_ops ops db)
run_ops-IsSpent h a ops db spent = of_IsSpent h a (run_ops ops db) (
    run_ops-keeps h (is_spent a) (λ _. Unit {0}) (effect-keeps_spent h a) ops db (All-any_op ops)
      (spent_of h a db spent))

-- The statement is no release of the quote.
abbrev pub IsNotRelease : String → QuoteOp → Type 0
IsNotRelease h (releasing j) = j ≢ h
IsNotRelease h _ = Unit

is_held : QuoteRow → Bool
is_held row = not (is_paid row.status)

effect-keeps_held :
    (h : String) (op : QuoteOp) (row : QuoteRow)
    → IsNotRelease h op
    → is_held row ≡ true
    → passes is_held (effect h op (some row)) ≡ true
unfolding effect is_held
effect-keeps_held h (upserting q) row u s = ground arith
effect-keeps_held h (reserving j p) row u s = ground arith
effect-keeps_held h (releasing j) row u s = ground (arith, eq_iff j h)
effect-keeps_held h (consuming_by j b now) row u s = ground arith

reserved_held :
    (h p : String) (db : Database)
    → (reserve_paid_quote h p db).0 ≡ true
    → passes is_held (lookup h (reserve_paid_quote h p db).1.paid_quotes) ≡ true
unfolding reserve_paid_quote is_held
reserved_held h p db won =
    ground (arith, lookup-update h h (reserve_row p) db.paid_quotes, eq_iff h h)

held_fails :
    (h p : String) (db : Database)
    → passes is_held (lookup h db.paid_quotes) ≡ true
    → (reserve_paid_quote h p db).0 ≡ false
unfolding reserve_paid_quote is_held
held_fails h p db held = ground arith

-- A reservation that succeeded excludes every other one: until the quote is released, each later
-- reservation of it fails, whatever other statements come between.
pub reserve-reserve_fails :
    (h p p' : String) (ops : List QuoteOp) (db : Database)
    → (reserve_paid_quote h p db).0 ≡ true
    → All (IsNotRelease h) ops
    → (reserve_paid_quote h p' (run_ops ops (reserve_paid_quote h p db).1)).0 ≡ false
reserve-reserve_fails h p p' ops db won fine =
    held_fails h p' (run_ops ops (reserve_paid_quote h p db).1) (
      run_ops-keeps h is_held (IsNotRelease h) (effect-keeps_held h) ops
        (reserve_paid_quote h p db).1 fine (reserved_held h p db won))

-- A release gives the quote back as it was before the reservation, but for the payload hash.
pub release-reserve :
    (h p : String) (db : Database) (q : PaidQuoteRecord)
    → (reserve_paid_quote h p db).0 ≡ true
    → paid_quote h db ≡ some q
    → paid_quote h (release_paid_quote h (reserve_paid_quote h p db).1)
      ≡ some (record q { submit_payload_hash = none })
unfolding reserve_paid_quote release_paid_quote paid_quote
release-reserve h p db q won e = ground (
  arith,
  lookup-update h h (reserve_row p) db.paid_quotes,
  lookup-update h h release_row (update h (reserve_row p) db.paid_quotes),
  eq_iff h h,
)

consumed_spent :
    (h p : String) (a now : ℕ) (db db' : Database)
    → (reserve_paid_quote h p db).0 ≡ true
    → consume_paid_quote h a now (reserve_paid_quote h p db).1 ≡ done db'
    → passes (is_spent a) (lookup h db'.paid_quotes) ≡ true
unfolding reserve_paid_quote consume_paid_quote is_spent
consumed_spent h p a now db db' won e = ground (
  arith,
  lookup-update h h (reserve_row p) db.paid_quotes,
  lookup-update h h (consume_row a now) (update h (reserve_row p) db.paid_quotes),
  eq_iff h h,
)

-- A reserved quote that is consumed without a throw is spent by that action.
pub consume-reserve :
    (h p : String) (a now : ℕ) (db db' : Database)
    → (reserve_paid_quote h p db).0 ≡ true
    → consume_paid_quote h a now (reserve_paid_quote h p db).1 ≡ done db'
    → IsSpent h a db'
consume-reserve h p a now db db' won e = of_IsSpent h a db' (consumed_spent h p a now db db' won e)
