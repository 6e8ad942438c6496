-- ===== src/Repository/Quotes.antt =====
-- Paid quotes and the nonces of their submission: `upsertPaidQuote`, `paidQuote`,
-- `paidQuoteForAction`, `reservePaidQuote`, `releasePaidQuote`, `consumePaidQuote` and
-- `useSubmitAuthorizationNonce`, with the unique indexes of `paid_quotes`.
pub mod Lifecycle
pub mod Nonces
pub mod Examples
use bondsman.Common.{
  ℕ, String, Bool, true, false, not, ◌&&◌, ◌||◌, Option, none, some, ◌==◌, nat_eq, string_eq,
  or_else, is_none, if◌then◌else◌, any, find,
}
use mathlib.Core.Option
use bondsman.Common.Table.{Table, lookup, upsert, update}
use bondsman.Repository.Records.{PaidQuoteRecord, QuoteStatus, paid, consuming, consumed, failed}
use bondsman.Repository.Tables.{QuoteRow, NonceRow, Database, Sql, done, constraint_failed}

abbrev pub quote_from_row : String → QuoteRow → PaidQuoteRecord
quote_from_row quote_hash row = record {
  quote_hash = quote_hash;
  fault_class = row.fault_class;
  verifier = row.verifier;
  amount = row.amount;
  required_bond = row.required_bond;
  challenge_window = row.challenge_window;
  quote_expiry = row.quote_expiry;
  payer = row.payer;
  settlement_tx = row.settlement_tx;
  payment_amount = row.payment_amount;
  facilitator = row.facilitator;
  status = row.status;
  submit_payload_hash = row.submit_payload_hash;
  consumed_action_id = row.consumed_action_id;
  created_at = row.created_at;
  consumed_at = row.consumed_at;
  policy_snapshot = row.policy_snapshot_json;
}

-- The values of the INSERT.
abbrev pub quote_row : PaidQuoteRecord → QuoteRow
quote_row quote = record {
  fault_class = quote.fault_class;
  verifier = quote.verifier;
  amount = quote.amount;
  required_bond = quote.required_bond;
  challenge_window = quote.challenge_window;
  quote_expiry = quote.quote_expiry;
  payer = quote.payer;
  settlement_tx = quote.settlement_tx;
  payment_amount = quote.payment_amount;
  facilitator = quote.facilitator;
  status = quote.status;
  submit_payload_hash = quote.submit_payload_hash;
  consumed_action_id = quote.consumed_action_id;
  created_at = quote.created_at;
  consumed_at = quote.consumed_at;
  policy_snapshot_json = quote.policy_snapshot;
}

-- `ON CONFLICT(quote_hash) DO UPDATE SET`: the state of the row and its first snapshot stay.
abbrev pub merge_quote : PaidQuoteRecord → Option QuoteRow → QuoteRow
merge_quote quote none = quote_row quote
merge_quote quote (some old) = record (quote_row quote) {
  status = old.status;
  submit_payload_hash = old.submit_payload_hash;
  consumed_action_id = old.consumed_action_id;
  created_at = old.created_at;
  consumed_at = old.consumed_at;
  policy_snapshot_json = or_else old.policy_snapshot_json quote.policy_snapshot;
}

-- The two unique indexes: what another row holds.
abbrev pub settles : String → QuoteRow → Bool
settles tx row = row.settlement_tx == tx

abbrev pub is_consumed_by : Option ℕ → QuoteRow → Bool
is_consumed_by none row = false
is_consumed_by (some action_id) row = elim row.consumed_action_id [
  | none ↦ false
  | some a ↦ a == action_id
]

abbrev pub held_elsewhere : (QuoteRow → Bool) → String → Table String QuoteRow → Bool
held_elsewhere test quote_hash t = any (λ e. not (e.0 == quote_hash) && test e.1) t

abbrev pub find_consumed : Option QuoteRow → Option ℕ
find_consumed none = none
find_consumed (some row) = row.consumed_action_id

-- The action number that the row holds after the upsert.
abbrev consumed_after : PaidQuoteRecord → Option QuoteRow → Option ℕ
consumed_after quote old = (merge_quote quote old).consumed_action_id

unfoldable pub upsert_paid_quote : PaidQuoteRecord → Database → Sql Database
upsert_paid_quote quote db =
    if held_elsewhere (settles quote.settlement_tx) quote.quote_hash db.paid_quotes
      || held_elsewhere
          (is_consumed_by (consumed_after quote (lookup quote.quote_hash db.paid_quotes)))
          quote.quote_hash db.paid_quotes
    then constraint_failed
    else done
        (record db { paid_quotes = upsert quote.quote_hash (merge_quote quote) db.paid_quotes })

unfoldable pub paid_quote : String → Database → Option PaidQuoteRecord
paid_quote quote_hash db = Option.map (quote_from_row quote_hash) (lookup quote_hash db.paid_quotes)

unfoldable pub paid_quote_for_action : ℕ → Database → Option PaidQuoteRecord
paid_quote_for_action action_id db =
    Option.map (λ e. quote_from_row e.0 e.1)
      (find (λ (e : String × QuoteRow). is_consumed_by (some action_id) e.1) db.paid_quotes)

abbrev pub is_paid : QuoteStatus → Bool
is_paid paid = true
is_paid _ = false

abbrev pub is_consuming : QuoteStatus → Bool
is_consuming consuming = true
is_consuming _ = false

-- `WHERE ... status = 'paid' AND consumed_action_id IS NULL`
abbrev pub is_reservable : QuoteRow → Bool
is_reservable row = is_paid row.status && is_none row.consumed_action_id

abbrev pub reserve_row : String → QuoteRow → QuoteRow
reserve_row payload_hash row =
    if is_reservable row
    then record row { status = consuming; submit_payload_hash = some payload_hash }
    else row

abbrev pub passes : (QuoteRow → Bool) → Option QuoteRow → Bool
passes test none = false
passes test (some row) = test row

-- `result.changes === 1`
unfoldable pub reserve_paid_quote : String → String → Database → Bool × Database
reserve_paid_quote quote_hash payload_hash db = (
  passes is_reservable (lookup quote_hash db.paid_quotes),
  record db { paid_quotes = update quote_hash (reserve_row payload_hash) db.paid_quotes },
)

abbrev pub release_row : QuoteRow → QuoteRow
release_row row =
    if is_consuming row.status
    then record row { status = paid; submit_payload_hash = none }
    else row

unfoldable pub release_paid_quote : String → Database → Database
release_paid_quote quote_hash db = record db {
  paid_quotes = update quote_hash release_row db.paid_quotes;
}

abbrev pub consume_row : ℕ → ℕ → QuoteRow → QuoteRow
consume_row action_id now row =
    if is_consuming row.status
    then record row {
      status = consumed;
      consumed_action_id = some action_id;
      consumed_at = some now;
    }
    else row

-- The index on the action number is only looked at where the row is written.
unfoldable pub consume_paid_quote : String → ℕ → ℕ → Database → Sql Database
consume_paid_quote quote_hash action_id now db =
    if passes (λ row. is_consuming row.status) (lookup quote_hash db.paid_quotes)
      && held_elsewhere (is_consumed_by (some action_id)) quote_hash db.paid_quotes
    then constraint_failed
    else done
        (record db { paid_quotes = update quote_hash (consume_row action_id now) db.paid_quotes })

-- `INSERT` into the table of nonces: `false` where the primary key is taken.
unfoldable pub use_submit_authorization_nonce :
    String → String → String → ℕ → Database → Bool × Database
use_submit_authorization_nonce nonce_hash payer quote_hash now db =
    elim (lookup nonce_hash db.submit_authorization_nonces) [
      | some _ ↦ (false, db)
      | none ↦ (
        true,
        record db {
          submit_authorization_nonces =
              upsert nonce_hash
                (λ _. record { payer = payer; quote_hash = quote_hash; created_at = now })
                db.submit_authorization_nonces;
        },
      )
    ]
