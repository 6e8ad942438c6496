-- ===== src/Repository/Quotes/Examples.antt =====
-- A paid quote, and what the statements do to it.
use bondsman.Common.{false, none, some, List, [], ◌∷◌, ◌≡◌, refl, string_eq, arith, eq_iff}
use bondsman.Common.Table.{lookup, update}
use bondsman.Policy.{delivery_contradiction}
use bondsman.Repository.Records.{PaidQuoteRecord, paid, consumed}
use bondsman.Repository.Tables.{Database, empty_database, done}
use bondsman.Repository.Quotes.{paid_quote, quote_row, reserve_paid_quote, consume_paid_quote}
use bondsman.Repository.Quotes.Lifecycle.{
  QuoteOp, upserting, reserving, releasing, consuming_by, run_ops, IsSpent, run_ops-IsSpent,
  reserve-reserve_fails,
}
use bondsman.Repository.Quotes.Nonces.{Attempt}

abbrev pub quote : PaidQuoteRecord
quote = record {
  quote_hash = "0xaa";
  fault_class = delivery_contradiction;
  verifier = "delivery-contradiction-v2";
  amount = "50000000000000";
  required_bond = "2600000000000";
  challenge_window = 1800;
  quote_expiry = 900_000;
  payer = some "00ab";
  settlement_tx = "tx1";
  payment_amount = "100000000";
  facilitator = "x402-facilitator.cspr.cloud";
  status = paid;
  submit_payload_hash = none;
  consumed_action_id = none;
  created_at = 0;
  consumed_at = none;
  policy_snapshot = none;
}

abbrev pub quoted : Database
quoted = record empty_database { paid_quotes = ("0xaa", quote_row quote) ∷ [] }

abbrev spent : Database
spent = record empty_database {
  paid_quotes =
      (
        "0xaa",
        record (quote_row quote) {
          status = consumed;
          submit_payload_hash = some "0x1";
          consumed_action_id = some 27;
          consumed_at = some 5;
        },
      )
      ∷ [];
}

reserve_then_consume :
    consume_paid_quote "0xaa" 27 5 (reserve_paid_quote "0xaa" "0x1" quoted).1 ≡ done spent
unfolding consume_paid_quote reserve_paid_quote lookup update
reserve_then_consume = refl

abbrev later : List QuoteOp
later = upserting quote ∷ releasing "0xaa" ∷ reserving "0xaa" "0x2" ∷ consuming_by "0xaa" 28 9 ∷ []

run_ops-IsSpent_example : IsSpent "0xaa" 27 (run_ops later spent)
unfolding lookup paid_quote
run_ops-IsSpent_example = run_ops-IsSpent "0xaa" 27 later spent (_, refl, refl, refl)

abbrev others : List QuoteOp
others = upserting quote ∷ releasing "0xbb" ∷ []

reserve-reserve_fails_example :
    (reserve_paid_quote "0xaa" "0x2" (run_ops others (reserve_paid_quote "0xaa" "0x1" quoted).1)).0
    ≡ false
unfolding reserve_paid_quote lookup
reserve-reserve_fails_example =
    reserve-reserve_fails "0xaa" "0x1" "0x2" others quoted refl
      (tt, (ground (arith, eq_iff "0xbb" "0xaa"), tt))

abbrev first_attempt : Attempt
first_attempt = record { nonce_hash = "0x9"; payer = "00ab"; quote_hash = "0xaa"; at = 3 }
