-- ===== src/Quoting/Examples.antt =====
-- A quote for a delivery, and a request that comes for it.
use bondsman.Common.{String, true, none, some, [], ◌∷◌, ◌≡◌, refl, ◌⊎◌, arith}
use bondsman.Common.Int.{negsuc}
use bondsman.Common.Decimal.{big_int, to_text, positive_big_int}
use bondsman.Common.Table.{lookup, upsert}
use bondsman.Policy.{
  delivery_contradiction, delivery_contradiction_v2, standard, BondPolicyResult, policy_for,
  price_bond,
}
use bondsman.Repository.Records.{PaidQuoteRecord, goods_not_received, paid}
use bondsman.Repository.Tables.{Database, empty_database, done}
use bondsman.Repository.Projection.{set_reputation, reputation}
use bondsman.Repository.Quotes.{paid_quote, reserve_paid_quote, upsert_paid_quote, quote_row}
use bondsman.Submit.{SubmitInput, ok, admit}
use bondsman.Quoting.{Receipt, Outside, quoted, quote_record, quote_response}
use bondsman.Quoting.Route
use bondsman.Quoting.Route.{
  PaymentHeader, payment, Settlement, invalid_quote_amount, invalid_fault_class, quote_amount,
  post_quote,
}
use bondsman.Quoting.Paid.{post_quote-stores}
use bondsman.Quoting.Issued.{quote_response-admitted}

abbrev outside : Outside
outside = record { quote_hash = λ _ _ _ transaction _. transaction; iso_text = λ _. "now" }

abbrev receipt : Receipt
receipt = record {
  amount = "100000000";
  transaction = "tx-1";
  payer = some "00aa";
  facilitator = "facilitator";
}

abbrev policy : BondPolicyResult
policy = record {
  price = record { risk_tier = standard; estimated_minimum_bond = "220"; bond_basis_points = 220 };
  fault_class = delivery_contradiction;
  verifier = delivery_contradiction_v2;
  estimated_bond = "220";
  challenge_window_seconds = 1_800;
  executable_now = true;
}

abbrev issued : PaidQuoteRecord
issued =
    quote_record outside "agent" "10000" delivery_contradiction (negsuc 19) policy 220 receipt 1_000

abbrev after : Database
after = record empty_database { paid_quotes = ("tx-1", quote_row issued) ∷ [] }

run :
    quote_response outside "agent" (some "10000") none receipt 1_000 empty_database
    ≡ quoted issued after
unfolding quote_response reputation policy_for price_bond big_int to_text positive_big_int
    upsert_paid_quote lookup upsert
run = refl

-- The reputation fell by 50 since.
abbrev slashed_since : Database
slashed_since = set_reputation "agent" 0 1 (negsuc 69) after

abbrev request : SubmitInput
request = record {
  quote_hash = "tx-1";
  fault_class = delivery_contradiction;
  buyer_public_key = some "key";
  event_type = goods_not_received;
  submit_authorization = record {
    public_key = "p";
    signature = "s";
    timestamp = 2_000;
    nonce = "n";
  };
}

quote_response-admitted_example :
    (paid_quote "tx-1" after ≡ some issued)
    × (issued.status ≡ paid)
    × (issued.consumed_action_id ≡ none)
    × (issued.submit_payload_hash ≡ none)
    × ((payload_hash : String) → (reserve_paid_quote "tx-1" payload_hash after).0 ≡ true)
    × (admit request 2_000 after ≡ ok issued)
unfolding quote_record lookup
quote_response-admitted_example =
    quote_response-admitted outside "agent" (some "10000") none receipt 1_000 2_000 empty_database
      after issued request run refl refl refl refl refl (omega arith)

abbrev settlement : Settlement
settlement = record { success = true; transaction = some "tx-1"; payer = some "00aa" }

post_quote-stores_example :
    let answer =
      post_quote outside "agent" "1" "f" payment (some settlement) none 9 empty_database in
    (answer.1 ≡ empty_database)
    ⊎ ((quote : PaidQuoteRecord) × (s : Settlement) × ((answer.0 ≡ Route.issued quote)
          × (payment ≡ payment)
          × (some settlement ≡ some s)
          × (s.success ≡ true)
          × (s.transaction ≡ some quote.settlement_tx)
          × (upsert_paid_quote quote empty_database ≡ done answer.1)))
post_quote-stores_example =
    post_quote-stores outside "agent" "1" "f" payment (some settlement) none 9 empty_database
