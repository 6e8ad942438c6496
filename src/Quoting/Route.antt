-- ===== src/Quoting/Route.antt =====
-- `POST /v1/actions/quote` of `backend/src/api/routes.ts`, with `quoteAmount` and `quoteFaultClass`. The
-- facilitator's answer to the payment is an argument; a `none` of it stands for a throw.
use bondsman.Common.{ℕ, String, Bool, Option, none, some, ◌==◌, string_eq, if◌then◌else◌}
use bondsman.Common.Json
use bondsman.Common.Json.{Json, Fields, str}
use bondsman.Common.Decimal.{positive_big_int}
use bondsman.Policy.{FaultClass, duplicate_claim, delivery_contradiction}
use bondsman.Repository.Records.{PaidQuoteRecord}
use bondsman.Repository.Tables.{Database}
use bondsman.Quoting.{Receipt, Outside, quoted, rejected, quote_response}

-- What a guard makes of a field of the body.
pub data Guarded (A : Type 0) : Type 0 where
  absent refused : Guarded A
  given : A → Guarded A

abbrev pub field_of : String → Option Fields → Option Json
field_of key none = none
field_of key (some body) = Json.get key body

unfoldable pub quote_amount : Option Json → Guarded String
quote_amount none = absent
quote_amount (some (str text)) = elim (positive_big_int text) [
  | none ↦ refused
  | some _ ↦ given text
]
quote_amount (some _) = refused

unfoldable pub quote_fault_class : Option Json → Guarded FaultClass
quote_fault_class none = absent
quote_fault_class (some (str text)) =
    if text == "duplicate_claim"
    then given duplicate_claim
    else if text == "delivery_contradiction"
    then given delivery_contradiction
    else refused
quote_fault_class (some _) = refused

-- The answer of the facilitator, with the transaction only if it is not empty.
pub record Settlement : Type 0 where
  pub success : Bool
  pub transaction : Option String
  pub payer : Option String

-- The header, as far as the handler asks: absent, not readable, or a payment.
pub data PaymentHeader : Type 0 where
  no_header bad_header payment : PaymentHeader

pub data QuoteReply : Type 0 where
  payment_required payment_invalid settlement_failed : QuoteReply
  invalid_quote_amount invalid_fault_class internal_error : QuoteReply
  issued : PaidQuoteRecord → QuoteReply

abbrev option_of : Guarded String → Option String
option_of (given text) = some text
option_of _ = none

abbrev class_of : Guarded FaultClass → Option FaultClass
class_of (given fault) = some fault
class_of _ = none

module _ (outside : Outside) (agent price facilitator : String) where
  unfoldable pub issue_quote :
      Option String
      → Option FaultClass
      → String
      → Option String
      → ℕ
      → Database
      → QuoteReply × Database
  issue_quote amount fault transaction payer now db =
      let receipt : Receipt = record {
        amount = price;
        transaction = transaction;
        payer = payer;
        facilitator = facilitator;
      } in
      elim (quote_response outside agent amount fault receipt now db) [
        | quoted quote db' ↦ (issued quote, db')
        | rejected ↦ (internal_error, db)
      ]

  -- After the settlement.
  unfoldable pub answer_paid :
      Guarded String
      → Guarded FaultClass
      → String
      → Option String
      → ℕ
      → Database
      → QuoteReply × Database
  unfolding issue_quote
  answer_paid refused fault transaction payer now db = (invalid_quote_amount, db)
  answer_paid absent refused transaction payer now db = (invalid_fault_class, db)
  answer_paid (given _) refused transaction payer now db = (invalid_fault_class, db)
  answer_paid amount fault transaction payer now db =
      issue_quote (option_of amount) (class_of fault) transaction payer now db

  unfoldable pub settled : Settlement → Option Fields → ℕ → Database → QuoteReply × Database
  unfolding answer_paid quote_amount quote_fault_class
  settled settlement body now db =
      if settlement.success
      then elim settlement.transaction [
        | none ↦ (settlement_failed, db)
        | some transaction ↦
            answer_paid (quote_amount (field_of "amount" body))
              (quote_fault_class (field_of "faultClass" body)) transaction settlement.payer now db
      ]
      else (settlement_failed, db)

  unfoldable pub post_quote :
      PaymentHeader → Option Settlement → Option Fields → ℕ → Database → QuoteReply × Database
  unfolding settled
  post_quote no_header settlement body now db = (payment_required, db)
  post_quote bad_header settlement body now db = (payment_invalid, db)
  post_quote payment none body now db = (internal_error, db)
  post_quote payment (some settlement) body now db = settled settlement body now db
