-- ===== src/Submit/Handler.antt =====
-- What each part of the handler promises.
use bondsman.Common.{ℕ, ◌<◌, String, none, some, ◌≡◌, ◌≢◌, arith, eq_iff, string_eq}
use bondsman.Common.Table.{lookup-update}
use bondsman.Policy.{delivery_contradiction}
use bondsman.Repository.Records.{PaidQuoteRecord, paid}
use bondsman.Repository.Tables.{Database}
use bondsman.Repository.Quotes.{
  paid_quote, reserve_paid_quote, reserve_row, use_submit_authorization_nonce,
}
use bondsman.Authorization.{Crypto}
use bondsman.Submit.{SubmitInput, ok, admit, authorize}

-- A request is admitted only for a quote that is there, is paid, has not expired, is for the same
-- class of fault and names a payer; and a delivery contradiction names the buyer's key.
pub admit_sound :
    (input : SubmitInput) (now : ℕ) (db : Database) (quote : PaidQuoteRecord)
    → admit input now db ≡ ok quote
    → (paid_quote input.quote_hash db ≡ some quote)
      × (quote.status ≡ paid)
      × (now < quote.quote_expiry)
      × (quote.fault_class ≡ input.fault_class)
      × (quote.payer ≢ none)
      × (input.fault_class ≡ delivery_contradiction → input.buyer_public_key ≢ none)
unfolding admit
admit_sound input now db quote h =
    (ground arith, ground arith, ground arith, ground arith, ground arith, ground arith)

module _ (crypto : Crypto) (payload_hash : SubmitInput → String) where
  -- A request that is not authorized leaves every quote as it was.
  pub authorize_err :
      (input : SubmitInput) (quote : PaidQuoteRecord) (bond : String) (now : ℕ) (db : Database)
      (h : String)
      → (authorize crypto payload_hash input quote bond now db).0 ≢ ok tt
      → paid_quote h (authorize crypto payload_hash input quote bond now db).1 ≡ paid_quote h db
  unfolding authorize use_submit_authorization_nonce reserve_paid_quote paid_quote
  authorize_err input quote bond now db h bad = ground (
    arith,
    lookup-update input.quote_hash h (reserve_row (payload_hash input)) db.paid_quotes,
    eq_iff input.quote_hash h,
  )
