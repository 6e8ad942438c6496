-- ===== src/Quoting/Paid.antt =====
-- What a payment for a quote leads to, in `POST /v1/actions/quote` of `backend/src/api/routes.ts`.
use bondsman.Common.{
  ℕ, String, true, false, Option, none, some, ◌≡◌, refl, ◌∙◌, ◌⊎◌, inl, inr, arith, Bool-cases,
  Option-cases,
}
use bondsman.Common.Json.{Fields}
use bondsman.Policy.{FaultClass}
use bondsman.Repository.Records.{PaidQuoteRecord}
use bondsman.Repository.Tables.{Database}
use bondsman.Repository.Quotes.{upsert_paid_quote}
use bondsman.Repository.Tables.{done}
use bondsman.Quoting.{Outside, Receipt, Quoted, quoted, rejected, quote_response}
use bondsman.Quoting.Issued.{issued-stored}
use bondsman.Quoting.Route.{
  Guarded, absent, refused, given, PaymentHeader, no_header, bad_header, payment, Settlement,
  QuoteReply, issued, field_of, quote_amount, quote_fault_class, answer_paid, issue_quote, settled,
  post_quote,
}

module _ (outside : Outside) (agent price facilitator : String) where
  -- A reply that left the database alone, or a quote for this transaction that was stored.
  abbrev IsPaid : Option String → QuoteReply × Database → Database → Type 0
  IsPaid transaction answer db =
      (answer.1 ≡ db)
      ⊎ ((quote : PaidQuoteRecord) × ((answer.0 ≡ issued quote)
            × (transaction ≡ some quote.settlement_tx)
            × (upsert_paid_quote quote db ≡ done answer.1)))

  issue_quote-IsPaid :
      (amount : Option String) (fault : Option FaultClass) (transaction : String)
      (payer : Option String) (now : ℕ) (db : Database)
      → IsPaid
          (some transaction)
          (issue_quote outside agent price facilitator amount fault transaction payer now db)
          db
  unfolding issue_quote
  issue_quote-IsPaid amount fault transaction payer now db =
      cases (quote_response outside agent amount fault receipt now db) refl
    where
      receipt : Receipt
      receipt = record {
        amount = price;
        transaction = transaction;
        payer = payer;
        facilitator = facilitator;
      }

      cases :
          (r : Quoted)
          → quote_response outside agent amount fault receipt now db ≡ r
          → IsPaid
              (some transaction)
              (issue_quote outside agent price facilitator amount fault transaction payer now db)
              db
      cases rejected h = inl (ground (arith, h))
      cases (quoted quote after) h =
          let (same, stored) =
            issued-stored outside agent amount fault receipt now db after quote h in
          inr (quote, (ground (arith, h), rw same refl, ground (arith, h, stored)))

  answer_paid-IsPaid :
      (amount : Guarded String) (fault : Guarded FaultClass) (transaction : String)
      (payer : Option String) (now : ℕ) (db : Database)
      → IsPaid
          (some transaction)
          (answer_paid outside agent price facilitator amount fault transaction payer now db)
          db
  unfolding answer_paid
  answer_paid-IsPaid refused fault transaction payer now db = inl refl
  answer_paid-IsPaid absent refused transaction payer now db = inl refl
  answer_paid-IsPaid (given a) refused transaction payer now db = inl refl
  answer_paid-IsPaid absent absent t p now db = issue_quote-IsPaid none none t p now db
  answer_paid-IsPaid absent (given f) t p now db = issue_quote-IsPaid none (some f) t p now db
  answer_paid-IsPaid (given a) absent t p now db = issue_quote-IsPaid (some a) none t p now db
  answer_paid-IsPaid (given a) (given f) t p now db =
      issue_quote-IsPaid (some a) (some f) t p now db

  -- Whatever the request carries, the database is left as it was, or the reply is a quote that the
  -- repository stored, for a payment that was in the header and that the facilitator settled with
  -- the transaction which the quote names.
  pub post_quote-stores :
      (header : PaymentHeader) (settlement : Option Settlement) (body : Option Fields) (now : ℕ)
      (db : Database)
      → let answer = post_quote outside agent price facilitator header settlement body now db in
        (answer.1 ≡ db)
        ⊎ ((quote : PaidQuoteRecord) × (s : Settlement) × ((answer.0 ≡ issued quote)
              × (header ≡ payment)
              × (settlement ≡ some s)
              × (s.success ≡ true)
              × (s.transaction ≡ some quote.settlement_tx)
              × (upsert_paid_quote quote db ≡ done answer.1)))
  unfolding post_quote settled
  post_quote-stores no_header settlement body now db = inl refl
  post_quote-stores bad_header settlement body now db = inl refl
  post_quote-stores payment none body now db = inl refl
  post_quote-stores payment (some s) body now db =
      cases (Bool-cases s.success) (Option-cases s.transaction)
    where
      answer : QuoteReply × Database
      answer = post_quote outside agent price facilitator payment (some s) body now db

      cases :
          ((s.success ≡ true) ⊎ (s.success ≡ false))
          → ((s.transaction ≡ none) ⊎ ((t : String) × (s.transaction ≡ some t)))
          → (answer.1 ≡ db)
            ⊎ ((quote : PaidQuoteRecord) × (q : Settlement) × ((answer.0 ≡ issued quote)
                  × (payment ≡ payment)
                  × (some s ≡ some q)
                  × (q.success ≡ true)
                  × (q.transaction ≡ some quote.settlement_tx)
                  × (upsert_paid_quote quote db ≡ done answer.1)))
      cases (inr failed) _ = inl (rw failed refl)
      cases (inl done_well) (inl bare) = inl (rw (done_well, bare) refl)
      cases (inl done_well) (inr (t, is)) =
          elim (answer_paid-IsPaid (quote_amount (field_of "amount" body))
            (quote_fault_class (field_of "faultClass" body)) t s.payer now db) [
              | inl same ↦ inl (rw (done_well, is) same)
              | inr (quote, (replied, same, stored)) ↦ inr (
                quote,
                s,
                (
                  rw (done_well, is) replied,
                  refl,
                  refl,
                  done_well,
                  is ∙ same,
                  rw (done_well, is) stored,
                ),
              )
            ]
