-- ===== src/Quoting/Issued.antt =====
-- A quote that was issued can be used.
use bondsman.Common.{
  ℕ, ◌+◌, ◌<◌, String, true, false, Option, none, some, or_default, ◌≡◌, refl, string_eq, arith,
  Option-cases, inl, inr,
}
use bondsman.Common.Int.{negsuc}
use bondsman.Common.Decimal.{big_int, to_text}
use bondsman.Common.Table.{lookup}
use bondsman.Policy.{FaultClass, delivery_contradiction, BondPolicyResult, policy_for}
use bondsman.Repository.Records.{PaidQuoteRecord, paid}
use bondsman.Repository.Tables.{Database, done}
use bondsman.Repository.Quotes.{paid_quote, upsert_paid_quote, reserve_paid_quote}
use bondsman.Submit.{SubmitInput, ok, is_blank, admit}
use bondsman.Quoting.{
  Receipt, Outside, quoted, reputation_score, quote_record, quote_response, default_amount,
}
use bondsman.Quoting.Compared.{stored_parts, stored_new, admitted, reservable}

module _ (outside : Outside) (agent : String) where
  -- What a quote that was issued is made of.
  abbrev IsMadeFrom :
      Option FaultClass
      → Receipt
      → ℕ
      → Database
      → PaidQuoteRecord
      → Database
      → ℕ
      → BondPolicyResult
      → ℕ
      → Type 0
  IsMadeFrom fault_class receipt now db q after value policy bond =
      (policy_for (to_text value) (or_default fault_class delivery_contradiction)
          (some (or_default (reputation_score agent db) (negsuc 19)))
        ≡ some policy)
      × (big_int policy.estimated_bond ≡ some bond)
      × (q
          ≡ quote_record outside agent (to_text value)
              (or_default fault_class delivery_contradiction)
              (or_default (reputation_score agent db) (negsuc 19)) policy bond receipt now)
      × (upsert_paid_quote q db ≡ done after)

  issued_parts :
      (amount : Option String) (fault_class : Option FaultClass) (receipt : Receipt) (now : ℕ)
      (db after : Database) (q : PaidQuoteRecord)
      → quote_response outside agent amount fault_class receipt now db ≡ quoted q after
      → (value : ℕ) × (policy : BondPolicyResult) × (bond : ℕ) × IsMadeFrom fault_class receipt now
          db q after value policy bond
  unfolding quote_response
  issued_parts amount fault_class receipt now db after q h =
      elim (Option-cases (big_int (or_default amount default_amount))) [
        | inl bad ↦ absurd (ground arith)
        | inr (value, v) ↦
            elim (Option-cases (
              policy_for (to_text value) (or_default fault_class delivery_contradiction)
                (some (or_default (reputation_score agent db) (negsuc 19))))) [
                  | inl bad ↦ absurd (ground arith)
                  | inr (policy, p) ↦ elim (Option-cases (big_int policy.estimated_bond)) [
                    | inl bad ↦ absurd (ground arith)
                    | inr (bond, b) ↦
                        let made =
                          quote_record outside agent (to_text value)
                            (or_default fault_class delivery_contradiction)
                            (or_default (reputation_score agent db) (negsuc 19)) policy bond receipt
                            now in
                        let (same, stored) = stored_parts made q db after (ground arith) in
                        (value, policy, bond, (p, b, same, stored))
                  ]
                ]
      ]

  pub issued-stored :
      (amount : Option String) (fault_class : Option FaultClass) (receipt : Receipt) (now : ℕ)
      (db after : Database) (q : PaidQuoteRecord)
      → quote_response outside agent amount fault_class receipt now db ≡ quoted q after
      → (receipt.transaction ≡ q.settlement_tx) × (upsert_paid_quote q db ≡ done after)
  unfolding quote_record
  issued-stored amount fault_class receipt now db after q h =
      let (value, policy, bond, (p, b, made, stored)) =
        issued_parts amount fault_class receipt now db after q h in
      (rw made refl, stored)

  -- A quote that was issued under a hash that was not in the table is stored with the status paid,
  -- names no action, and can be reserved; and every request that is made for it in the next 15
  -- minutes is admitted: for its class of fault, with the buyer's key, and where the receipt named
  -- a payer.
  pub quote_response-admitted :
      (amount : Option String) (fault_class : Option FaultClass) (receipt : Receipt) (now later : ℕ)
      (db after : Database) (q : PaidQuoteRecord) (input : SubmitInput)
      → quote_response outside agent amount fault_class receipt now db ≡ quoted q after
      → lookup q.quote_hash db.paid_quotes ≡ none
      → input.quote_hash ≡ q.quote_hash
      → input.fault_class ≡ q.fault_class
      → is_blank input.buyer_public_key ≡ false
      → is_blank receipt.payer ≡ false
      → later < now + 900_000
      → (paid_quote q.quote_hash after ≡ some q)
        × (q.status ≡ paid)
        × (q.consumed_action_id ≡ none)
        × (q.submit_payload_hash ≡ none)
        × ((payload_hash : String) → (reserve_paid_quote q.quote_hash payload_hash after).0 ≡ true)
        × (admit input later after ≡ ok q)
  quote_response-admitted amount fault_class receipt now later db after q input h new same_hash
        same_fault key payer soon =
      let (value, policy, bond, (p, b, made, stored)) =
        issued_parts amount fault_class receipt now db after q h in
      let found = stored_new q db after stored new in
      let is_paid : q.status ≡ paid = unfold quote_record in rw made refl in
      let unused : q.consumed_action_id ≡ none = unfold quote_record in rw made refl in
      (
        found,
        is_paid,
        unused,
        unfold quote_record in rw made refl,
        λ payload_hash. reservable q after payload_hash found is_paid unused,
        admitted q after input later found same_hash same_fault is_paid key
            (unfold quote_record in rw made payer) (unfold quote_record in rw made soon),
      )
