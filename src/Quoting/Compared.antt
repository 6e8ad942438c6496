-- ===== src/Quoting/Compared.antt =====
-- The steps of the proofs on an issued quote that need no section: what is stored, and how prices compare.
use bondsman.Common.{
  true, ℕ, ◌≤◌, ◌<◌, String, false, Option, none, some, ◌≡◌, refl, sym, ◌∙◌, string_eq, same_refl,
  arith, Option-cases, inl, inr,
}
use bondsman.Common.Int.{ℤ, ◌≤ℤ◌}
use bondsman.Common.Decimal.{big_int, to_text, big_int-to_text}
use bondsman.Common.Table.{lookup, lookup-upsert}
use bondsman.Policy.{
  FaultClass, BondPolicyResult, BondPriceResult, policy_for, price_bond, reputation_or_default,
}
use bondsman.Policy.Pricing.{price_bond_mono, price_bond-rate, price_bond-text, policy_for-price}
use bondsman.Repository.Records.{PaidQuoteRecord, paid}
use bondsman.Repository.Tables.{Database, Sql, done, constraint_failed}
use bondsman.Repository.Quotes.{reserve_paid_quote, paid_quote, upsert_paid_quote, merge_quote}
use bondsman.Submit.{SubmitInput, ok, is_blank, admit}
use bondsman.Quoting.{quoted, reputation_score, projected_bond_policy, store_quote}

pub stored_parts :
    (made q : PaidQuoteRecord) (db after : Database)
    → store_quote made db ≡ quoted q after
    → (q ≡ made) × (upsert_paid_quote q db ≡ done after)
unfolding store_quote
stored_parts made q db after h = elim_sql (upsert_paid_quote made db) refl
  where
    elim_sql :
        (r : Sql Database)
        → upsert_paid_quote made db ≡ r
        → (q ≡ made) × (upsert_paid_quote q db ≡ done after)
    elim_sql (done db') e =
        let same : q ≡ made = ground (arith, e) in
        let stored : upsert_paid_quote made db ≡ done after = ground (arith, e) in
        (same, rw same stored)
    elim_sql constraint_failed e = absurd (ground (arith, e))

-- The quoted bond in decimal text is the text of its number.
pub bond_text :
    (amount : String) (fault : FaultClass) (score : Option ℤ) (policy : BondPolicyResult) (bond : ℕ)
    → policy_for amount fault score ≡ some policy
    → big_int policy.estimated_bond ≡ some bond
    → policy.price.estimated_minimum_bond ≡ to_text bond
bond_text amount fault score policy bond p b =
    let (priced, same) = policy_for-price amount fault score policy p in
    let (n, text) = price_bond-text amount score policy.price priced in
    let reads : some n ≡ some bond = sym (big_int-to_text n) ∙ rw (same, text) at b in
    let is : n ≡ bond = cc in rw (← is) text

-- A later price of the same amount for a reputation that is not better covers the bond.
pub covers :
    (amount : String) (better worse : Option ℤ) (p q : BondPriceResult) (bond current : ℕ)
    → price_bond amount better ≡ some p
    → price_bond amount worse ≡ some q
    → reputation_or_default worse ≤ℤ reputation_or_default better
    → big_int p.estimated_minimum_bond ≡ some bond
    → big_int q.estimated_minimum_bond ≡ some current
    → bond ≤ current
covers amount better worse p q bond current hp hq rep x y =
    let rate = price_bond-rate amount better p hp in
    price_bond_mono amount amount worse better p q rate.0 rate.0 bond current hp hq rate.1 rate.1
      (omega arith) rep x y

-- The projected policy is a price of the amount.
pub projected_parts :
    (agent : String) (later : Database) (amount : String) (fault : FaultClass) (current : String)
    → projected_bond_policy agent later amount fault ≡ some current
    → (policy : BondPolicyResult) × (policy_for amount fault (reputation_score agent later)
        ≡ some policy)
      × (current ≡ policy.price.estimated_minimum_bond)
unfolding projected_bond_policy
projected_parts agent later amount fault current h =
    elim (Option-cases (policy_for amount fault (reputation_score agent later))) [
      | inl none_made ↦ absurd (ground arith)
      | inr (policy, e) ↦ (policy, e, ground arith)
    ]

-- A quote under a new hash is read back whole.
pub stored_new :
    (q : PaidQuoteRecord) (db after : Database)
    → upsert_paid_quote q db ≡ done after
    → lookup q.quote_hash db.paid_quotes ≡ none
    → paid_quote q.quote_hash after ≡ some q
unfolding upsert_paid_quote paid_quote
stored_new q db after h new = ground (
  arith,
  same_refl q.quote_hash,
  lookup-upsert q.quote_hash q.quote_hash (merge_quote q) db.paid_quotes,
)

pub admitted :
    (q : PaidQuoteRecord) (after : Database) (input : SubmitInput) (later : ℕ)
    → paid_quote q.quote_hash after ≡ some q
    → input.quote_hash ≡ q.quote_hash
    → input.fault_class ≡ q.fault_class
    → q.status ≡ paid
    → is_blank input.buyer_public_key ≡ false
    → is_blank q.payer ≡ false
    → later < q.quote_expiry
    → admit input later after ≡ ok q
unfolding admit
admitted q after input later h same_hash same_fault status key payer soon =
    let found : paid_quote input.quote_hash after ≡ some q = rw same_hash h in ground (arith, found)

pub reservable :
    (q : PaidQuoteRecord) (after : Database) (payload_hash : String)
    → paid_quote q.quote_hash after ≡ some q
    → q.status ≡ paid
    → q.consumed_action_id ≡ none
    → (reserve_paid_quote q.quote_hash payload_hash after).0 ≡ true
unfolding reserve_paid_quote paid_quote
reservable q after payload_hash found status unused = ground arith
