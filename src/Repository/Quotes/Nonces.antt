-- ===== src/Repository/Quotes/Nonces.antt =====
-- A submit nonce is accepted once.
use bondsman.Common.{
  ℕ, String, Bool, not, ◌&&◌, List, [], ◌∷◌, ◌==◌, string_eq, ◌≡◌, arith, eq_iff, any, is_none,
}
use bondsman.Common.Table.{lookup, lookup-upsert}
use bondsman.Repository.Tables.{Database}
use bondsman.Repository.Quotes.{use_submit_authorization_nonce}

-- One attempt: the nonce hash, the payer, the quote and the time.
pub record Attempt : Type 0 where
  pub nonce_hash : String
  pub payer : String
  pub quote_hash : String
  pub at : ℕ

unfoldable pub attempt : Attempt → Database → Bool × Database
attempt a = use_submit_authorization_nonce a.nonce_hash a.payer a.quote_hash a.at

unfoldable pub attempts : List Attempt → Database → Database
unfolding attempt
attempts [] db = db
attempts (a ∷ rest) db = attempts rest (attempt a db).1

attempt-fresh :
    (a b : Attempt) (db : Database)
    → is_none (lookup b.nonce_hash (attempt a db).1.submit_authorization_nonces) ≡ (
        is_none (lookup b.nonce_hash db.submit_authorization_nonces)
        && not (a.nonce_hash == b.nonce_hash))
unfolding attempt use_submit_authorization_nonce
attempt-fresh a b db = ground (
  arith,
  eq_iff a.nonce_hash b.nonce_hash,
  lookup-upsert a.nonce_hash b.nonce_hash
      (λ _. record { payer = a.payer; quote_hash = a.quote_hash; created_at = a.at })
      db.submit_authorization_nonces,
)

-- After any attempts, an attempt is accepted exactly when its nonce was not in the table at the
-- start and none of those attempts carried it, by whatever payer and for whatever quote.
pub attempt-once :
    (rest : List Attempt) (b : Attempt) (db : Database)
    → (attempt b (attempts rest db)).0 ≡ (
        is_none (lookup b.nonce_hash db.submit_authorization_nonces)
        && not (any (λ a. a.nonce_hash == b.nonce_hash) rest))
unfolding attempts attempt use_submit_authorization_nonce
attempt-once [] b db = ground arith
attempt-once (a ∷ rest) b db =
    ground (arith, attempt-once rest b (attempt a db).1, attempt-fresh a b db)
