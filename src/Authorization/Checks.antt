-- ===== src/Authorization/Checks.antt =====
-- What an accepted authorization proves.
use bondsman.Common.{ℕ, ◌≤◌, ◌+◌, String, true, some, ◌≡◌, refl, arith}
use bondsman.Authorization.{
  SubmitAuthorization, SubmitAuthorizationFields, Crypto, max_authorization_age_ms, distance,
  same_ignoring_case, is_ed25519_key, verify_submit_authorization, payer_from_public_key,
  submit_authorization_nonce_hash, canonical_submit_authorization_payload, signed_document, or_null,
}
use bondsman.Common.Int.{pos}
use bondsman.Common.Json.{Fields, str, num, obj, get}
use bondsman.Policy.{fault_class_text}
use bondsman.Repository.Records.{event_text}

-- The signature is over an object with the fields of the request.
abbrev pub IsSigned : Crypto → SubmitAuthorization → SubmitAuthorizationFields → Type 0
IsSigned crypto a fields =
    (signed : Fields) × ((crypto.verify (crypto.utf8 (crypto.stringify (obj signed))) a.public_key
          a.signature
        ≡ some true)
      × (get "quoteHash" signed ≡ some (str fields.quote_hash))
      × (get "faultClass" signed ≡ some (str (fault_class_text fields.fault_class)))
      × (get "buyerPublicKey" signed ≡ some (or_null fields.buyer_public_key))
      × (get "eventType" signed ≡ some (str (event_text fields.event_type)))
      × (get "timestamp" signed ≡ some (num (pos a.timestamp)))
      × (get "nonce" signed ≡ some (str a.nonce)))

-- An authorization is accepted only within five minutes of its timestamp in either direction, from
-- an Ed25519 key whose account is the expected payer but for letter case, and with a signature by
-- that key over the bytes of the JSON text of an object in which stand the quote hash, the class of
-- fault, the buyer's key (or null) and the event of this request, and the authorization's own
-- timestamp and nonce. The nonce hash that is returned is that of this payer and nonce.
pub verify_submit_authorization_sound :
    (crypto : Crypto) (a : SubmitAuthorization) (fields : SubmitAuthorizationFields)
    (expected payer nonce_hash : String) (now : ℕ)
    → verify_submit_authorization crypto a fields expected now ≡ some (payer, nonce_hash)
    → (a.timestamp ≤ now + max_authorization_age_ms)
      × (now ≤ a.timestamp + max_authorization_age_ms)
      × (payer_from_public_key crypto a.public_key ≡ some payer)
      × (same_ignoring_case payer expected ≡ true)
      × (is_ed25519_key a.public_key ≡ true)
      × IsSigned crypto a fields
      × (nonce_hash ≡ submit_authorization_nonce_hash crypto payer a.nonce)
unfolding verify_submit_authorization distance canonical_submit_authorization_payload
    signed_document
verify_submit_authorization_sound crypto a fields expected payer nonce_hash now h = (
  ground arith,
  ground arith,
  ground arith,
  ground arith,
  ground arith,
  (
    signed_document (record fields { timestamp = a.timestamp; nonce = a.nonce }),
    (ground arith, refl, refl, refl, refl, refl, refl),
  ),
  ground arith,
)
