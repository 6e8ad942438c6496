-- ===== src/Authorization/Examples.antt =====
-- A signer that accepts every signature, as a value of the parameter.
use bondsman.Common.{◌≤◌, ◌+◌, String, true, none, some, [], ◌≡◌, refl}
use bondsman.Policy.{delivery_contradiction}
use bondsman.Repository.Records.{goods_not_received}
use bondsman.Authorization.{
  SubmitAuthorization, SubmitAuthorizationFields, Crypto, max_authorization_age_ms, distance,
  same_ignoring_case, is_ed25519_key, verify_submit_authorization, payer_from_public_key,
  submit_authorization_nonce_hash,
}
use bondsman.Authorization.Checks.{IsSigned, verify_submit_authorization_sound}

abbrev pub trusting : Crypto
trusting = record {
  account_hash = λ key. some "AB";
  stringify = λ value. "";
  utf8 = λ text. [];
  verify = λ payload key signature. some true;
  nonce_digest = λ text. text;
}

abbrev pub authorization : SubmitAuthorization
authorization = record {
  public_key = "01aaaaaaaaaaaaaaaaaaaaaaaaaaaaaaaaaaaaaaaaaaaaaaaaaaaaaaaaaaaaaaaa";
  signature = "c2lnbmF0dXJl";
  timestamp = 1000;
  nonce = "0123456789abcdef";
}

abbrev pub fields : SubmitAuthorizationFields
fields = record {
  quote_hash = "0xaa";
  fault_class = delivery_contradiction;
  buyer_public_key = some "MCowBQYDK2VwAyEA";
  event_type = goods_not_received;
  timestamp = 1000;
  nonce = "0123456789abcdef";
}

pub verify_accepts :
    verify_submit_authorization trusting authorization fields "00ab" 2000
    ≡ some ("00AB", "00AB:0123456789abcdef")
unfolding verify_submit_authorization distance same_ignoring_case is_ed25519_key
verify_accepts = refl

verify_too_old : verify_submit_authorization trusting authorization fields "00ab" 301_001 ≡ none
unfolding verify_submit_authorization distance same_ignoring_case is_ed25519_key
verify_too_old = refl

verify_submit_authorization_sound_example :
    (1000 ≤ 2000 + max_authorization_age_ms)
    × (2000 ≤ 1000 + max_authorization_age_ms)
    × (payer_from_public_key trusting authorization.public_key ≡ some "00AB")
    × (same_ignoring_case "00AB" "00ab" ≡ true)
    × (is_ed25519_key authorization.public_key ≡ true)
    × IsSigned trusting authorization fields
    × (◌≡◌ {A = String} "00AB:0123456789abcdef"
        (submit_authorization_nonce_hash trusting "00AB" authorization.nonce))
verify_submit_authorization_sound_example =
    verify_submit_authorization_sound trusting authorization fields "00ab" "00AB"
      "00AB:0123456789abcdef" 2000 verify_accepts
