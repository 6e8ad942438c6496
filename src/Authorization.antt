-- ===== src/Authorization.antt =====
-- The payer's authorization of a submission, `backend/src/verify/submit-authorization.ts`. The
-- signature scheme, the account hash of the Casper SDK and BLAKE2b are a parameter. Whatever the
-- code throws is `none`: the route answers every throw with the same error.
pub mod Checks
pub mod Examples
use Prim.Native.Char.{code}
use Prim.Native.String.{◌++◌}
use bondsman.Common.{
  ℕ, ◌+◌, ◌-◌, ◌*◌, String, Bool, true, false, not, ◌&&◌, ◌||◌, Option, none, some, List, [], ◌∷◌,
  map, ◌==◌, nat_eq, ltb, leb, if◌then◌else◌, length, ◌≡◌, refl, arith,
}
use bondsman.Common.Int.{pos}
use bondsman.Common.Json.{Json, Fields, str, num, null, obj, field, end}
use bondsman.Policy.{FaultClass, fault_class_text}
use bondsman.Repository.Records.{DeliveryEventType, event_text}

pub record SubmitAuthorizationFields : Type 0 where
  pub quote_hash : String
  pub fault_class : FaultClass
  pub buyer_public_key : Option String
  pub event_type : DeliveryEventType
  pub timestamp : ℕ
  pub nonce : String

pub record SubmitAuthorization : Type 0 where
  pub public_key : String
  pub signature : String
  pub timestamp : ℕ
  pub nonce : String

-- What the code takes from `node:crypto`, the Casper SDK and the runtime: `JSON.stringify`, the bytes of
-- a text, and `verify`, of a payload, a key and a signature. `none` is a throw.
pub record Crypto : Type 0 where
  pub account_hash : String → Option String
  pub stringify : Json → String
  pub utf8 : String → List ℕ
  pub verify : List ℕ → String → String → Option Bool
  pub nonce_digest : String → String

abbrev pub max_authorization_age_ms : ℕ
max_authorization_age_ms = 5 * 60_000

-- `Math.abs(a - b)`
pub distance : ℕ → ℕ → ℕ
distance a b = if leb a b then b - a else a - b

-- The characters of a text by their code points.
abbrev pub codes : String → List ℕ
codes String.[] = []
codes (String.◌∷◌ c s) = code c ∷ codes s

-- `toLowerCase()`, of the letters of ASCII
unfoldable pub to_lower : ℕ → ℕ
to_lower c = if leb b'A' c && leb c b'Z' then c + 32 else c

unfoldable pub same_codes : List ℕ → List ℕ → Bool
same_codes [] [] = true
same_codes [] (y ∷ ys) = false
same_codes (x ∷ xs) [] = false
same_codes (x ∷ xs) (y ∷ ys) = x == y && same_codes xs ys

unfoldable pub same_ignoring_case : String → String → Bool
unfolding to_lower same_codes
same_ignoring_case a b = same_codes (map to_lower (codes a)) (map to_lower (codes b))

-- `[0-9a-f]` with the flag `i`
-- `text.startsWith(part)`, on codes
unfoldable pub starts_with : List ℕ → List ℕ → Bool
starts_with [] text = true
starts_with (c ∷ cs) [] = false
starts_with (c ∷ cs) (d ∷ text) = c == d && starts_with cs text

unfoldable pub is_hex : ℕ → Bool
is_hex c = leb b'0' c && leb c b'9' || leb b'a' c && leb c b'f' || leb b'A' c && leb c b'F'

unfoldable pub all_hex : List ℕ → Bool
unfolding is_hex
all_hex [] = true
all_hex (c ∷ cs) = is_hex c && all_hex cs

-- `/^01[0-9a-f]{64}$/i`
ed25519_digits : List ℕ → Bool
unfolding all_hex
ed25519_digits (x ∷ y ∷ digits) = x == b'0' && y == b'1' && length digits == 64 && all_hex digits
ed25519_digits _ = false

unfoldable pub is_ed25519_key : String → Bool
unfolding ed25519_digits
is_ed25519_key key = ed25519_digits (codes key)

-- `text ?? null`
abbrev pub or_null : Option String → Json
or_null none = null
or_null (some text) = str text

-- The object that is signed, its fields in the order of the source.
unfoldable pub signed_document : SubmitAuthorizationFields → Fields
signed_document input = field "quoteHash" (str input.quote_hash) (
    field "faultClass" (str (fault_class_text input.fault_class)) (
      field "buyerPublicKey" (or_null input.buyer_public_key) (
        field "eventType" (str (event_text input.event_type))
          (field "timestamp" (num (pos input.timestamp)) (field "nonce" (str input.nonce) end)))))

module _ (crypto : Crypto) where
  -- The prefix `00` marks an account.
  unfoldable pub payer_from_public_key : String → Option String
  payer_from_public_key key = elim (crypto.account_hash key) [
    | none ↦ none
    | some hash ↦ some ("00" ++ hash)
  ]

  unfoldable pub submit_authorization_nonce_hash : String → String → String
  submit_authorization_nonce_hash payer nonce = crypto.nonce_digest (payer ++ ":" ++ nonce)

  unfoldable pub canonical_submit_authorization_payload : SubmitAuthorizationFields → List ℕ
  unfolding signed_document
  canonical_submit_authorization_payload input =
      crypto.utf8 (crypto.stringify (obj (signed_document input)))

  -- `ed25519PublicKey` throws for another kind of key before the signature is looked at.
  check_signature : List ℕ → SubmitAuthorization → Bool
  check_signature payload authorization =
      if is_ed25519_key authorization.public_key
      then elim (crypto.verify payload authorization.public_key authorization.signature) [
        | none ↦ false
        | some valid ↦ valid
      ]
      else false

  -- `{ ...fields, timestamp, nonce }`
  signed_fields : SubmitAuthorizationFields → SubmitAuthorization → SubmitAuthorizationFields
  signed_fields fields authorization = record fields {
    timestamp = authorization.timestamp;
    nonce = authorization.nonce;
  }

  unfoldable pub verify_submit_authorization :
      SubmitAuthorization → SubmitAuthorizationFields → String → ℕ → Option (String × String)
  unfolding check_signature signed_fields canonical_submit_authorization_payload
      payer_from_public_key submit_authorization_nonce_hash
  verify_submit_authorization authorization fields expected_payer now =
      if ltb max_authorization_age_ms (distance now authorization.timestamp)
      then none
      else elim (payer_from_public_key authorization.public_key) [
        | none ↦ none
        | some payer ↦
            if same_ignoring_case payer expected_payer
              && check_signature
                  (canonical_submit_authorization_payload (signed_fields fields authorization))
                  authorization
            then some (payer, submit_authorization_nonce_hash payer authorization.nonce)
            else none
      ]
