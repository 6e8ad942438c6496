-- ===== src/Arm/Failures.antt =====
-- `isTransientRpcError` and `isInsufficientFundsError` of `backend/src/api/arm.ts`, and `isRateLimitedError`
-- of `backend/src/casper/odra-cli.ts`, on the codes of a message.
use bondsman.Common.{
  ℕ, String, Bool, true, false, ◌&&◌, ◌||◌, not, List, [], ◌∷◌, map, drop, ◌==◌, nat_eq, leb,
}
use bondsman.Authorization.{codes, starts_with, to_lower}
use bondsman.Arm.{Failure}

-- Whether a test holds of what follows some position.
abbrev pub any_tail : (List ℕ → Bool) → List ℕ → Bool
any_tail p [] = p []
any_tail p (c ∷ cs) = p (c ∷ cs) || any_tail p cs

unfoldable pub includes : List ℕ → String → Bool
unfolding starts_with
includes text part = any_tail (starts_with (codes part)) text

-- `\w`
is_word : ℕ → Bool
is_word c = (leb 48 c && leb c 57) || (leb 65 c && leb c 90) || c == 95 || (leb 97 c && leb c 122)

abbrev ends_word : List ℕ → Bool
unfolding is_word
ends_word [] = true
ends_word (c ∷ cs) = not (is_word c)

-- `\b429\b`; the Boolean is whether a word goes on.
word_429 : Bool → List ℕ → Bool
unfolding is_word starts_with
word_429 inside [] = false
word_429 inside (c ∷ cs) =
    let rest = word_429 (is_word c) cs in
    (not inside && starts_with (codes "429") (c ∷ cs) && ends_word (drop 2 cs)) || rest

-- `limit`, or one character and then `limit`. The dot is no line break.
then_limit : List ℕ → Bool
unfolding starts_with
then_limit [] = false
then_limit (c ∷ cs) =
    starts_with (codes "limit") (c ∷ cs)
    || (not (c == 10 || c == 13) && starts_with (codes "limit") cs)

-- `rate.?limit`
rate_limit : List ℕ → Bool
unfolding then_limit starts_with
rate_limit cs = starts_with (codes "rate") cs && then_limit (drop 4 cs)

unfoldable pub is_rate_limited_error : Failure → Bool
unfolding word_429 rate_limit includes to_lower
is_rate_limited_error error =
    let text = map to_lower (codes error.message) in
    word_429 false text || includes text "too many requests" || any_tail rate_limit text

unfoldable pub is_transient_rpc_error : Failure → Bool
unfolding is_rate_limited_error includes
is_transient_rpc_error error =
    let text = codes error.message in
    is_rate_limited_error error
    || includes text "Timeout waiting for transaction"
    || includes text "failed to get response"
    || includes text "error sending request"

unfoldable pub is_insufficient_funds_error : Failure → Bool
unfolding includes
is_insufficient_funds_error error = includes (codes error.message) "Insufficient funds"

-- `isMissingPurse` of `backend/src/casper/funding.ts`
unfoldable pub is_missing_purse : Failure → Bool
unfolding includes
is_missing_purse error =
    error.missing_purse_status || includes (codes error.message) "Purse not found"
