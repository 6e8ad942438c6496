-- ===== src/ApiErrors/Examples.antt =====
-- Errors that the API answers.
use bondsman.Common.{String, ℕ, some, true, false, any, nat_eq, string_eq, none, ◌≡◌, ◌⊎◌, refl}
use bondsman.Common.Table.{lookup}
use bondsman.Authorization.{starts_with, codes}
use bondsman.Arm.Failures.{includes}
use bondsman.SpendGuard.Settings.{drop_spaces}
use bondsman.ApiErrors.Hidden.{IsFixed, operational_causes, normalize_message-IsFixed}
use bondsman.ApiErrors.{
  controller_error_codes, spending_tripped, funding_low, rate_limited, normalize_api_error, error,
  normalize_message, reverted, user_error, operational, named,
}

revert_11 :
    (normalize_api_error (error "Deploy failed: User error:  11, gas" none)).code
    ≡ "WINDOW_STILL_OPEN"
unfolding normalize_api_error normalize_message reverted user_error operational named lookup
    starts_with includes drop_spaces
revert_11 = refl

-- The name of the same revert is taken for the opposite one.
revert_11_by_name :
    (normalize_api_error (error "WindowStillOpen" none)).code ≡ "CHALLENGE_WINDOW_CLOSED"
unfolding normalize_api_error normalize_message reverted user_error operational named lookup
    starts_with includes drop_spaces
revert_11_by_name = refl

normalize_message-IsFixed_example :
    let message : String = "funding unavailable: purse 01ab" in
    let answer = normalize_message message 500 in
    ((n : ℕ) × ((user_error (codes message) ≡ some n)
        × (lookup n controller_error_codes ≡ some answer)
        × IsFixed answer.message))
    ⊎ ((reverted (codes message) ≡ none)
        × (any (λ cause. includes (codes message) cause) operational_causes ≡ true)
        × ((answer ≡ spending_tripped) ⊎ (answer ≡ funding_low) ⊎ (answer ≡ rate_limited))
        × IsFixed answer.message)
    ⊎ ((reverted (codes message) ≡ none)
        × (any (λ cause. includes (codes message) cause) operational_causes ≡ false)
        × (answer.message ≡ message))
normalize_message-IsFixed_example = normalize_message-IsFixed "funding unavailable: purse 01ab" 500
