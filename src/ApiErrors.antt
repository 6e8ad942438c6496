-- ===== src/ApiErrors.antt =====
-- The errors that the API answers with, `backend/src/api/errors.ts`.
pub mod Hidden
mod Examples
use bondsman.Common.{
  ℕ, ◌+◌, ◌-◌, ◌*◌, String, Bool, true, false, ◌&&◌, ◌||◌, Option, none, some, List, [], ◌∷◌, drop,
  or_default, leb, ◌==◌, nat_eq, if◌then◌else◌,
}
use bondsman.Common.Table.{Table, lookup}
use bondsman.Authorization.{codes, starts_with}
use bondsman.Arm.Failures.{includes}
use bondsman.SpendGuard.Settings.{drop_spaces}

pub record ApiError : Type 0 where
  pub status_code : ℕ
  pub code : String
  pub message : String

-- What may be thrown: an `ApiError`, another `Error` with its `statusCode` if it has a number there,
-- and anything else.
pub data Thrown : Type 0 where
  api_error : ApiError → Thrown
  error : String → Option ℕ → Thrown
  other : Thrown

abbrev api : ℕ → String → String → ApiError
api status code message = record { status_code = status; code = code; message = message }

-- `CONTROLLER_ERROR_CODES`
abbrev pub controller_error_codes : Table ℕ ApiError
controller_error_codes =
    (1, api 404 "ACTION_NOT_FOUND" "This action could not be found.")
    ∷ (2, api 403 "NOT_AGENT" "Only the acting agent can perform this step.")
    ∷ (
      3,
      api 409 "NOT_EXECUTABLE"
          "This action is no longer in a challengeable state — it may already have been challenged or resolved.",
    )
    ∷ (4, api 409 "INSUFFICIENT_BOND" "The posted bond is insufficient for this action.")
    ∷ (5, api 400 "INVALID_BASIS_POINTS" "The configured split is invalid.")
    ∷ (
      6,
      api 403 "NOT_OWNER"
          "The backend key is not the contract owner. The contract needs to be redeployed or the key updated.",
    )
    ∷ (7, api 409 "POOL_FINALIZED" "This invoice pool has already been finalized.")
    ∷ (8, api 409 "UNREGISTERED_VERIFIER" "No verifier is registered for this fault class.")
    ∷ (9, api 409 "FAULT_NOT_CONFIRMED" "The claimed fault could not be confirmed on chain.")
    ∷ (10, api 409 "CHALLENGE_WINDOW_CLOSED" "This action's challenge window has closed.")
    ∷ (11, api 409 "WINDOW_STILL_OPEN" "This action's challenge window has not closed yet.")
    ∷ []

-- `(\d+)`, as a number
leading_number : Option ℕ → List ℕ → Option ℕ
leading_number read [] = read
leading_number read (c ∷ cs) =
    let longer = leading_number (some (or_default read 0 * 10 + (c - 48))) cs in
    if leb 48 c && leb c 57 then longer else read

-- `/User error:\s*(\d+)/` at the first place where it matches
unfoldable pub user_error : List ℕ → Option ℕ
unfolding starts_with drop_spaces leading_number
user_error [] = none
user_error (c ∷ cs) =
    let later = user_error cs in
    if starts_with (codes "User error:") (c ∷ cs)
    then elim (leading_number none (drop_spaces (drop 10 cs))) [ none ↦ later | some n ↦ some n ]
    else later

unfoldable pub reverted : List ℕ → Option ApiError
unfolding user_error lookup
reverted text = elim (user_error text) [ none ↦ none | some n ↦ lookup n controller_error_codes ]

abbrev pub spending_tripped : ApiError
spending_tripped =
    api 429 "SPENDING_CIRCUIT_TRIPPED"
      "The demo spending circuit breaker is cooling down. Please try again shortly."

abbrev pub funding_low : ApiError
funding_low = api 503 "ARM_FAILED" "Backend funding is temporarily low. Please try again shortly."

abbrev pub rate_limited : ApiError
rate_limited =
    api 429 "RATE_LIMITED"
      "The Casper node is rate-limiting requests right now. Please try again shortly."

-- The tests for texts that are not shown, in their order.
unfoldable pub operational : List ℕ → Option ApiError
unfolding includes
operational text =
    if includes text "SPENDING_CIRCUIT_TRIPPED"
    then some spending_tripped
    else if includes text "funding unavailable" || includes text "balance check failed"
    then some funding_low
    else if includes text "rate limited at"
    then some rate_limited
    else none

-- The tests for the names of reverts, and the answer where nothing matches.
unfoldable pub named : String → ℕ → ApiError
unfolding includes
named message status =
    let text = codes message in
    if includes text "NotOwner"
    then api 403 "NOT_OWNER" message
    else if includes text "window" || includes text "Window"
    then api 409 "CHALLENGE_WINDOW_CLOSED" message
    else if includes text "AlreadyChallenged"
    then api 409 "ALREADY_CHALLENGED" message
    else if includes text "NotExecutable" || includes text "InvalidStatus"
    then api 409 "NOT_EXECUTABLE" message
    else api status (if status == 503 then "ARM_FAILED" else "INTERNAL_ERROR") message

unfoldable pub normalize_message : String → ℕ → ApiError
unfolding reverted operational named
normalize_message message status = elim (reverted (codes message)) [
  | some mapped ↦ mapped
  | none ↦ elim (operational (codes message)) [ some hidden ↦ hidden | none ↦ named message status ]
]

unfoldable pub normalize_api_error : Thrown → ApiError
unfolding normalize_message
normalize_api_error (api_error e) = e
normalize_api_error (error message status) = normalize_message message (or_default status 500)
normalize_api_error other = normalize_message "unexpected backend failure" 500
