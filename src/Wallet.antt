-- ===== src/Wallet.antt =====
-- Challenges that a wallet signs: what `backend/src/casper/transactions.ts` reads from the answer of a node to
-- the question for a transaction. Texts that the code builds or cuts are lists of codes here.

pub mod Payout
pub mod Accepted
mod Examples
pub mod Named
pub mod Intent
pub mod Transaction
pub mod Resolve
use bondsman.Common.{
  ℕ, String, Bool, true, false, ◌&&◌, ◌||◌, not, Option, none, some, or_default, List, [], ◌∷◌,
  ◌++◌, ◌==◌, drop, string_eq, nat_eq, if◌then◌else◌,
}
use bondsman.Common.Int.{ℤ, pos, negsuc}
use bondsman.Common.Json
use bondsman.Common.Json.{Json, null, bool, num, str, arr, obj, Items, nil, cons, Fields, end, get}
use bondsman.Authorization.{codes, starts_with, same_codes}

-- `record(value)`; an array has none of the names that are asked for.
abbrev pub fields_of : Option Json → Option Fields
fields_of (some (obj fields)) = some fields
fields_of (some (arr items)) = some end
fields_of _ = none

-- `value?.name`
abbrev pub member : String → Option Fields → Option Json
member key none = none
member key (some fields) = get key fields

-- `value ?? other`
abbrev pub present : Option Json → Option Json → Option Json
present none other = other
present (some null) other = other
present (some value) other = some value

is_truthy : Option Json → Bool
is_truthy none = false
is_truthy (some null) = false
is_truthy (some (bool b)) = b
is_truthy (some (num (pos n))) = not (n == 0)
is_truthy (some (num (negsuc n))) = true
is_truthy (some (str text)) = not (text == "")
is_truthy (some _) = true

-- What a node knows of the execution; the error is what is printed.
pub data Execution : Type 0 where
  unknown succeeded : Execution
  failed : Option Json → Execution

abbrev rpc_result : Json → Option Fields
rpc_result raw = fields_of (member "result" (fields_of (some raw)))

unfoldable pub transaction_v1 : Json → Option Fields
transaction_v1 raw =
    fields_of (member "Version1" (fields_of (member "transaction" (rpc_result raw))))

abbrev failure_error : Fields → Execution
failure_error failure = failed (
    present (get "error_message" failure)
      (present (get "errorMessage" failure) (some (str "transaction execution failed"))))

-- `Version1` of a result.
version1_error : Option Fields → Execution
unfolding is_truthy
version1_error version1 = elim (fields_of (member "Success" version1)) [
  | some _ ↦ succeeded
  | none ↦ elim (fields_of (member "Failure" version1)) [
    | some failure ↦ failure_error failure
    | none ↦ if is_truthy (member "Success" version1) then succeeded else unknown
  ]
]

-- The message of `Version2`, which is null where there was no error.
version2_error : Option Json → Execution
version2_error none = succeeded
version2_error (some null) = succeeded
version2_error (some message) = failed (some message)

result_error : Option Fields → Execution
unfolding version1_error version2_error
result_error result = elim (fields_of (member "Success" result)) [
  | some _ ↦ succeeded
  | none ↦ elim (fields_of (member "Failure" result)) [
    | some failure ↦ failure_error failure
    | none ↦ elim (fields_of (member "Version2" result)) [
      | some version2 ↦ version2_error (get "error_message" version2)
      | none ↦ version1_error (fields_of (member "Version1" result))
    ]
  ]
]

unfoldable pub execution_error : Json → Execution
unfolding result_error
execution_error raw = elim (fields_of (member "execution_info" (rpc_result raw))) [
  | none ↦ unknown
  | some info ↦ result_error (fields_of (get "execution_result" info))
]

-- The first pair of a list of pairs with a name, and its second part.
find_named : String → Items → Option Json
find_named name nil = none
find_named name (cons (arr (cons (str key) rest)) items) =
    let later = find_named name items in if key == name then second rest else later
  where
    second : Items → Option Json
    second nil = none
    second (cons value _) = some value
find_named name (cons _ items) = find_named name items

unfoldable pub named_argument : Fields → String → Option Fields
unfolding find_named
named_argument fields name = elim (member "Named" (fields_of (get "args" fields))) [
  | some (arr items) ↦ fields_of (find_named name items)
  | _ ↦ none
]

-- `hash-${addr.replace(/^hash-/, '')}`
abbrev with_hash : String → List ℕ
with_hash addr =
    if starts_with (codes "hash-") (codes addr) then codes addr else codes "hash-" ++ codes addr

-- The first of the keys under which an address stands.
target_in : List String → Option Fields → Option (List ℕ)
unfolding starts_with
target_in [] id = none
target_in (key ∷ keys) id =
    let later = target_in keys id in
    elim (member "addr" (fields_of (member key id))) [
      | some (str addr) ↦ some (with_hash addr)
      | _ ↦ later
    ]

unfoldable pub target_hash : Fields → Option (List ℕ)
unfolding target_in
target_hash fields =
    target_in ("ByPackageHash" ∷ "ByEntityAddr" ∷ "ByContractHash" ∷ [])
      (fields_of (member "id" (fields_of (member "Stored" (fields_of (get "target" fields))))))

unfoldable pub has_signer : String → Items → Bool
has_signer key nil = false
has_signer key (cons approval items) =
    let later = has_signer key items in
    elim (member "signer" (fields_of (some approval))) [
      | some (str signer) ↦ signer == key || later
      | _ ↦ later
    ]
