-- ===== src/Arm.antt =====
-- Arming: `backend/src/api/arm.ts`. An operation runs on a world, which is the state of the chain, the
-- log and the database, and ends with a value or with the error that it throws; the world that it
-- leaves is kept in both cases. The chain is a parameter.
pub mod Failures
pub mod Loops
pub mod Logic
pub mod Once
pub mod Sent
pub mod Bounded
mod Examples
pub mod Request
pub mod Polls
pub mod Ready
pub mod Cursor
pub mod Served
pub mod Service
pub mod Steps
use bondsman.Common.{ℕ, String, Bool, false, Option, none, some, List, ◌∷◌}
use bondsman.Common.Decimal.{big_int}
use bondsman.Repository.Tables.{Database}

pub record Failure : Type 0 where
  pub message : String
  pub funding_unavailable : Bool
  -- The status of a purse that does not exist.
  pub missing_purse_status : Bool

abbrev pub plain : String → Failure
plain message = record {
  message = message;
  funding_unavailable = false;
  missing_purse_status = false;
}

pub data Outcome (A : Type 0) : Type 0 where
  ok : A → Outcome A
  err : Failure → Outcome A

pub record ArmSigner : Type 0 where
  pub role : String
  pub account : String

-- A transaction that arming sends, with its arguments; `mint` is of an address.
pub data Call : Type 0 where
  mint : String → ℕ → Call
  submit_invoice : ℕ → String → String → String → Option (String × List ℕ) → Call
  initiate_action : ℕ → String → String → String → Call
  approve : String → Call
  post_bond : ℕ → Call
  execute_action : ℕ → Call

pub data Entry : Type 0 where
  step_start : Call → ArmSigner → Entry
  step_end : Call → ArmSigner → ℕ → String → Entry
  step_failed : Call → ArmSigner → ℕ → String → Entry

-- What the chain says of an action, with the numbers read.
pub record RawAction : Type 0 where
  pub invoice_id : ℕ
  pub claim_hash : String
  pub amount : String
  pub reasoning_hash : String
  pub bond_required : String
  pub bond_posted : String
  pub window_end : ℕ
  pub status : String
  pub challenger : String

-- The chain and the clock: `S` is the state of all that is outside.
pub record Outside (S : Type 0) : Type 0 where
  pub now : S → ℕ × S
  pub sleep : ℕ → S → S
  pub random_hex : S → String × S
  pub call_contract : Call → S → Outcome String × S
  pub read_action : ℕ → S → Outcome RawAction × S
  pub read_invoice_paid : ℕ → S → Outcome Bool × S
  pub read_balance : String → S → Outcome String × S
  pub read_allowance : S → Outcome String × S
  pub read_duplicate : ℕ → S → Outcome String × S
  pub agent_motes : S → Outcome ℕ × S
  pub deployer_motes : S → Outcome ℕ × S
  -- A transfer of the deployer to the agent, and the wait for it.
  pub transfer : ℕ → S → Outcome (Unit {0}) × S
  -- The file of the agent's run.
  pub persist_run : ℕ → S → Outcome (Unit {0}) × S

pub record World (S : Type 0) : Type 0 where
  pub outer : S
  -- The last entry stands first.
  pub log : List Entry
  pub db : Database

abbrev pub M : Type 0 → Type 0 → Type 0
M S A = World S → Outcome A × World S

abbrev pub bind_outcome : {S A B : Type 0} → Outcome A × World S → (A → M S B) → Outcome B × World S
bind_outcome (ok a, w) f = f a w
bind_outcome (err e, w) f = (err e, w)

infixl 5 ◌>>=◌ ◌>>◌
unfoldable pub ◌>>=◌ : {S A B : Type 0} → M S A → (A → M S B) → M S B
◌>>=◌ m f w = bind_outcome (m w) f

abbrev pub ◌>>◌ : {S A B : Type 0} → M S A → M S B → M S B
◌>>◌ m k = m >>= λ _. k

unfoldable pub pure : {S A : Type 0} → A → M S A
pure a w = (ok a, w)

unfoldable pub throw : {S A : Type 0} → Failure → M S A
throw e w = (err e, w)

-- `try`, with the handler of its `catch`.
abbrev pub caught : {S A : Type 0} → Outcome A × World S → (Failure → M S A) → Outcome A × World S
caught (ok a, w) handler = (ok a, w)
caught (err e, w) handler = handler e w

unfoldable pub attempt : {S A : Type 0} → M S A → (Failure → M S A) → M S A
attempt m handler w = caught (m w) handler

-- The two ends of an operation.
abbrev pub either_end :
    {S A B : Type 0} → Outcome A × World S → (A → M S B) → (Failure → M S B) → Outcome B × World S
either_end (ok a, w) then_do handler = then_do a w
either_end (err e, w) then_do handler = handler e w

unfoldable pub handled : {S A B : Type 0} → M S A → (A → M S B) → (Failure → M S B) → M S B
handled m then_do handler w = either_end (m w) then_do handler

-- A read of the outside.
unfoldable pub ask : {S A : Type 0} → (S → A × S) → M S A
ask read w = let (a, s) = read w.outer in (ok a, record w { outer = s })

unfoldable pub outward : {S A : Type 0} → (S → Outcome A × S) → M S A
outward op w = let (r, s) = op w.outer in (r, record w { outer = s })

unfoldable pub write : {S : Type 0} → Entry → M S (Unit {0})
write entry w = (ok tt, record w { log = entry ∷ w.log })

unfoldable pub modify : {S : Type 0} → (Database → Database) → M S (Unit {0})
modify f w = (ok tt, record w { db = f w.db })

-- A query of the database.
unfoldable pub query : {S A : Type 0} → (Database → A) → M S A
query f w = (ok (f w.db), w)

unfoldable pub number_of : {S : Type 0} → Option ℕ → M S ℕ
number_of none = throw (plain "Cannot convert to a BigInt")
number_of (some n) = pure n

-- `BigInt` of a text; it throws where the text is no number.
unfoldable pub number : {S : Type 0} → String → M S ℕ
number text = number_of (big_int text)
