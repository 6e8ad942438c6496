-- ===== src/Arm/Sent.antt =====
-- How many transactions an arming starts, whatever the chain answers.
use bondsman.Common.{
  ℕ, ◌+◌, ◌*◌, ◌≤◌, String, Bool, true, false, Option, none, some, List, ◌∷◌, string_eq, ◌≡◌, sym,
  arith,
}
use bondsman.Common.Decimal.{big_int}
use bondsman.Arm.{
  Failure, Outcome, ArmSigner, Call, approve, post_bond, execute_action, RawAction, Outside, M,
  ◌>>=◌, pure, throw, ask, outward, number, number_of, write, Entry, step_start,
}
use bondsman.Arm.Steps.{
  entrypoint, invoice_exists, transact, step_ended, step_refused, ensure_token_target,
  unless_transient, ensure_invoice, initiate, ensure_allowance, confirm_step, ensure_bond,
  ensure_executed,
}
use bondsman.Arm.Logic.{
  StartsAtMost, StartsAtMost->>=, StartsAtMost-attempt, StartsAtMost-if, StartsAtMost-le, cost,
  started,
}

module _ {S : Type 0} (outside : Outside S) (name : String) where
  -- An operation that starts nothing.
  abbrev pub Quiet : {A : Type 0} → M S A → Type 0
  Quiet m = StartsAtMost name 0 m

  pub asked : {A : Type 0} (read : S → A × S) → Quiet (ask read)
  unfolding ask
  asked read = record { at_most = λ w. omega arith }

  pub thrown : (A : Type 0) (e : Failure) → Quiet (throw {A = A} e)
  unfolding throw
  thrown A e = record { at_most = λ w. omega arith }

  pub given : {A : Type 0} (a : A) → Quiet (pure a)
  unfolding pure
  given a = record { at_most = λ w. omega arith }

  pub called : {A : Type 0} (op : S → Outcome A × S) → Quiet (outward op)
  unfolding outward
  called op = record { at_most = λ w. omega arith }

  numbered : (text : String) → Quiet (number text)
  unfolding number number_of
  numbered text = cases (big_int text)
    where
      cases : (n : Option ℕ) → Quiet (number_of n)
      cases none = thrown _ _
      cases (some n) = given n

  wrote :
      (entry : Entry) (k : ℕ)
      → ((es : List Entry) → started name (entry ∷ es) ≤ started name es + k)
      → StartsAtMost {S = S} name k (write entry)
  unfolding write
  wrote entry k h = record { at_most = λ w. h w.log }

  transact-starts :
      (signer : ArmSigner) (call : Call)
      → StartsAtMost name (cost name (entrypoint call)) (transact outside signer call)
  unfolding transact step_ended step_refused
  transact-starts signer call = StartsAtMost-le (omega arith) (
      StartsAtMost->>= (asked _) λ now.
        StartsAtMost->>=
          (wrote (step_start call signer) (cost name (entrypoint call)) (λ es. ground arith))
          λ _.
            StartsAtMost-attempt
              (StartsAtMost->>= (called _) λ hash.
                StartsAtMost->>= (asked _)
                  λ later. StartsAtMost->>= (wrote _ 0 (λ es. omega arith)) λ _. given hash)
              (λ e.
                StartsAtMost->>= (asked _)
                  λ later. StartsAtMost->>= (wrote _ 0 (λ es. omega arith)) λ _. thrown _ _))

  pub ensure_token_target-Quiet :
      (address : String) (target : ℕ) → Quiet (ensure_token_target outside address target)
  unfolding ensure_token_target
  ensure_token_target-Quiet address target = StartsAtMost->>= (called _) λ text.
      StartsAtMost->>= (numbered text)
        λ balance. StartsAtMost-if _ (given tt) (StartsAtMost->>= (called _) λ _. given tt)

  unless_transient-starts :
      {A : Type 0} {k : ℕ} {m : M S A} (e : Failure)
      → StartsAtMost name k m
      → StartsAtMost name k (unless_transient outside e m)
  unfolding unless_transient
  unless_transient-starts e h = StartsAtMost-if _ h (StartsAtMost-le (omega arith) (thrown _ e))

  -- A transaction whose hash is kept.
  kept :
      {A : Type 0} (signer : ArmSigner) (call : Call) (f : String → A)
      → StartsAtMost name
          (cost name (entrypoint call) + 0)
          (transact outside signer call >>= λ hash. pure (f hash))
  kept signer call f = StartsAtMost->>= (transact-starts signer call) λ hash. given (f hash)

  confirm_step-starts :
      (signer : ArmSigner) (action_id : ℕ) (call : Call) (reached : String → Bool)
      → StartsAtMost name
          (cost name (entrypoint call))
          (confirm_step outside signer action_id call reached)
  unfolding confirm_step
  confirm_step-starts signer action_id call reached = StartsAtMost-le (omega arith) (
      StartsAtMost-attempt (kept signer call some) λ e.
        unless_transient-starts e
          (StartsAtMost->>= (called _) λ confirmed. StartsAtMost-if _ (given none) (thrown _ e)))

  pub ensure_invoice-starts :
      (deployer : ArmSigner) (id : ℕ) (order_hash : M S String) (call : String → Call)
      → Quiet order_hash
      → ((hash : String) → entrypoint (call hash) ≡ "submit_invoice")
      → StartsAtMost name
          (cost name "submit_invoice")
          (ensure_invoice outside deployer id order_hash call)
  unfolding ensure_invoice invoice_exists
  ensure_invoice-starts deployer id order_hash call quiet named =
      let looked : Quiet (invoice_exists outside id) =
        StartsAtMost-attempt (StartsAtMost->>= (called _) λ _. given true)
          λ e. StartsAtMost-if _ (thrown _ e) (given false) in
      let sent : (hash : String)
          → StartsAtMost name (cost name "submit_invoice") (transact outside deployer (call hash)) =
        λ hash. rw (sym (named hash)) (transact-starts deployer (call hash)) in
      StartsAtMost-le {j = 0 + (0 + cost name "submit_invoice" + 0 + 0)} (omega arith) (
        StartsAtMost->>= looked λ exists.
          StartsAtMost-if exists (StartsAtMost-le (omega arith) (given tt)) (
            StartsAtMost-attempt (StartsAtMost->>= (StartsAtMost->>= quiet sent) λ _. given tt)
              λ e. unless_transient-starts e (StartsAtMost->>= (called _) λ _. given tt)))

  pub initiate-starts :
      (agent : ArmSigner) (action_id : ℕ) (call : Call)
      → StartsAtMost name (2 * cost name (entrypoint call)) (initiate outside agent action_id call)
  unfolding initiate
  initiate-starts agent action_id call = StartsAtMost-le (omega arith) (
      StartsAtMost-attempt (kept agent call some) λ e. unless_transient-starts e (
        StartsAtMost-attempt (StartsAtMost->>= (called _) λ _. given none) λ state_error.
          StartsAtMost-if _ (StartsAtMost-le (omega arith) (thrown _ e)) (kept agent call some)))

  ensure_allowance-starts :
      (agent : ArmSigner) (bond_required : String)
      → StartsAtMost name (cost name "approve") (ensure_allowance outside agent bond_required)
  unfolding ensure_allowance
  ensure_allowance-starts agent bond_required = StartsAtMost-le (omega arith) (
      StartsAtMost->>= (called _) λ text. StartsAtMost->>= (numbered text) λ allowance.
        StartsAtMost->>= (numbered bond_required) λ required.
          StartsAtMost-if _
            (StartsAtMost-attempt (kept agent (approve bond_required) some) λ e.
              unless_transient-starts e (
                StartsAtMost->>= (called _) λ again.
                  StartsAtMost->>= (numbered again)
                    λ confirmed. StartsAtMost-if _ (thrown _ e) (given none)))
            (StartsAtMost-le (omega arith) (given none)))

  pub ensure_bond-starts :
      (agent : ArmSigner) (action_id : ℕ) (raw : RawAction)
      → StartsAtMost name
          (cost name "approve" + cost name "post_bond")
          (ensure_bond outside agent action_id raw)
  unfolding ensure_bond
  ensure_bond-starts agent action_id raw =
      StartsAtMost-if _
        (StartsAtMost-le (omega arith) (
          StartsAtMost->>= (ensure_allowance-starts agent raw.bond_required) λ approved.
            StartsAtMost->>= (confirm_step-starts agent action_id (post_bond action_id) _)
              λ posted. StartsAtMost->>= (called _) λ after. given _))
        (StartsAtMost-le (omega arith) (given _))

  pub ensure_executed-starts :
      (agent : ArmSigner) (action_id : ℕ) (raw : RawAction)
      → StartsAtMost name (cost name "execute_action") (ensure_executed outside agent action_id raw)
  unfolding ensure_executed
  ensure_executed-starts agent action_id raw =
      StartsAtMost-if _ (confirm_step-starts agent action_id (execute_action action_id) _)
        (StartsAtMost-le (omega arith) (given none))
