-- ===== src/Arm/Ready.antt =====
-- What an arming that succeeds leaves behind.
use bondsman.Common.{
  ℕ, ◌+◌, ◌≤◌, String, Bool, true, false, Option, none, some, List, string_eq, nat_eq, ◌≡◌, refl,
  ◌∙◌, arith, ltb, same_refl, if◌then◌else◌, Bool-cases, inl, inr,
}
use bondsman.Repository.Records.{ActionRecord}
use bondsman.Repository.Actions.{action, upsert_action}
use bondsman.Repository.Actions.Stored.{stored, action-upsert_action}
use bondsman.Arm.{
  plain, ok, RawAction, Outside, World, ◌>>=◌, ◌>>◌, pure, throw, ask, outward, modify, query, M,
}
use bondsman.Arm.Loops.{thirty_minutes_ms, assert_challenge_window}
use bondsman.Arm.Logic.{Gives, Gives->>=, Gives-after, Gives-map, Gives-ok, Gives-self}
use bondsman.Arm.Polls.{IsReady, outward-Gives, ready-Gives}
use bondsman.Arm.Request.{
  Deployed, ArmRequest, Armed, SeedInvoice, is_duplicate_claim, armed_action, ready,
}
use bondsman.Arm.Once.{begin_new, store_armed, answer, complete, arm_once}

module _ {S : Type 0} (outside : Outside S) where
  -- What is answered: the action as the table has it, ready on the chain.
  abbrev pub IsArmed : Deployed → ArmRequest → ℕ → Armed → World S → Type 0
  IsArmed deployed request started_at armed w =
      (a : ActionRecord) × (raw : RawAction) × ((armed.detail ≡ some a)
        × (action a.action_id w.db ≡ some a)
        × IsReady outside a.action_id raw
        × (a.status ≡ "Executed")
        × (a.challenger ≡ none)
        × (a.bond_posted ≡ raw.bond_posted)
        × (a.fault_class ≡ some request.fault_class)
        × (a.reserved_for_manual ≡ request.reserved_for_manual)
        × (a.window_end ≡ raw.window_end)
        × (started_at + thirty_minutes_ms ≤ a.window_end))

  -- From the reading of the clock on: the transaction that initiates the action, where none is pending,
  -- and what follows it.
  abbrev pub initiated_and_completed :
      Deployed → ArmRequest → Bool → ℕ → String → SeedInvoice → ℕ → M S Armed
  initiated_and_completed deployed request is_pending action_id reasoning invoice started_at =
      (if is_pending
        then pure none
        else begin_new outside deployed request invoice action_id reasoning)
      >>= λ initiated.
          complete outside deployed request action_id reasoning invoice started_at initiated

  -- The answer is that of the steps that ran from the world in which the clock was just read.
  abbrev pub IsStarted : Deployed → ArmRequest → ℕ → Armed → World S → Type 0
  IsStarted deployed request started_at armed w =
      (before : World S) × (began : World S) × (is_pending : Bool) × (action_id : ℕ)
      × (reasoning : String) × (invoice : SeedInvoice) × ((ask outside.now before
            ≡ (ok started_at, began))
          × (initiated_and_completed deployed request is_pending action_id reasoning invoice
                started_at began
              ≡ (ok armed, w)))

  window-Gives :
      (started_at : ℕ) (raw : RawAction) (w : World S)
      → Gives
          (λ _ (u : World S). started_at + thirty_minutes_ms ≤ raw.window_end)
          (assert_challenge_window outside started_at raw.window_end w)
  unfolding assert_challenge_window pure throw
  window-Gives started_at raw w = cases (ltb raw.window_end (started_at + thirty_minutes_ms)) refl
    where
      cases :
          (b : Bool)
          → ltb raw.window_end (started_at + thirty_minutes_ms) ≡ b
          → Gives
              (λ _ (u : World S). started_at + thirty_minutes_ms ≤ raw.window_end)
              ((if b
                  then throw (plain "armed action challenge window is under thirty minutes")
                  else pure tt)
                w)
      cases true e = tt
      cases false e = ground arith

  store-Gives :
      (deployed : Deployed) (request : ArmRequest) (action_id : ℕ) (reasoning : String)
      (invoice : SeedInvoice) (raw : RawAction) (transactions : List (String × String))
      (w : World S)
      → Gives
          (λ _ (u : World S).
            action action_id u.db
            ≡ some (
                stored
                  (armed_action outside deployed request action_id reasoning raw transactions)))
          (store_armed outside deployed request action_id reasoning invoice raw transactions w)
  unfolding store_armed modify armed_action
  store-Gives deployed request action_id reasoning invoice raw transactions w =
      let a = armed_action outside deployed request action_id reasoning raw transactions in
      Gives->>= (λ _ (u : World S). Unit {0}) _ _ _ w tt
        λ _ u _.
          Gives->>= (λ _ (v : World S). v.db ≡ upsert_action a u.db) _ _ _ u refl
            λ _ v is.
              Gives-map _ _ (outward (outside.persist_run action_id) v)
                (outward-Gives outside (outside.persist_run action_id) v)
                λ _ last (_, kept).
                  let here : action action_id (upsert_action a u.db) ≡ some (stored a) =
                    rw (action-upsert_action a action_id u.db, same_refl action_id) refl in
                  rw (kept, is) here

  answer-Gives :
      (deployed : Deployed) (request : ArmRequest) (action_id : ℕ) (invoice : SeedInvoice)
      (w : World S)
      → Gives
          (λ armed (u : World S). (armed.detail ≡ action action_id w.db) × (u.db ≡ w.db))
          (answer outside deployed request action_id invoice w)
  unfolding answer query pure ask ◌>>=◌
  answer-Gives deployed request action_id invoice w =
      elim (Bool-cases (is_duplicate_claim request.fault_class)) [
        | inl same ↦ rw same (refl, refl)
        | inr other ↦ rw other (refl, refl)
      ]

  -- From the writing of the action on.
  finish-Gives :
      (deployed : Deployed) (request : ArmRequest) (action_id : ℕ) (reasoning : String)
      (invoice : SeedInvoice) (raw : RawAction) (started_at : ℕ)
      (transactions : List (String × String)) (w : World S)
      → IsReady outside action_id raw
      → started_at + thirty_minutes_ms ≤ raw.window_end
      → Gives (IsArmed deployed request started_at) (
          (store_armed outside deployed request action_id reasoning invoice raw transactions
              >> (ready outside deployed request 1 action_id
                  >> answer outside deployed request action_id invoice))
            w)
  unfolding armed_action
  finish-Gives deployed request action_id reasoning invoice raw started_at transactions w is long =
      let a = stored (armed_action outside deployed request action_id reasoning raw transactions) in
      Gives->>= _ _ _ _ w
        (store-Gives deployed request action_id reasoning invoice raw transactions w)
        λ _ v saved.
          Gives->>= _ _ _ _ v (ready-Gives outside deployed request 1 action_id v) λ _ u (_, kept).
            Gives-map _ _ (answer outside deployed request action_id invoice u)
              (answer-Gives deployed request action_id invoice u)
              λ armed last (detail, still). (
                a,
                raw,
                (
                  detail ∙ rw kept saved,
                  rw (still, kept) saved,
                  is,
                  is.1,
                  refl,
                  refl,
                  refl,
                  refl,
                  refl,
                  long,
                ),
              )

  complete-Gives :
      (deployed : Deployed) (request : ArmRequest) (action_id : ℕ) (reasoning : String)
      (invoice : SeedInvoice) (started_at : ℕ) (initiated : Option String) (w : World S)
      → Gives
          (IsArmed deployed request started_at)
          (complete outside deployed request action_id reasoning invoice started_at initiated w)
  unfolding complete
  complete-Gives deployed request action_id reasoning invoice started_at initiated w =
      Gives-after _ _ _ w λ first w1. Gives-after _ _ _ w1 λ bonded w2.
        Gives-after _ _ _ w2 λ executed w3.
          Gives->>= _ _ _ _ w3 (ready-Gives outside deployed request 15 action_id w3)
            λ raw w4 (is, same). Gives->>= _ _ _ _ w4 (window-Gives started_at raw w4) λ _ w5 long.
              Gives-after _ _ _ w5 λ _ w6.
                finish-Gives deployed request action_id reasoning invoice raw started_at _ w6 is
                  long

  asked-Gives :
      (w : World S)
      → Gives (λ started_at u. ask outside.now w ≡ (ok started_at, u)) (ask outside.now w)
  unfolding ask
  asked-Gives w = refl

  arm_once-Gives :
      (deployed : Deployed) (request : ArmRequest) (w : World S)
      → Gives
          (λ armed last.
            (started_at : ℕ) × (IsStarted deployed request started_at armed last
              × IsArmed deployed request started_at armed last))
          (arm_once outside deployed request w)
  unfolding arm_once
  arm_once-Gives deployed request w0 = Gives-after _ _ _ w0 λ _ w1. Gives-after _ _ _ w1 λ _ w2.
      Gives-after _ _ _ w2 λ _ w3. Gives-after _ _ _ w3 λ views w4.
        Gives-after _ _ _ w4 λ cursor w5. Gives-after _ _ _ w5 λ pending w6.
          Gives-after _ _ _ w6 λ _ w7. Gives-after _ _ _ w7 λ invoice w8.
            Gives-after _ _ _ w8 λ _ w9. Gives-after _ _ _ w9 λ reasoning w10.
              Gives->>= (λ started_at w11. ask outside.now w10 ≡ (ok started_at, w11)) _ _ _ w10
                (asked-Gives w10)
                λ started_at w11 read.
                  Gives-self (IsArmed deployed request started_at)
                    (λ armed last.
                      (t : ℕ) × (IsStarted deployed request t armed last
                        × IsArmed deployed request t armed last))
                    _
                    (Gives-after _ _ _ w11 λ initiated w12.
                      complete-Gives deployed request _ reasoning invoice started_at initiated w12)
                    λ armed last is armed_is.
                      (started_at, ((w10, w11, _, _, reasoning, invoice, (read, is)), armed_is))

  -- An arming that gives an answer gives the action as the table holds it then, unchallenged and
  -- executed, of the class of fault and the reservation that were asked for, with the bond and the
  -- window that the chain reported for it when it was executed and without a challenger; the window
  -- is at least 30 minutes from the time that the clock showed when it was read just before the
  -- steps that initiate, bond and execute the action ran to this answer.
  pub arm_once-IsArmed :
      (deployed : Deployed) (request : ArmRequest) (w last : World S) (armed : Armed)
      → arm_once outside deployed request w ≡ (ok armed, last)
      → (started_at : ℕ) × (IsStarted deployed request started_at armed last
          × IsArmed deployed request started_at armed last)
  arm_once-IsArmed deployed request w last armed h =
      Gives-ok
        (λ armed last.
          (started_at : ℕ) × (IsStarted deployed request started_at armed last
            × IsArmed deployed request started_at armed last))
        _ armed last (arm_once-Gives deployed request w) h
