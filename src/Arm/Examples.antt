-- ===== src/Arm/Examples.antt =====
-- A chain with one action, whose state is how far that action has come, and a request that arms it.
use bondsman.Common.{
  ◌+◌, ◌≤◌, String, true, none, some, List, [], ◌∷◌, ◌≡◌, refl, ℕ, zero, suc, ◌++◌, ◌<◌, arith,
}
use bondsman.Common.Decimal.{big_int, positive_big_int}
use bondsman.Common.Table.{lookup, upsert}
use bondsman.Attestation.Hex.{hex_text, hex_digit, hex_letter}
use bondsman.Policy.{duplicate_claim}
use bondsman.Repository.Records.{ActionRecord}
use bondsman.Repository.Tables.{empty_database}
use bondsman.Repository.Actions.{action, upsert_action, upsert_invoice, list_actions}
use bondsman.Arm.{
  Outcome, ok, err, plain, ArmSigner, Call, initiate_action, post_bond, execute_action, RawAction,
  Outside, World, ◌>>=◌, pure, throw, attempt, handled, ask, outward, write, modify, query, number,
  number_of,
}
use bondsman.Arm.Failures.{is_transient_rpc_error, is_rate_limited_error}
use bondsman.Arm.Logic.{started}
use bondsman.Arm.Loops.{
  projected_action_views, next_free, probe_from, resolve_action_cursor, select_from,
  select_resumable_pending, assert_challenge_window, is_open, ready_round, found_or, poll,
  poll_arm_readiness,
}
use bondsman.Arm.Steps.{
  transact, step_ended, ensure_token_target, ensure_invoice, invoice_exists, initiate,
  ensure_allowance, confirm_step, ensure_bond, ensure_executed,
}
use bondsman.Arm.Request.{
  Deployed, ArmRequest, Armed, SeedInvoice, check_version, check_key, has_key, find_pending,
  invoice_for, reasoning_for, ready, armed_action, paid_invoice, invoice_call, purchase_order_hash,
  bytes_hex, digit_runs,
}
use bondsman.Arm.Once.{begin_new, store_armed, answer, complete, arm_once}
use bondsman.Arm.Service.{serve, Asked}
use bondsman.Arm.Served.{serve-bounds}
use bondsman.Arm.Cursor.{views, resolve_action_cursor_finds}
use bondsman.Arm.Ready.{IsArmed, IsStarted, arm_once-IsArmed}

-- How far the action has come.
data Phase : Type 0 where
  absent initiated bonded executed : Phase

abbrev raw : String → RawAction
raw status = record {
  invoice_id = 1;
  claim_hash = "[12]";
  amount = "100";
  reasoning_hash = "r";
  bond_required = "5";
  bond_posted = "5";
  window_end = 9_000_000;
  status = status;
  challenger = "None";
}

abbrev seen : Phase → Outcome RawAction × Phase
seen absent = (err (plain "not found"), absent)
seen initiated = (ok (raw "Initiated"), initiated)
seen bonded = (ok (raw "Bonded"), bonded)
seen executed = (ok (raw "Executed"), executed)

abbrev sent : Call → Phase → Outcome String × Phase
sent (initiate_action _ _ _ _) s = (ok "tx-1", initiated)
sent (post_bond _) s = (ok "tx-2", bonded)
sent (execute_action _) s = (ok "tx-3", executed)
sent _ s = (ok "tx-0", s)

abbrev outside : Outside Phase
outside = record {
  now = λ s. (1_000, s);
  sleep = λ _ s. s;
  random_hex = λ s. ("ab", s);
  call_contract = sent;
  read_action = λ _ s. seen s;
  read_invoice_paid = λ _ s. (ok true, s);
  read_balance = λ _ s. (ok "900000000000000", s);
  read_allowance = λ s. (ok "7", s);
  read_duplicate = λ _ s. (ok "true", s);
  agent_motes = λ s. (ok 400_000_000_000, s);
  deployer_motes = λ s. (ok 400_000_000_000, s);
  transfer = λ _ s. (ok tt, s);
  persist_run = λ _ s. (ok tt, s);
}

abbrev signer : ArmSigner
signer = record { role = "agent"; account = "agent" }

abbrev invoice : SeedInvoice
invoice = record {
  id = 2_045;
  invoice_number = "GBX-8871";
  debtor = "Globex Manufacturing";
  amount = "100";
  vendor = "v";
  due_date = "2020-01-01";
  delivered = true;
  claim_hash = "0c";
}

abbrev deployed : Deployed
deployed = record {
  v2_enabled = true;
  deployer = signer;
  agent = signer;
  pool_address = "pool";
  vendor = "v";
  controller_hash = "h";
  collision = invoice;
  cached_decision = "approve";
  cached_reasoning = "fine";
  base64 = λ _. [];
  blake2b256 = λ text. text;
}

abbrev request : ArmRequest
request = record {
  reserved_for_manual = true;
  requested_invoice_id = 1;
  fault_class = duplicate_claim;
  amount = none;
  buyer_public_key = none;
  event_type = none;
}

abbrev start : World Phase
start = record { outer = absent; log = []; db = empty_database }

serve-bounds_example :
    let after = (serve outside deployed request start).1 in
    (started "initiate_action" after.log ≤ 0 + 4)
    × (started "submit_invoice" after.log ≤ 0 + 2)
    × (started "approve" after.log ≤ 0 + 2)
    × (started "post_bond" after.log ≤ 0 + 2)
    × (started "execute_action" after.log ≤ 0 + 2)
serve-bounds_example = serve-bounds outside deployed request start

abbrev calls : List Asked
calls = record { now = 50; request = request } ∷ record { now = 20; request = request } ∷ []

abbrev stored_action : ActionRecord
stored_action =
    armed_action outside deployed request 0 "fine" (raw "Executed")
      (("initiate", "tx-1") ∷ ("postBond", "tx-2") ∷ ("execute", "tx-3") ∷ [])

abbrev armed : Armed
armed = record { detail = some stored_action; attestation = none }

run :
    arm_once outside deployed request start
    ≡ (ok armed, (arm_once outside deployed request start).1)
unfolding bytes_hex digit_runs hex_text hex_digit hex_letter arm_once check_version check_key
    has_key find_pending invoice_for reasoning_for ready armed_action paid_invoice invoice_call
    purchase_order_hash begin_new store_armed answer complete projected_action_views list_actions
    next_free probe_from resolve_action_cursor select_from select_resumable_pending
    assert_challenge_window is_open ready_round found_or poll poll_arm_readiness transact step_ended
    ensure_token_target ensure_invoice invoice_exists initiate ensure_allowance confirm_step
    ensure_bond ensure_executed is_transient_rpc_error ◌>>=◌ pure throw attempt handled ask outward
    write modify query number number_of big_int positive_big_int action upsert_action upsert_invoice
    lookup upsert
run = refl

arm_once-IsArmed_example :
    (started_at : ℕ) × (IsStarted outside deployed request started_at armed
        (arm_once outside deployed request start).1
      × IsArmed outside deployed request started_at armed
          (arm_once outside deployed request start).1)
arm_once-IsArmed_example =
    arm_once-IsArmed outside deployed request start (arm_once outside deployed request start).1
      armed run

-- One action is on the chain and not in the projection.
abbrev one_action : ℕ → Outcome RawAction
one_action zero = ok (raw "Executed")
one_action (suc _) = err (plain "not found")

abbrev reader : Outside Phase
reader = record outside { read_action = λ id s. (one_action id, s) }

one_found :
    (i : ℕ)
    → 0 ≤ i
    → i < 0 + 1
    → ◌≡◌ {A = Outcome RawAction × Phase} (one_action i, absent) (ok (raw "Executed"), absent)
one_found zero lo hi = refl
one_found (suc i) lo hi = absurd (omega arith)

resolve_action_cursor_finds_example :
    resolve_action_cursor reader [] start
    ≡ (ok ([] ++ views (λ _. raw "Executed") 1 (next_free []), next_free [] + 1), start)
unfolding next_free is_transient_rpc_error is_rate_limited_error
resolve_action_cursor_finds_example =
    resolve_action_cursor_finds reader (λ _. raw "Executed") (plain "not found") 1 [] start
      (omega arith) one_found refl refl
