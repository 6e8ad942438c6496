-- ===== src/Reconcile/ExpiryExamples.antt =====
-- Runs of `reconcileChain` and `resolveExpiredClean` on a chain with one executed action.
use bondsman.Common.{
  ℕ, ◌+◌, String, true, false, none, some, List, [], ◌∷◌, ◌≡◌, refl, string_eq, nat_eq,
}
use bondsman.Common.Int.{pos}
use bondsman.Common.Decimal.{to_text, big_int}
use bondsman.Policy.{duplicate_claim}
use bondsman.Arm.{ok, err, plain, World, pure}
use bondsman.Arm.Logic.{Gives}
use bondsman.Repository.Records.{ActionRecord}
use bondsman.Repository.Tables.{empty_database}
use bondsman.Repository.Actions.{upsert_action}
use bondsman.Repository.Projection.{set_system_state}
use bondsman.Reconcile.Chain.{ChainAction}
use bondsman.Reconcile.Refresh.{Reads, Deployment, refresh_action}
use bondsman.Reconcile.Row.{Refreshed, refresh_action-Refreshed}
use bondsman.Reconcile.Expiry.{Dates, Chain, Sweep, end_state, state_key, sweep}
use bondsman.Common.Json.{Json}
use bondsman.Reconcile.Justified.{Call, traced, is_justified, sweep-is_justified}

abbrev executed : ChainAction
executed = record {
  agent = "agent";
  invoice_id = 1;
  claim_hash = "[1]";
  amount = "100";
  reasoning_hash = "[2]";
  bond_required = "5";
  bond_posted = "5";
  window_end = 50;
  status = "Executed";
  challenger = "None";
  fault_class = none;
  evidence_root = none;
}

abbrev deployment : Deployment
deployment = record {
  is_v2 = true;
  controller_hash = "hash-c";
  contracts = record { token = "T"; vault = "V"; controller = "C"; pool = "P" };
  accounts = record { watchdog_hash = "aa"; challenger_hash = "bb" };
}

abbrev reads : Reads ℕ
reads = record {
  now = λ s. (s, s + 1);
  read_events = λ c s. (ok [], s);
  read_action = λ id s. (ok executed, s);
  read_duplicate = λ id s. (ok "false", s);
  read_reputation = λ a s. (ok (record { clean = 1; slashed = 0; score = pos 10 }), s);
  read_reserve = λ s. (ok "0", s);
  to_iso_string = to_text;
  blake2b512 = λ bytes. bytes;
  claim_hash = λ debtor number. debtor;
}

abbrev start : World ℕ
start = record { outer = 100; log = []; db = empty_database }

refresh_action-Refreshed_example :
    Gives
      (λ _ w'. Refreshed reads deployment (λ _. none) 4 start w')
      (refresh_action reads deployment (λ _. none) 4 start)
refresh_action-Refreshed_example = refresh_action-Refreshed reads deployment (λ _. none) 4 start

abbrev chain : Chain ℕ
chain = record {
  now = λ s. (s, s + 1);
  read_action = λ id s. (ok executed, s);
  resolve_action = λ id s. (err (plain "insufficient balance"), s);
  reconcile = pure tt;
}

abbrev dates : Dates
dates = record { to_iso_string = to_text; parse = big_int }

abbrev failures : List (ℕ × String)
failures = (4, "Insufficient balance: 1") ∷ []

abbrev after_failure : World ℕ
after_failure = record start {
  db = set_system_state state_key (end_state (to_text 40) failures) 41 empty_database;
}

abbrev local : ActionRecord
local = record {
  action_id = 4;
  invoice_id = 1;
  agent = "agent";
  amount = "100";
  claim_hash = "";
  reasoning = "";
  reasoning_hash = "";
  bond_required = "5";
  bond_posted = "5";
  window_end = 50;
  status = "Executed";
  challenger = none;
  challenger_type = none;
  challenge_signing = none;
  controller_hash = some "hash-c";
  duplicate_proven = some false;
  fault_class = some duplicate_claim;
  evidence_root = none;
  reserved_for_manual = false;
  transactions = [];
}

abbrev nothing_yet : Sweep
nothing_yet = record { hashes = []; failures = [] }

abbrev traced_start : World (ℕ × List Call)
traced_start = record { outer = (100, []); log = []; db = upsert_action local empty_database }

sweep-is_justified_example :
    is_justified (sweep (traced chain) dates (4 ∷ []) nothing_yet traced_start).1.outer.1 ≡ true
sweep-is_justified_example = sweep-is_justified chain dates (4 ∷ []) nothing_yet traced_start refl
