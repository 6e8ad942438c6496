-- ===== src/Repository/Examples.antt =====
-- The repository's statements on small tables.
use bondsman.Common.{ℕ, true, false, Option, none, some, [], ◌∷◌, ◌≡◌, refl, nat_eq, string_eq}
use bondsman.Common.Json.{end}
use bondsman.Common.Table.{lookup, update}
use bondsman.Repository.Records.{ActionRecord, goods_not_received}
use bondsman.Repository.Tables.{Database, empty_database, done, AttestationRow}
use bondsman.Repository.Actions.{upsert_action}
use bondsman.Repository.Evidence.{use_delivery_evidence}

-- A record that leaves out what the code may leave out.
abbrev bare : ActionRecord
bare = record {
  action_id = 7;
  invoice_id = 1;
  agent = "account-hash-a";
  amount = "5";
  claim_hash = "c1";
  reasoning = "";
  reasoning_hash = "";
  bond_required = "1";
  bond_posted = "1";
  window_end = 100;
  status = "Executed";
  challenger = none;
  challenger_type = none;
  challenge_signing = none;
  controller_hash = none;
  duplicate_proven = none;
  fault_class = none;
  evidence_root = none;
  reserved_for_manual = false;
  transactions = ("execute", "tx") ∷ [];
}

abbrev one_action : Database
one_action = upsert_action bare empty_database

abbrev attestation : Option ℕ → AttestationRow
attestation used = record {
  invoice_id = 1;
  action_id = some 7;
  event_type = goods_not_received;
  occurred_at = 3;
  buyer_public_key = "k";
  signature = "s";
  payload_json = end;
  received_at = 4;
  used_action_id = used;
}

abbrev attested : Option ℕ → Database
attested used = record empty_database {
  delivery_attestations = ("0xr", attestation used) ∷ ("0xs", attestation none) ∷ [];
}

use_first : use_delivery_evidence "0xr" 7 (attested none) ≡ done (true, attested (some 7))
unfolding use_delivery_evidence lookup update
use_first = refl
