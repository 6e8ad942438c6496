-- ===== src/Repository/Evidence.antt =====
-- Delivery attestations: `upsertDeliveryAttestation`, `deliveryAttestationForAction`,
-- `useDeliveryEvidence` and `releaseDeliveryEvidence`, with the unique column `used_action_id`.
pub mod Binding
use bondsman.Common.{
  ℕ, String, Bool, true, false, not, ◌&&◌, ◌||◌, Option, none, some, List, [], ◌∷◌, ◌==◌, nat_eq,
  string_eq, leb, if◌then◌else◌, any, filter,
}
use bondsman.Common.Sort.{sort_by}
use bondsman.Common.Table.{Table, lookup, upsert, update}
use bondsman.Repository.Records.{DeliveryAttestationRecord}
use bondsman.Repository.Tables.{AttestationRow, Database, Sql, done, constraint_failed}

abbrev pub attestation_from_row : String × AttestationRow → DeliveryAttestationRecord
attestation_from_row (evidence_root, row) = record {
  evidence_root = evidence_root;
  invoice_id = row.invoice_id;
  action_id = row.action_id;
  event_type = row.event_type;
  occurred_at = row.occurred_at;
  buyer_public_key = row.buyer_public_key;
  signature = row.signature;
  payload = row.payload_json;
  received_at = row.received_at;
  used_action_id = row.used_action_id;
}

abbrev pub attestation_row : DeliveryAttestationRecord → AttestationRow
attestation_row a = record {
  invoice_id = a.invoice_id;
  action_id = a.action_id;
  event_type = a.event_type;
  occurred_at = a.occurred_at;
  buyer_public_key = a.buyer_public_key;
  signature = a.signature;
  payload_json = a.payload;
  received_at = a.received_at;
  used_action_id = a.used_action_id;
}

-- The invoice of a row that is there is not among the columns that are set.
abbrev pub merge_attestation : DeliveryAttestationRecord → Option AttestationRow → AttestationRow
merge_attestation a none = attestation_row a
merge_attestation a (some old) = record (attestation_row a) { invoice_id = old.invoice_id }

abbrev pub is_action : ℕ → Option ℕ → Bool
is_action action_id none = false
is_action action_id (some a) = a == action_id

-- `used_action_id` of another row
abbrev pub used_elsewhere : Option ℕ → String → Table String AttestationRow → Bool
used_elsewhere none evidence_root t = false
used_elsewhere (some action_id) evidence_root t =
    any (λ e. not (e.0 == evidence_root) && is_action action_id e.1.used_action_id) t

unfoldable pub upsert_delivery_attestation : DeliveryAttestationRecord → Database → Sql Database
upsert_delivery_attestation a db =
    if used_elsewhere a.used_action_id a.evidence_root db.delivery_attestations
    then constraint_failed
    else done (record db {
      delivery_attestations = upsert a.evidence_root (merge_attestation a) db.delivery_attestations;
    })

-- `ORDER BY occurred_at DESC`
abbrev latest_first : String × AttestationRow → String × AttestationRow → Bool
latest_first p q = leb q.1.occurred_at p.1.occurred_at

abbrev from_first : List (String × AttestationRow) → Option DeliveryAttestationRecord
from_first [] = none
from_first (e ∷ es) = some (attestation_from_row e)

unfoldable pub delivery_attestation_for_action : ℕ → Database → Option DeliveryAttestationRecord
delivery_attestation_for_action action_id db = from_first (
    sort_by latest_first (
      filter (λ (e : String × AttestationRow). is_action action_id e.1.action_id)
        db.delivery_attestations))

-- `WHERE ... (used_action_id IS NULL OR used_action_id = ?)`
abbrev pub is_usable : ℕ → AttestationRow → Bool
is_usable action_id row = elim row.used_action_id [ none ↦ true | some a ↦ a == action_id ]

abbrev pub use_row : ℕ → AttestationRow → AttestationRow
use_row action_id row =
    if is_usable action_id row then record row { used_action_id = some action_id } else row

abbrev pub row_usable : ℕ → Option AttestationRow → Bool
row_usable action_id none = false
row_usable action_id (some row) = is_usable action_id row

unfoldable pub use_delivery_evidence : String → ℕ → Database → Sql (Bool × Database)
use_delivery_evidence evidence_root action_id db =
    let usable = row_usable action_id (lookup evidence_root db.delivery_attestations) in
    if usable && used_elsewhere (some action_id) evidence_root db.delivery_attestations
    then constraint_failed
    else done (
      usable,
      record db {
        delivery_attestations = update evidence_root (use_row action_id) db.delivery_attestations;
      },
    )

abbrev pub release_use : ℕ → AttestationRow → AttestationRow
release_use action_id row =
    if is_action action_id row.used_action_id then record row { used_action_id = none } else row

unfoldable pub release_delivery_evidence : String → ℕ → Database → Database
release_delivery_evidence evidence_root action_id db = record db {
  delivery_attestations = update evidence_root (release_use action_id) db.delivery_attestations;
}
