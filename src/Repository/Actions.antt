-- ===== src/Repository/Actions.antt =====
-- Invoices and actions: `upsertInvoice`, `listInvoices`, `upsertAction`, `listActions`, `action` and
-- `expiredCleanActions` of the repository.
pub mod Stored
use bondsman.Common.{
  ℕ, String, Bool, true, false, not, ◌&&◌, Option, none, some, List, [], ◌∷◌, map, ◌==◌, nat_eq,
  string_eq, leb, ltb, or_default, if◌then◌else◌, filter,
}
use mathlib.Core.Option
use bondsman.Common.Sort.{sort_by}
use bondsman.Common.Table.{Table, lookup, upsert}
use bondsman.Policy.{duplicate_claim}
use bondsman.Repository.Records.{InvoiceRecord, ActionRecord}
use bondsman.Repository.Tables.{InvoiceRow, ActionRow, Database}

-- `Number(flag)`
abbrev pub to_number : Bool → ℕ
to_number true = 1
to_number false = 0

-- `Boolean(column)`
abbrev pub to_bool : ℕ → Bool
to_bool n = not (n == 0)

-- `ORDER BY key`
abbrev pub by_key {ℓ} : {V : Type ℓ} → ℕ × V → ℕ × V → Bool
by_key p q = leb p.0 q.0

abbrev pub invoice_from_row : ℕ × InvoiceRow → InvoiceRecord
invoice_from_row (id, row) = record {
  id = id;
  invoice_number = row.invoice_number;
  debtor = row.debtor;
  amount = row.amount;
  vendor = row.vendor;
  due_date = row.due_date;
  delivered = to_bool row.delivered;
  claim_hash = row.claim_hash;
  paid = to_bool row.paid;
}

abbrev invoice_row : InvoiceRecord → InvoiceRow
invoice_row invoice = record {
  invoice_number = invoice.invoice_number;
  debtor = invoice.debtor;
  amount = invoice.amount;
  vendor = invoice.vendor;
  due_date = invoice.due_date;
  delivered = to_number invoice.delivered;
  claim_hash = invoice.claim_hash;
  paid = to_number invoice.paid;
}

unfoldable pub upsert_invoice : InvoiceRecord → Database → Database
upsert_invoice invoice db = record db {
  invoices = upsert invoice.id (λ _. invoice_row invoice) db.invoices;
}

unfoldable pub list_invoices : Database → List InvoiceRecord
list_invoices db = map invoice_from_row (sort_by by_key db.invoices)

abbrev pub action_from_row : ℕ × ActionRow → ActionRecord
action_from_row (action_id, row) = record {
  action_id = action_id;
  invoice_id = row.invoice_id;
  agent = row.agent;
  amount = row.amount;
  claim_hash = row.claim_hash;
  reasoning = row.reasoning;
  reasoning_hash = row.reasoning_hash;
  bond_required = row.bond_required;
  bond_posted = row.bond_posted;
  window_end = row.window_end;
  status = row.status;
  challenger = row.challenger;
  challenger_type = row.challenger_type;
  challenge_signing = row.challenge_signing;
  controller_hash = some row.controller_hash;
  duplicate_proven = some (to_bool row.duplicate_proven);
  fault_class = some row.fault_class;
  evidence_root = row.evidence_root;
  reserved_for_manual = to_bool row.reserved_for_manual;
  transactions = row.transactions_json;
}

-- The values that `upsertAction` binds, with the defaults for what is absent.
abbrev action_row : ActionRecord → ActionRow
action_row action = record {
  invoice_id = action.invoice_id;
  agent = action.agent;
  amount = action.amount;
  claim_hash = action.claim_hash;
  reasoning = action.reasoning;
  reasoning_hash = action.reasoning_hash;
  bond_required = action.bond_required;
  bond_posted = action.bond_posted;
  window_end = action.window_end;
  status = action.status;
  challenger = action.challenger;
  challenger_type = action.challenger_type;
  challenge_signing = action.challenge_signing;
  controller_hash = or_default action.controller_hash "";
  duplicate_proven = to_number (or_default action.duplicate_proven false);
  fault_class = or_default action.fault_class duplicate_claim;
  evidence_root = action.evidence_root;
  reserved_for_manual = to_number action.reserved_for_manual;
  transactions_json = action.transactions;
}

unfoldable pub upsert_action : ActionRecord → Database → Database
upsert_action action db = record db {
  actions = upsert action.action_id (λ _. action_row action) db.actions;
}

unfoldable pub list_actions : Database → List ActionRecord
list_actions db = map action_from_row (sort_by by_key db.actions)

unfoldable pub action : ℕ → Database → Option ActionRecord
action action_id db =
    Option.map (λ row. action_from_row (action_id, row)) (lookup action_id db.actions)

-- `WHERE status = 'Executed' AND window_end < ?`
unfoldable pub expired_clean_actions : ℕ → Database → List ℕ
expired_clean_actions now db =
    map (λ e. e.0)
      (filter (λ (e : ℕ × ActionRow). e.1.status == "Executed" && ltb e.1.window_end now)
        db.actions)
