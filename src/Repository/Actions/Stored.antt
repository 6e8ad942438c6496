-- ===== src/Repository/Actions/Stored.antt =====
-- What is read back from the tables of invoices and actions.
use bondsman.Common.{
  ℕ, Bool, true, false, ◌&&◌, ◌≡◌, ◌↔◌, refl, Option, none, some, ◌==◌, nat_eq, string_eq, ltb,
  or_default, if◌then◌else◌, any, arith, any-map, any-filter, eq_iff, ap, ◌∙◌, some-eq, ◌<◌,
}
use bondsman.Common.Table.{IsKeyed, lookup, lookup-upsert, found, any-lookup}
use bondsman.Common.Sort.{any-sort_by}
use mathlib.Core.Option
use bondsman.Policy.{duplicate_claim}
use bondsman.Repository.Records.{ActionRecord}
use bondsman.Repository.Tables.{ActionRow, Database}
use bondsman.Repository.Actions.{
  action, upsert_action, list_actions, action_from_row, expired_clean_actions,
}

-- A record as it comes back: what was absent has its default.
abbrev pub stored : ActionRecord → ActionRecord
stored a = record a {
  controller_hash = some (or_default a.controller_hash "");
  duplicate_proven = some (or_default a.duplicate_proven false);
  fault_class = some (or_default a.fault_class duplicate_claim);
}

-- An action that is written is read back whole, with the defaults for what was absent; every other
-- action is left as it was.
pub action-upsert_action :
    (a : ActionRecord) (j : ℕ) (db : Database)
    → action j (upsert_action a db) ≡ (if a.action_id == j then some (stored a) else action j db)
unfolding action upsert_action
action-upsert_action a j db = rw lookup-upsert (ground arith)

expired_iff :
    (now k : ℕ) (o : Option ActionRow)
    → (found (λ (e : ℕ × ActionRow). e.1.status == "Executed" && ltb e.1.window_end now) k o ≡ true)
      ↔ ((a : ActionRecord) × (Option.map (λ row. action_from_row (k, row)) o ≡ some a)
          × (a.status ≡ "Executed")
          × (a.window_end < now))
expired_iff now k none = (λ h. cc, λ h. cc (h.1))
expired_iff now k (some row) = (
  λ h. (
    action_from_row (k, row),
    refl,
    ground (arith, eq_iff row.status "Executed"),
    ground (arith, eq_iff row.status "Executed"),
  ),
  λ h.
      let e : action_from_row (k, row) ≡ h.0 = some-eq h.1 in
      let s : row.status ≡ "Executed" = ap (λ (a : ActionRecord). a.status) e ∙ h.2 in
      let w : row.window_end ≡ h.0.window_end = ap (λ (a : ActionRecord). a.window_end) e in
      let late = h.3 in ground (arith, eq_iff row.status "Executed"),
)

-- Whether there is an action and it passes the test.
abbrev pub some_passes : (ActionRecord → Bool) → Option ActionRecord → Bool
some_passes p none = false
some_passes p (some a) = p a

found_passes :
    (p : ActionRecord → Bool) (k : ℕ) (o : Option ActionRow)
    → found (λ e. p (action_from_row e)) k o
      ≡ some_passes p (Option.map (λ row. action_from_row (k, row)) o)
found_passes p k none = refl
found_passes p k (some row) = refl

-- The listener is handed exactly the stored actions that are `Executed` and whose window closed
-- before the given time.
pub expired_clean_actions_exact :
    (now k : ℕ) (db : Database)
    → IsKeyed db.actions
    → (any (λ j. j == k) (expired_clean_actions now db) ≡ true) ↔ (
        (a : ActionRecord) × (action k db ≡ some a)
        × (a.status ≡ "Executed")
        × (a.window_end < now))
unfolding expired_clean_actions action
expired_clean_actions_exact now k db keyed =
    let listed =
      any-lookup (λ (e : ℕ × ActionRow). e.1.status == "Executed" && ltb e.1.window_end now) k
        db.actions keyed in
    rw (any-map, any-filter, listed) (expired_iff now k (lookup k db.actions))

-- An action stands in the list of all actions exactly when it is found by its number.
pub any-list_actions :
    (p : ActionRecord → Bool) (k : ℕ) (db : Database)
    → IsKeyed db.actions
    → any (λ a. a.action_id == k && p a) (list_actions db) ≡ some_passes p (action k db)
unfolding list_actions action
any-list_actions p k db keyed =
    rw (any-map, any-sort_by)
      (any-lookup (λ e. p (action_from_row e)) k db.actions keyed
        ∙ found_passes p k (lookup k db.actions))
