-- ===== src/Repository/Projection.antt =====
-- The remaining tables: `setSystemState`, `systemState`, `setReputation`, `reputation`,
-- `setReserve`, `reserve`, `cacheProof`, `proof`, `cacheReceipt` and `receipt`.
use mathlib.Core.Option
use bondsman.Common.{ℕ, String, Option, some, or_default, string_eq, pair_eq, nat_eq}
use bondsman.Common.Int.{ℤ}
use bondsman.Common.Json.{Json}
use bondsman.Common.Table.{lookup, upsert}
use bondsman.Repository.Tables.{ReputationRow, StateRow, Database}

unfoldable pub set_system_state : String → Json → ℕ → Database → Database
set_system_state key value now db = record db {
  system_state = upsert key (λ _. record { value_json = value; updated_at = now }) db.system_state;
}

unfoldable pub system_state : String → Database → Option StateRow
system_state key db = lookup key db.system_state

unfoldable pub set_reputation : String → ℕ → ℕ → ℤ → Database → Database
set_reputation agent clean slashed score db = record db {
  agent_reputation =
      upsert agent (λ _. record { clean = clean; slashed = slashed; score = score })
        db.agent_reputation;
}

unfoldable pub reputation : String → Database → Option ReputationRow
reputation agent db = lookup agent db.agent_reputation

unfoldable pub set_reserve : String → Database → Database
set_reserve balance db = record db { reserve = some balance }

-- `row?.balance ?? '0'`
unfoldable pub reserve : Database → String
reserve db = or_default db.reserve "0"

unfoldable pub cache_proof : String → ℕ → Json → ℕ → Database → Database
cache_proof controller_hash action_id proof now db = record db {
  proof_cache =
      upsert (controller_hash, action_id) (λ _. record { document = proof; written_at = now })
        db.proof_cache;
}

unfoldable pub proof : String → ℕ → Database → Option Json
proof controller_hash action_id db =
    Option.map (λ row. row.document) (lookup (controller_hash, action_id) db.proof_cache)

unfoldable pub cache_receipt : String → ℕ → Json → ℕ → Database → Database
cache_receipt controller_hash action_id receipt now db = record db {
  signed_receipts =
      upsert (controller_hash, action_id) (λ _. record { document = receipt; written_at = now })
        db.signed_receipts;
}

unfoldable pub receipt : String → ℕ → Database → Option Json
receipt controller_hash action_id db =
    Option.map (λ row. row.document) (lookup (controller_hash, action_id) db.signed_receipts)
