-- ===== src/Evidence.antt =====
-- The checksum of evidence, `stableJson` and `checksum` of `backend/src/evidence/replay.ts`. The order of
-- texts of `localeCompare`, the text of `JSON.stringify` and BLAKE2b are arguments. No key of an object is
-- an array index: those an engine puts first, whatever their order.
pub mod Same
pub mod Stable
mod Examples
use Prim.Native.String.{◌++◌}
use bondsman.Common.{ℕ, String, Bool, true, false, List, take, if◌then◌else◌}
use bondsman.Common.Json.{
  Json, Items, Fields, null, bool, num, str, arr, obj, nil, cons, end, field,
}
use bondsman.Attestation.Hex.{hex_text}

-- The order of keys comes first: whether a key need not go behind another.
unfoldable pub insert_field : (String → String → Bool) → String → Json → Fields → Fields
insert_field before k v end = field k v end
insert_field before k v (field j w rest) =
    let later = insert_field before k v rest in
    if before k j then field k v (field j w rest) else field j w later

unfoldable mutual
  unfolding insert_field

  pub sort_value : (String → String → Bool) → Json → Json
  sort_value before (arr items) = arr (sort_items before items)
  sort_value before (obj fields) = obj (sort_fields before fields)
  sort_value before value = value

  pub sort_items : (String → String → Bool) → Items → Items
  sort_items before nil = nil
  sort_items before (cons value rest) = cons (sort_value before value) (sort_items before rest)

  pub sort_fields : (String → String → Bool) → Fields → Fields
  sort_fields before end = end
  sort_fields before (field k v rest) =
      insert_field before k (sort_value before v) (sort_fields before rest)

module _ (before : String → String → Bool) (json_stringify : Json → String) where
  unfoldable pub stable_json : Json → String
  unfolding sort_value
  stable_json value = json_stringify (sort_value before value)

  -- 64 digits are 32 bytes.
  unfoldable pub checksum : (String → List ℕ) → Json → String
  unfolding stable_json hex_text
  checksum blake2b512 value = "0x" ++ hex_text (take 32 (blake2b512 (stable_json value)))
