-- ===== src/Evidence/Stable.antt =====
-- The checksum of evidence does not see the order of fields, `backend/src/evidence/replay.ts`.
use mathlib.Core.Quot
use mathlib.Core.Quot.{Quot}
use mathlib.Core.HLevel.{hedberg}
use Prim.Native.String.{◌++◌}
use bondsman.Attestation.Hex.{hex_text}
use bondsman.Common.{
  ℕ, String, take, Bool, true, false, List, ◌≡◌, ◌==◌, string_eq, refl, sym, ◌∙◌, ap, arith,
  Bool-cases, inl, inr,
}
use bondsman.Common.Json.{
  Json, Items, Fields, null, bool, num, str, arr, obj, nil, cons, end, field,
}
use bondsman.Evidence.{insert_field, sort_value, sort_items, sort_fields, stable_json, checksum}
use bondsman.Evidence.Same.{
  Same, SameItems, SameFields, itself, in_order, in_list, in_object, no_item, next_item, no_field,
  next_field, and_then, swapped, swapped_back,
}

-- What sorting needs of the order.
abbrev pub IsTransitive : (String → String → Bool) → Type 0
IsTransitive before = (a b c : String) → before a b ≡ true → before b c ≡ true → before a c ≡ true

module _ (before : String → String → Bool) (trans : IsTransitive before) where
  insert_swap :
      (k j : String) (v w : Json) (fs : Fields)
      → before k j ≡ true
      → before j k ≡ false
      → insert_field before k v (insert_field before j w fs)
        ≡ insert_field before j w (insert_field before k v fs)
  unfolding insert_field
  insert_swap k j v w end kj jk = ground arith
  insert_swap k j v w (field z x rest) kj jk =
      let later = insert_swap k j v w rest kj jk in let through = trans k j z kj in ground arith

  mutual
    unfolding sort_value

    value_stable : {v w : Json} → Same before v w → sort_value before v ≡ sort_value before w
    value_stable (itself v) = refl
    value_stable (in_order a b) = value_stable a ∙ value_stable b
    value_stable (in_list s) = ap arr (items_stable s)
    value_stable (in_object s) = ap obj (fields_stable s)

    items_stable : {v w : Items} → SameItems before v w → sort_items before v ≡ sort_items before w
    items_stable no_item = refl
    items_stable (next_item {w = w} {is = is} a b) =
        ap (λ x. cons x (sort_items before is)) (value_stable a)
        ∙ ap (λ t. cons (sort_value before w) t) (items_stable b)

    fields_stable :
        {v w : Fields} → SameFields before v w → sort_fields before v ≡ sort_fields before w
    fields_stable no_field = refl
    fields_stable (next_field {w = w} {fs = fs} k a b) =
        ap (λ x. insert_field before k x (sort_fields before fs)) (value_stable a)
        ∙ ap (λ t. insert_field before k (sort_value before w) t) (fields_stable b)
    fields_stable (and_then a b) = fields_stable a ∙ fields_stable b
    fields_stable (swapped k j v w rest kj jk) =
        insert_swap k j (sort_value before v) (sort_value before w) (sort_fields before rest) kj jk
    fields_stable (swapped_back k j v w rest kj jk) = sym (
        insert_swap k j (sort_value before v) (sort_value before w) (sort_fields before rest) kj jk)

module _ (before : String → String → Bool) where
  fields_refl : (fs : Fields) → SameFields before fs fs
  fields_refl end = no_field
  fields_refl (field k v rest) = next_field k (itself v) (fields_refl rest)

  insert_field-SameFields :
      (total : (a b : String) → before a b ≡ false → before b a ≡ true) (k : String) (v : Json)
      (fs : Fields)
      → SameFields before (field k v fs) (insert_field before k v fs)
  unfolding insert_field
  insert_field-SameFields total k v end = fields_refl (field k v end)
  insert_field-SameFields total k v (field j w rest) = elim (Bool-cases (before k j)) [
    | inl first ↦ rw first (fields_refl (field k v (field j w rest)))
    | inr behind ↦ rw behind (
        and_then (swapped_back j k w v rest (total k j behind) behind)
          (next_field j (itself w) (insert_field-SameFields total k v rest)))
  ]

  mutual
    unfolding sort_value

    sort_value-Same :
        (total : (a b : String) → before a b ≡ false → before b a ≡ true) (v : Json)
        → Same before v (sort_value before v)
    sort_value-Same total (arr items) = in_list (sort_items-SameItems total items)
    sort_value-Same total (obj fields) = in_object (sort_fields-SameFields total fields)
    sort_value-Same total null = itself null
    sort_value-Same total (bool b) = itself (bool b)
    sort_value-Same total (num n) = itself (num n)
    sort_value-Same total (str s) = itself (str s)

    sort_items-SameItems :
        (total : (a b : String) → before a b ≡ false → before b a ≡ true) (is : Items)
        → SameItems before is (sort_items before is)
    sort_items-SameItems total nil = no_item
    sort_items-SameItems total (cons v rest) =
        next_item (sort_value-Same total v) (sort_items-SameItems total rest)

    sort_fields-SameFields :
        (total : (a b : String) → before a b ≡ false → before b a ≡ true) (fs : Fields)
        → SameFields before fs (sort_fields before fs)
    sort_fields-SameFields total end = no_field
    sort_fields-SameFields total (field k v rest) =
        and_then (next_field k (sort_value-Same total v) (sort_fields-SameFields total rest))
          (insert_field-SameFields total k (sort_value before v) (sort_fields before rest))

string_decided : (a b : String) → Dec (a ≡ b)
string_decided a b = elim (Bool-cases (a == b)) [
  | inl same ↦ yes ((string_eq.same_iff a b).0 same)
  | inr other ↦ no (λ e. ground (arith, string_eq.same_iff a b))
]

string_set : IsSet String
string_set = hedberg string_decided

-- Evidence up to the order of fields.
abbrev pub Document : (String → String → Bool) → Type 0
Document before = Quot (Same before)

abbrev pub document : (before : String → String → Bool) → Json → Document before
document before v = Quot.mk v

module _ (before : String → String → Bool) (trans : IsTransitive before)
    (json_stringify : Json → String) (blake2b512 : String → List ℕ) where
  pub checksum-Same :
      (v w : Json)
      → Same before v w
      → checksum before json_stringify blake2b512 v ≡ checksum before json_stringify blake2b512 w
  unfolding checksum stable_json
  checksum-Same v w same =
      ap (λ s. "0x" ++ hex_text (take 32 (blake2b512 (json_stringify s))))
        (value_stable before trans same)

  -- The checksum of a document, with no order of its fields.
  document_checksum : Document before → String
  document_checksum =
      Quot.lift string_set (checksum before json_stringify blake2b512)
        λ v w same. checksum-Same v w same

-- Values that the code sorts to one value are one document: sorting changes nothing but the order of
-- fields. And values that are one document, which differ in the order of fields of objects at any
-- depth, have one checksum. The order of keys must be total and transitive.
pub sort_value-document :
    (before : String → String → Bool)
    → IsTransitive before
    → ((a b : String) → before a b ≡ false → before b a ≡ true)
    → (json_stringify : Json → String) (blake2b512 : String → List ℕ) (v w : Json)
    → (sort_value before v ≡ sort_value before w → document before v ≡ document before w)
      × (document before v ≡ document before w
          → checksum before json_stringify blake2b512 v
            ≡ checksum before json_stringify blake2b512 w)
unfolding document_checksum
sort_value-document before trans total json_stringify blake2b512 v w = (
  λ same.
      Quot.sound (sort_value-Same before total v)
      ∙ ap (document before) same
      ∙ sym (Quot.sound (sort_value-Same before total w)),
  λ same. ap (document_checksum before trans json_stringify blake2b512) same,
)
