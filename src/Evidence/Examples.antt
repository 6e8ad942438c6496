-- ===== src/Evidence/Examples.antt =====
-- Evidence in two orders of its fields. The keys are ordered by their lengths.
use bondsman.Common.{String, Bool, true, false, leb, length, ◌≡◌, refl, arith}
use bondsman.Common.Int.{pos}
use bondsman.Common.Json.{Json, num, str, obj, field, end}
use bondsman.Authorization.{codes}
use bondsman.Evidence.{insert_field, sort_value, checksum}
use bondsman.Evidence.Stable.{document, IsTransitive, sort_value-document}

shorter : String → String → Bool
shorter a b = leb (length (codes a)) (length (codes b))

shorter-IsTransitive : IsTransitive shorter
unfolding shorter
shorter-IsTransitive a b c ab bc = ground arith

shorter_total : (a b : String) → shorter a b ≡ false → shorter b a ≡ true
unfolding shorter
shorter_total a b h = ground arith

abbrev one_order : Json
one_order = obj (field "checks" (str "x") (field "id" (num (pos 27)) end))

abbrev other_order : Json
other_order = obj (field "id" (num (pos 27)) (field "checks" (str "x") end))

abbrev some_text : Json → String
some_text v = "text"

sort_value-document_example :
    (sort_value shorter one_order ≡ sort_value shorter other_order
      → document shorter one_order ≡ document shorter other_order)
    × (document shorter one_order ≡ document shorter other_order
        → checksum shorter some_text codes one_order ≡ checksum shorter some_text codes other_order)
sort_value-document_example =
    sort_value-document shorter shorter-IsTransitive shorter_total some_text codes one_order
      other_order

sorted_alike : sort_value shorter one_order ≡ sort_value shorter other_order
unfolding sort_value insert_field shorter
sorted_alike = refl
