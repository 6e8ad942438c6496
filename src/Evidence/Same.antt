-- ===== src/Evidence/Same.antt =====
-- When two JSON values are the same evidence: they differ in the order of the fields of objects.
use bondsman.Common.{String, Bool, true, false, ◌≡◌}
use bondsman.Common.Json.{Json, Items, Fields, arr, obj, nil, cons, end, field}

module _ (before : String → String → Bool) where
  mutual
    pub data Same : Json → Json → Type 0 where
      itself : (v : Json) → Same v v
      in_order : {v w x : Json} → Same v w → Same w x → Same v x
      in_list : {is js : Items} → SameItems is js → Same (arr is) (arr js)
      in_object : {fs gs : Fields} → SameFields fs gs → Same (obj fs) (obj gs)

    pub data SameItems : Items → Items → Type 0 where
      no_item : SameItems nil nil
      next_item :
          {v w : Json} {is js : Items}
          → Same v w
          → SameItems is js
          → SameItems (cons v is) (cons w js)

    pub data SameFields : Fields → Fields → Type 0 where
      no_field : SameFields end end
      next_field :
          {v w : Json} {fs gs : Fields} (k : String)
          → Same v w
          → SameFields fs gs
          → SameFields (field k v fs) (field k w gs)
      and_then : {fs gs hs : Fields} → SameFields fs gs → SameFields gs hs → SameFields fs hs
      -- Two fields with keys that the order tells apart change places.
      swapped :
          (k j : String) (v w : Json) (rest : Fields)
          → before k j ≡ true
          → before j k ≡ false
          → SameFields (field k v (field j w rest)) (field j w (field k v rest))
      swapped_back :
          (k j : String) (v w : Json) (rest : Fields)
          → before k j ≡ true
          → before j k ≡ false
          → SameFields (field j w (field k v rest)) (field k v (field j w rest))
