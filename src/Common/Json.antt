-- ===== src/Common/Json.antt =====
-- JSON documents, as `JSON.parse` returns them. Only whole numbers occur in the documents read.
use Prim.Native.String.{String}
use bondsman.Common.Int.{ℤ}
use bondsman.Common.Tests.{◌==◌, string_eq, if◌then◌else◌}
use mathlib.Core.Bool.{Bool}
use mathlib.Core.Option.{Option, none, some}

mutual
  pub data Json : Type 0 where
    null : Json
    bool : Bool → Json
    num : ℤ → Json
    str : String → Json
    arr : Items → Json
    obj : Fields → Json

  pub data Items : Type 0 where
    nil : Items
    cons : Json → Items → Items

  pub data Fields : Type 0 where
    end : Fields
    field : String → Json → Fields → Fields

-- `document.name`
abbrev pub get : String → Fields → Option Json
get k end = none
get k (field j v r) = let rest = get k r in if j == k then some v else rest
