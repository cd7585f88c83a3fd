-- ===== src/Prelude/Json.antt =====
-- JSON values, as far as the program builds and reads them. `text` is a string whose code units the
-- program walks, `str` any other string.
use Prim.Native.Nat.{ℕ}
use Prim.Native.String.{String}
use mathlib.Core.Bool.{Bool}
use mathlib.Core.Option.{Option, none, some}
use docklane.Prelude.Tests.{◌==◌, String-eq, if◌then◌else◌}
use docklane.Prelude.Codes.{Text}

mutual
  pub data Json : Type 0 where
    null : Json
    bool : Bool → Json
    num : ℕ → Json
    neg : ℕ → Json
    str : String → Json
    text : Text → Json
    arr : Items → Json
    obj : Fields → Json

  pub data Items : Type 0 where
    nil : Items
    cons : Json → Items → Items

  pub data Fields : Type 0 where
    end : Fields
    field : String → Json → Fields → Fields

-- The value of a property, `none` where there is no such property.
unfoldable pub get : String → Fields → Option Json
get k end = none
get k (field j v fs) = if j == k then some v else get k fs

-- JSON.stringify leaves out a property that is undefined.
abbrev pub field? : String → Option Json → Fields → Fields
field? k none fs = fs
field? k (some v) fs = field k v fs
