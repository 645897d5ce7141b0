-- ===== src/Shared/Json.antt =====
-- Values that `JSON.parse` gives, as far as a program looks into them, and the fields of a record of them.
use Prim.Native.String.{String}
use mathlib.Core.Bool.{Bool}
use mathlib.Core.Option.{Option, none, some}
use modular_runtime.Shared.Tests.{or_else}
use modular_runtime.Shared.Dict.{Dict, get}

-- `undefined` is the value of a field that is missing.
pub data Value (R : Type 0) : Type 0 where
  undefined null_value object : Value R
  boolean : Bool → Value R
  number : R → Value R
  text : String → Value R

module _ {R : Type 0} where
  abbrev pub field : String → Dict (Value R) → Value R
  field name fs = or_else (get name fs) undefined

  -- A text, where one is expected
  abbrev pub text_of : Value R → String
  text_of (text s) = s
  text_of v = ""

  abbrev pub number_of : Value R → Option R
  number_of (number n) = some n
  number_of v = none

  abbrev pub boolean_of : Value R → Option Bool
  boolean_of (boolean b) = some b
  boolean_of v = none
