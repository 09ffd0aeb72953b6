-- ===== src/Js.antt =====
-- The parts of JavaScript's values that the modelled code inspects.
pub mod Maps
pub mod Sorting
pub mod Numbers
pub mod Strings
use app_health.Prelude.{Bool, List}
use Numbers.{Num}
use Strings.{Text}

-- A value of type `unknown`, by what `typeof` tells. Objects, arrays and functions are all `other`
-- where the code goes no further than that.
pub data Value : Type 0 where
  undefined null other : Value
  boolean : Bool → Value
  number : Num → Value
  string : Text → Value
