-- ===== src/Common/JsonValue.antt =====
-- JSON values. `number` is a finite number, here a natural one; nothing reads more of a number.
use mathlib.Core.Bool.{Bool}
use mathlib.Core.List.{List, [], ◌∷◌}
use Prim.Native.Nat.{ℕ}
use Prim.Native.String.{String}
use wbme.Common.Tests.{if◌then◌else◌, str_eq}

mutual
  pub data Json : Type 0 where
    object : Members → Json
    array : Values → Json
    number : ℕ → Json
    string : String → Json
    boolean : Bool → Json
    null not_finite : Json

  pub data Members : Type 0 where
    no_members : Members
    member : (name : String) (content : Json) (others : Members) → Members

  pub data Values : Type 0 where
    no_values : Values
    item : (first : Json) (others : Values) → Values

-- `record[key]`: a missing key is undefined, here `null`.
unfoldable pub get : String → Members → Json
get key no_members = null
get key (member name content others) = if str_eq name key then content else get key others

abbrev pub values_of : Values → List Json
values_of no_values = []
values_of (item first others) = first ∷ values_of others
