-- ===== src/Runs/Json.antt =====
-- The JSON values that a result payload holds, with numbers of any type.
use text.Mathlib.Text.{◌==◌ as str_eq}
use depotflux_demo.Prelude.{Bool, Option, none, some, String, if◌then◌else◌}

mutual
  pub data Json (A : Type 0) : Type 0 where
    null : Json A
    flag : Bool → Json A
    number : A → Json A
    string : String → Json A
    list : Items A → Json A
    dict : Fields A → Json A

  pub data Items (A : Type 0) : Type 0 where
    nil : Items A
    cons : Json A → Items A → Items A

  pub data Fields (A : Type 0) : Type 0 where
    end : Fields A
    field : String → Json A → Fields A → Fields A

module _ {A : Type 0} where
  -- `d.get(key)`
  unfoldable pub get : String → Fields A → Option (Json A)
  get key end = none
  get key (field k v d) = if str_eq k key then some v else get key d
