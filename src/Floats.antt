-- ===== src/Floats.antt =====
-- Python's float, as far as the program uses it: the arithmetic is a parameter of the model, and
-- `ExactTenths` names what IEEE 754 doubles guarantee of the 0.1 kW register scale.
pub mod Fixed
use depotflux_demo.Prelude.{ℕ, ◌≤◌, ◌≡◌, Bool, false, Option, some, ◌==◌, if◌then◌else◌}
use depotflux_demo.Prelude.Int.{ℤ, pos, sub_ℕ}

pub record Floats : Type 1 where
  pub Float : Type 0
  -- `float(n)`
  pub of_int : ℤ → Float
  -- the literals 0.1 and 1e-7
  pub tenth : Float
  pub tolerance : Float
  pub add : Float → Float → Float
  pub sub : Float → Float → Float
  pub mul : Float → Float → Float
  pub div : Float → Float → Float
  pub neg : Float → Float
  pub abs : Float → Float
  -- `x < y`, `x <= y`, `x == 0.0`, `math.isfinite(x)`
  pub lt : Float → Float → Bool
  pub le : Float → Float → Bool
  pub is_zero : Float → Bool
  pub is_finite : Float → Bool
  -- `int(round(x))`; `none` where Python raises (NaN and the infinities)
  pub round_int : Float → Option ℤ

module _ ⦃F : Floats⦄ where
  open F use {Float, of_int, tenth, mul, div, lt, round_int}

  abbrev pub float_zero : Float
  float_zero = of_int (pos 0)

  -- `max(x, y)` and `min(x, y)` keep the first of two that do not compare
  abbrev pub float_max : Float → Float → Float
  float_max x y = if lt x y then y else x

  abbrev pub float_min : Float → Float → Float
  float_min x y = if lt y x then y else x

  -- `raw * POWER_SCALE_KW`
  abbrev pub kilowatts : ℕ → Float
  kilowatts raw = mul (of_int (pos raw)) tenth

  -- `int(round(float(value) / POWER_SCALE_KW))`
  abbrev pub in_tenths : Float → Option ℤ
  in_tenths x = round_int (div x tenth)

pub record ExactTenths ⦃F : Floats⦄ : Type 0 where
  -- 0.0 / 0.1 rounds to 0
  pub zero_in_tenths : in_tenths float_zero ≡ some (pos 0)
  -- A value that is neither below zero nor above it is a zero, or NaN, which does not round.
  pub flat_in_tenths :
      (x : F.Float) (v : ℤ)
      → F.lt x float_zero ≡ false
      → F.lt (F.neg x) float_zero ≡ false
      → in_tenths x ≡ some v
      → v ≡ pos 0
  -- A uint16 count of tenths is a zero exactly when the count is.
  pub is_zero-kilowatts : (n : ℕ) → n ≤ 0xffff → F.is_zero (kilowatts n) ≡ (n == 0)
  -- The difference of a uint16 count of tenths and a zero count rounds back to the count.
  pub import_in_tenths :
      (n : ℕ) → n ≤ 0xffff → in_tenths (F.sub (kilowatts n) (kilowatts 0)) ≡ some (pos n)
  pub export_in_tenths :
      (n : ℕ) → n ≤ 0xffff → in_tenths (F.sub (kilowatts 0) (kilowatts n)) ≡ some (sub_ℕ 0 n)
