-- ===== src/Schedule.antt =====
-- What aggregator_demo/dispatch_repository.py and aggregator_demo/control_repository.py read of the
-- result of a run and of its input: the site power of an interval, and the capacity of the site.
-- Interval indices are naturals; the contracts ask for one at least.
use text.Mathlib.Text.{◌==◌ as str_eq}
use depotflux_demo.Prelude.{ℕ, zero, suc, Bool, true, false, not, Option, none, some, List, [], ◌∷◌}
use depotflux_demo.Prelude.Int.{ℤ, pos}
use depotflux_demo.Floats.{Floats, float_zero}
use depotflux_demo.Runs.Json.{
  Json, null, flag, number, string, list, dict, Items, nil, cons, Fields, end, get,
}
use depotflux_demo.Runs.Row.{RunRow}
use depotflux_demo.Approvals.{is_true}

-- Python's `float()` and `int()` of a JSON value, `none` where they raise, and `sum()` of floats.
pub record Conversions ⦃F : Floats⦄ : Type 0 where
  pub to_float : Json F.Float → Option F.Float
  pub to_int : Json F.Float → Option ℤ
  pub sum : List F.Float → F.Float

-- `len(items)`
unfoldable pub items_length : {A : Type 0} → Items A → ℕ
items_length nil = 0
items_length (cons x xs) = suc (items_length xs)

module _ {A : Type 0} where
  -- `items[-1]` and `items[i]`
  unfoldable pub last_item : Items A → Option (Json A)
  last_item nil = none
  last_item (cons x nil) = some x
  last_item (cons x (cons y ys)) = last_item (cons y ys)

  unfoldable pub item_at : ℕ → Items A → Option (Json A)
  item_at i nil = none
  item_at zero (cons x xs) = some x
  item_at (suc i) (cons x xs) = item_at i xs

  -- `items[interval_index - 1]`
  unfoldable pub interval_item : ℕ → Items A → Option (Json A)
  interval_item zero items = last_item items
  interval_item (suc i) items = item_at i items

  -- `run.result_payload or {}`
  abbrev pub result_of : RunRow A → Fields A
  result_of run = elim run.result_payload [ none ↦ end | some payload ↦ payload ]

  -- `isinstance(value, list)`
  abbrev pub as_list : Option (Json A) → Option (Items A)
  as_list (some (list items)) = some items
  as_list _ = none

module _ ⦃F : Floats⦄ where
  open F use {Float, of_int, sub, mul, div, is_zero}

  -- `not value`
  unfoldable pub is_falsy : Json Float → Bool
  is_falsy null = true
  is_falsy (flag b) = not b
  is_falsy (number x) = is_zero x
  is_falsy (string s) = str_eq s ""
  is_falsy (list nil) = true
  is_falsy (dict end) = true
  is_falsy _ = false

  -- `(result.get("validation") or {}).get("passed") is True`; a true value that is no dict has no
  -- `get`, and raises
  unfoldable pub validation_passed : Option (Json Float) → Option Bool
  validation_passed none = some false
  validation_passed (some (dict fields)) = some (is_true (get "passed" fields))
  validation_passed (some value) = elim (is_falsy value) [ true ↦ some false | false ↦ none ]

  module _ (py : Conversions) where
    -- `int(input_data.get("timestep_minutes") or 0)`
    unfoldable pub minutes_of : Option (Json Float) → Option ℤ
    minutes_of none = some (pos 0)
    minutes_of (some value) = elim (is_falsy value) [
      | true ↦ some (pos 0)
      | false ↦ py.to_int value
    ]

    -- `float(charger.get("charger_kw", charger.get("max_power_kw", 0.0)))`
    unfoldable pub charger_kw : Fields Float → Option Float
    charger_kw charger = elim (get "charger_kw" charger) [
      | some value ↦ py.to_float value
      | none ↦ elim (get "max_power_kw" charger) [
        | some value ↦ py.to_float value
        | none ↦ some float_zero
      ]
    ]

    unfoldable pub chargers_kw : Items Float → Option (List Float)
    chargers_kw nil = some []
    chargers_kw (cons (dict charger) chargers) =
        let rest = chargers_kw chargers in
        elim (charger_kw charger) [
          | none ↦ none
          | some kw ↦ elim rest [ none ↦ none | some kws ↦ some (kw ∷ kws) ]
        ]
    chargers_kw (cons _ chargers) = none

    -- The sum over `input_data.get("chargers", [])`. An empty text or dict has no elements.
    unfoldable pub capacity_of : Option (Json Float) → Option Float
    capacity_of none = some (py.sum [])
    capacity_of (some (list chargers)) = elim (chargers_kw chargers) [
      | none ↦ none
      | some kws ↦ some (py.sum kws)
    ]
    capacity_of (some (dict end)) = some (py.sum [])
    capacity_of (some (string s)) = elim (str_eq s "") [ true ↦ some (py.sum []) | false ↦ none ]
    capacity_of (some _) = none

    -- `float(buy[index]) - float(sell[index])`
    unfoldable pub net_energy : ℕ → Items Float → Items Float → Option Float
    net_energy interval_index buy sell = elim (interval_item interval_index buy) [
      | none ↦ none
      | some b ↦ elim (py.to_float b) [
        | none ↦ none
        | some bought ↦ elim (interval_item interval_index sell) [
          | none ↦ none
          | some s ↦ elim (py.to_float s) [ none ↦ none | some sold ↦ some (sub bought sold) ]
        ]
      ]
    ]

  -- `net * 60.0 / interval_minutes`; a division by the integer zero raises
  unfoldable pub average_power : Float → ℤ → Option Float
  average_power net (pos zero) = none
  average_power net minutes = some (div (mul net (of_int (pos 60))) (of_int minutes))
