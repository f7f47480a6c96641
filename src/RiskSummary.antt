-- ===== src/RiskSummary.antt =====
-- Summaries over `risk_km` rows (src/celine/grid/services/risk_summary.py): kilometres at or above
-- a threshold, the hazards that trigger, and the body of a report.
pub mod Summarise
pub mod Days
pub mod Triggers
pub mod Worst
pub mod Partition
pub mod Order
pub mod Report
pub mod SortedSet
pub mod Checked
pub mod Overflow
use celine_grid.Prelude.{
  ℕ, Text, text, ◌==◌, text_eq, contains, if◌then◌else◌, Bool, true, false, not, ◌&&◌, Option, none,
  some, List, [], ◌∷◌, map, length, take, any, keep, ltb, sorted, insert_sorted, text_lt,
}
use celine_grid.Prelude.Groups.{Groups, group_by}
use celine_grid.Values.{
  Floats, Value, null, boolean, number, integer, string, array, object, Row, get,
}
use celine_grid.Prelude.Int.{ℤ, pos, negsuc}
use celine_grid.Models.{Result, ok, raise, overflow_error}
use celine_grid.Values.{Items, Fields}

-- `LEVEL_RANK.get(level, 0)`
unfoldable pub level_rank : Text → ℕ
level_rank level =
    if level == text "NORMAL"
    then 0
    else if level == text "WARNING"
    then 1
    else if level == text "ALERT"
    then 2
    else 0

abbrev pub floors : List Text
floors = text "WARNING" ∷ text "ALERT" ∷ []

unfoldable pub floor : Option Text → Text
floor none = text "ALERT"
floor (some threshold) = if contains floors threshold then threshold else text "ALERT"

-- `max(levels, key=…)` from a first level on: the first of the highest rank.
unfoldable pub worst_from : Text → List Text → Text
worst_from best [] = best
worst_from best (level ∷ levels) =
    worst_from (if ltb (level_rank best) (level_rank level) then level else best) levels

-- `max` of an empty group would raise; a group is never empty.
unfoldable pub worst_of : List Text → Text
worst_of [] = text "NORMAL"
worst_of (level ∷ levels) = worst_from level levels

-- The elements of a set in ascending order.
unfoldable pub distinct : List Text → List Text
distinct [] = []
distinct (x ∷ xs) = let rest = distinct xs in if contains rest x then rest else x ∷ rest

unfoldable pub sorted_set : List Text → List Text
sorted_set xs = sorted text_lt (distinct xs)

-- `repr` is `str` of a value that is no text.
module _ (fl : Floats) (repr : Value fl.F → Text) where
  open fl use {
    F, zero as zero_float, one, half, hundred, add, mul, div, neg, lt, eq, nonzero, parse, of_int,
  }

  -- The truth value of a value.
  unfoldable pub truthy : Value F → Bool
  truthy null = false
  truthy (boolean b) = b
  truthy (number x) = nonzero x
  truthy (integer (pos n)) = ltb 0 n
  truthy (integer (negsuc n)) = true
  truthy (string s) = not (s == [])
  truthy (array Items.nil) = false
  truthy (array (Items.cons _ _)) = true
  truthy (object Fields.end) = false
  truthy (object (Fields.field _ _ _)) = true

  unfoldable pub str : Value F → Text
  str (string s) = s
  str v = repr v

  -- `str(v or default)`
  unfoldable pub str_or : Value F → Text → Text
  str_or v default = if truthy v then str v else default

  -- `_num`: what `float` refuses counts as zero, but an integer beyond the floats raises.
  unfoldable pub num : Value F → Result F
  num null = ok zero_float
  num (boolean b) = ok (if b then one else zero_float)
  num (number x) = ok x
  num (integer i) = elim (of_int i) [ none ↦ raise overflow_error | some x ↦ ok x ]
  num (string s) = ok (elim (parse s) [ none ↦ zero_float | some x ↦ x ])
  num (array _) = ok zero_float
  num (object _) = ok zero_float

  -- What `_num` gives, where it returns. The summaries below compute with it: `Checked` has the same
  -- code with the exceptions, and the dispatcher calls that.
  unfoldable pub num_of : Value F → F
  num_of v = elim (num v) [ raise e ↦ zero_float | ok x ↦ x ]

  -- `value == s`
  unfoldable pub equals_text : Value F → Text → Bool
  equals_text (string s) t = s == t
  equals_text _ t = false

  unfoldable pub km_at_or_above : Row F → Option Text → F
  km_at_or_above row threshold =
      let km = num_of (get row (text "km_alert")) in
      if floor threshold == text "WARNING"
      then add km (num_of (get row (text "km_warning")))
      else km

  abbrev pub triggers : Option Text → Text → Row F → Bool
  triggers threshold vector row =
      equals_text (get row (text "risk_vector")) vector
      && lt zero_float (km_at_or_above row threshold)

  unfoldable pub triggered_vectors : List (Row F) → Option Text → List Text → List Text
  triggered_vectors rows threshold = keep (λ vector. any (triggers threshold vector) rows)

  unfoldable pub pct : F → F → Option F
  pct part total = if nonzero total then some (fl.round (div (mul hundred part) total) 1) else none

  -- The risk index of a sum of kilometres.
  unfoldable pub risk_index : F → F → F → Option F
  risk_index km_total km_alert km_warning =
      if nonzero km_total
      then some (fl.round (div (mul hundred (add km_alert (mul half km_warning))) km_total) 1)
      else none

  -- `sum(_num(r.get(key)) for r in group)`
  unfoldable pub sum_of : Text → List (Row F) → F
  sum_of key group = fl.sum (map (λ r. num_of (get r key)) group)

  -- `-(index if index is not None else -1)`
  unfoldable pub sort_index : Option F → F
  sort_index none = neg (neg one)
  sort_index (some x) = neg x

  pub record LineWithin : Type 0 where
    pub key : Text
    pub km_total : F
    pub km_alert : F
    pub km_warning : F
    pub risk_index : Option F
