-- ===== src/Tests/RiskSummary.antt =====
-- Risk summaries at concrete rows.
use celine_grid.Prelude.{Text, text, text_eq, ◌≡◌, refl, some, List, [], ◌∷◌, map, All, length}
use celine_grid.Prelude.Perms.{Distinct, sum_by}
use celine_grid.Prelude.Int.{pos}
use celine_grid.Models.{raise, overflow_error}
use celine_grid.Values.{Row, string, integer, get}
use celine_grid.RiskSummary.Checked.{
  checked_any, checked_keep, checked_km, checked_triggers, checked_triggered_vectors,
}
use celine_grid.RiskSummary.Overflow.{IsTriggered, checked_triggered_vectors-IsTriggered}
use celine_grid.RiskSummary.{floor, num, num_of, equals_text, km_at_or_above, triggered_vectors}
use celine_grid.RiskSummary.Summarise.{Summary, summarise}
use celine_grid.RiskSummary.Partition.{summary_key, summary_count, summarise_partition}
use celine_grid.RiskSummary.Order.{HasNumber, InOrder, rank, summarise-InOrder}
use celine_grid.Tests.Data.{
  Whole, wholes, wholes-IsOrdered, wholes-IsNegation, whole-IsNumber, no_repr, rows,
}

abbrev both : List Text
both = text "wind" ∷ text "heat" ∷ []

-- At ALERT only the wind triggers, at WARNING the heat too.
at_alert : triggered_vectors wholes no_repr rows (some (text "ALERT")) both ≡ text "wind" ∷ []
unfolding triggered_vectors km_at_or_above floor equals_text num_of num get text_eq
at_alert = refl

at_warning : triggered_vectors wholes no_repr rows (some (text "WARNING")) both ≡ both
unfolding triggered_vectors km_at_or_above floor equals_text num_of num get text_eq
at_warning = refl

summarise_partition_example :
    (sum_by (summary_count wholes no_repr) (summarise wholes no_repr rows (text "line_name"))
      ≡ length rows)
    × Distinct (map (summary_key wholes no_repr) (summarise wholes no_repr rows (text "line_name")))
summarise_partition_example = summarise_partition wholes no_repr rows (text "line_name")

HasNumber-All :
    (us : List (Summary wholes no_repr))
    → All (HasNumber wholes wholes-IsOrdered wholes-IsNegation no_repr) us
HasNumber-All [] = tt
HasNumber-All (u ∷ us) =
    (whole-IsNumber (rank wholes wholes-IsOrdered wholes-IsNegation no_repr u), HasNumber-All us)

summarise-InOrder_example :
    InOrder wholes wholes-IsOrdered wholes-IsNegation no_repr
      (summarise wholes no_repr rows (text "operational_unit"))
summarise-InOrder_example =
    summarise-InOrder wholes wholes-IsOrdered wholes-IsNegation no_repr rows
      (text "operational_unit")
      (HasNumber-All (summarise wholes no_repr rows (text "operational_unit")))

-- An integer of a row that is beyond the floats.
abbrev beyond : List (Row Whole)
beyond =
    ((text "risk_vector", string (text "heat")) ∷ (text "km_alert", integer (pos 1001)) ∷ []) ∷ rows

raised :
    checked_triggered_vectors wholes no_repr beyond (some (text "ALERT")) both
    ≡ raise overflow_error
unfolding checked_triggered_vectors checked_keep checked_any checked_triggers checked_km floor
    equals_text num get text_eq
raised = refl

checked_triggered_vectors-IsTriggered_example :
    IsTriggered wholes no_repr beyond
      (some (text "ALERT"))
      both
      (checked_triggered_vectors wholes no_repr beyond (some (text "ALERT")) both)
checked_triggered_vectors-IsTriggered_example =
    checked_triggered_vectors-IsTriggered wholes no_repr beyond (some (text "ALERT")) both
