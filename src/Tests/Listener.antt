-- ===== src/Tests/Listener.antt =====
-- A run of the pipeline at the rules and services of the dispatcher's tests.
use celine_grid.Prelude.{
  List, ℕ, Text, text, text_eq, ◌≡◌, refl, leb, Bool, true, ◌&&◌, Option, none, some, [], ◌∷◌,
}
use celine_grid.Prelude.Int.{pos}
use celine_grid.Prelude.Strings.{strip, drop_while, is_space}
use celine_grid.Models.{Result, ok, raise, value_error, overflow_error}
use celine_grid.Recipients.{chomp}
use celine_grid.Dates.{
  Date, date, is_date, is_leap, days_in_month, tomorrow, plus_days, isoformat, date_fromisoformat,
}
use celine_grid.Dates.Calendar.{IsDate}
use celine_grid.Listener.{
  PipelineSettings, PipelineRunEvent, max_one, dates_from, date_form, date_match, normalise_period,
  start_of, horizon_dates, on_pipeline_run,
}
use celine_grid.Listener.Horizon.{IsHorizon, horizon_dates-IsHorizon}
use celine_grid.Dispatcher.Dispatch.{dispatch_grid_alerts}
use celine_grid.Listener.Handling.{IsHandled, on_pipeline_run-IsHandled}
use celine_grid.Tests.Data.{wholes, no_repr, ascii_lower}
use celine_grid.Tests.Dispatcher.{db, services}

abbrev ascii_digit : ℕ → Bool
ascii_digit c = leb b'0' c && leb c b'9'

abbrev no_datetime : Text → Option Date
no_datetime s = none

-- Over the end of a leap February; past the calendar; and a date that does not exist.
horizons :
    (horizon_dates ascii_digit no_datetime (some (text " 2028-02-28")) (date 2026 1 1) (pos 3)
      ≡ ok (text "2028-02-28" ∷ text "2028-02-29" ∷ text "2028-03-01" ∷ []))
    × (horizon_dates ascii_digit no_datetime (some (text "9999-12-31")) (date 2026 1 1) (pos 2)
        ≡ raise overflow_error)
    × (horizon_dates ascii_digit no_datetime (some (text "2026-02-30")) (date 2026 1 1) (pos 3)
        ≡ raise value_error)
unfolding horizon_dates normalise_period date_match date_form start_of max_one dates_from plus_days
    tomorrow is_date days_in_month is_leap isoformat date_fromisoformat chomp strip drop_while
    is_space
horizons = (refl, refl, refl)

today-IsDate : IsDate (date 2026 8 15)
unfolding is_date days_in_month
today-IsDate = refl

horizon_dates-IsHorizon_example :
    IsHorizon ascii_digit no_datetime
      (some (text "2026-08-31"))
      (date 2026 8 15)
      (pos 3)
      (horizon_dates ascii_digit no_datetime (some (text "2026-08-31")) (date 2026 8 15) (pos 3))
horizon_dates-IsHorizon_example =
    horizon_dates-IsHorizon ascii_digit no_datetime (λ s d e. cc) (some (text "2026-08-31"))
      (date 2026 8 15) (pos 3) today-IsDate

abbrev settings : PipelineSettings
settings = record {
  grid_pipeline_flow = text "grid-resilience-flow";
  grid_pipeline_namespace = text "grid";
  grid_alerts_enabled = true;
  grid_alert_horizon_days = pos 3;
}

abbrev event : PipelineRunEvent
event = record {
  status = text "completed";
  flow = text "grid-resilience-flow";
  namespace = text "base.grid";
  timestamp = some (text "2026-08-15");
}

abbrev today : ℕ → Date
today w = date 2026 8 15

abbrev dispatches : Text → List Text → ℕ → Result ℕ × ℕ
dispatches = dispatch_grid_alerts wholes no_repr ascii_lower (λ s. s) (text "app") db services

on_pipeline_run-IsHandled_example :
    IsHandled dispatches ascii_digit no_datetime today settings true db event 0
      (on_pipeline_run dispatches ascii_digit no_datetime today settings true db (some event) 0)
on_pipeline_run-IsHandled_example =
    on_pipeline_run-IsHandled dispatches ascii_digit no_datetime today settings true db event 0
