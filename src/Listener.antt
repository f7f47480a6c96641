-- ===== src/Listener.antt =====
-- The listener of pipeline runs (src/celine/grid/services/pipeline_listener.py).
pub mod Horizon
pub mod Networks
pub mod Created
pub mod Handling
use celine_grid.Prelude.{
  ℕ, zero, suc, ◌+◌, Text, text, ◌==◌, text_eq, eqb, ltb, Bool, true, false, not, ◌&&◌, ◌||◌,
  Option, none, some, List, [], ◌∷◌, ◌++◌, map, keep, if◌then◌else◌,
}
use celine_grid.Prelude.Strings.{strip, ends_with}
use celine_grid.Prelude.Int.{ℤ, pos, negsuc}
use celine_grid.Models.{AlertRule, Db, Error, Result, ok, raise, ◌>>=◌}
use celine_grid.Recipients.{chomp}
use celine_grid.RiskSummary.{sorted_set}
use celine_grid.Dates.{Date, plus_days, isoformat, date_fromisoformat}

-- What the listener reads of the settings.
pub record PipelineSettings : Type 0 where
  pub grid_pipeline_flow : Text
  pub grid_pipeline_namespace : Text
  pub grid_alerts_enabled : Bool
  pub grid_alert_horizon_days : ℤ

-- `timestamp` is `none` if it is no text.
pub record PipelineRunEvent : Type 0 where
  pub status : Text
  pub flow : Text
  pub namespace : Text
  pub timestamp : Option Text

-- `max(days, 1)`
unfoldable pub max_one : ℤ → ℕ
max_one (pos zero) = 1
max_one (pos (suc n)) = suc n
max_one (negsuc n) = 1

-- The days of `start + timedelta(days=i)`, `left` of them from `i` on.
unfoldable pub dates_from : ℕ → ℕ → Date → Result (List Text)
dates_from zero i start = ok []
dates_from (suc left) i start =
    let rest = dates_from left (suc i) start in
    plus_days i start >>= λ d. (rest >>= λ ds. ok (isoformat d ∷ ds))

-- `raw[:-1]`
abbrev pub without_last : Text → Text
without_last [] = []
without_last (c ∷ []) = []
without_last (c ∷ d ∷ s) = c ∷ without_last (d ∷ s)

-- `is_digit` is the class `\d`, of all decimal digits of Unicode; `datetime_fromisoformat` gives the
-- day of the datetime that a text is read as, and `none` for a `ValueError`.
module _ (is_digit : ℕ → Bool) (datetime_fromisoformat : Text → Option Date) where
  -- The pattern between `^` and `$`.
  unfoldable pub date_form : Text → Bool
  date_form (a ∷ b ∷ c ∷ d ∷ p ∷ m ∷ n ∷ q ∷ e ∷ f ∷ []) =
      is_digit a
      && is_digit b
      && is_digit c
      && is_digit d
      && eqb p b'-'
      && is_digit m
      && is_digit n
      && eqb q b'-'
      && is_digit e
      && is_digit f
  date_form _ = false

  -- `_DATE_RE.match(s)`
  unfoldable pub date_match : Text → Bool
  date_match s = date_form (chomp s)

  -- A `Z` at the end is written as an offset.
  unfoldable pub with_offset : Text → Text
  with_offset raw = if ends_with raw (text "Z") then without_last raw ++ text "+00:00" else raw

  unfoldable pub parse_raw : Text → Option Date
  parse_raw [] = none
  parse_raw (c ∷ raw) = datetime_fromisoformat (with_offset (c ∷ raw))

  unfoldable pub parse_datetime : Option Text → Option Date
  parse_datetime none = none
  parse_datetime (some value) = parse_raw (strip value)

  abbrev pub iso_option : Option Date → Option Text
  iso_option none = none
  iso_option (some d) = some (isoformat d)

  unfoldable pub normalise_period : Option Text → Option Text
  normalise_period none = iso_option (parse_datetime none)
  normalise_period (some value) =
      if date_match (strip value)
      then some (strip value)
      else iso_option (parse_datetime (some value))

  -- The day that the horizon starts with; no period is empty.
  unfoldable pub start_of : Option Text → Date → Result Date
  start_of none today = ok today
  start_of (some period) today = date_fromisoformat period

  unfoldable pub horizon_dates : Option Text → Date → ℤ → Result (List Text)
  horizon_dates timestamp today days =
      start_of (normalise_period timestamp) today >>= dates_from (max_one days) 0

unfoldable pub is_pipeline_namespace : PipelineSettings → Text → Bool
is_pipeline_namespace settings namespace =
    let own = settings.grid_pipeline_namespace in
    namespace == own || ends_with namespace (b'.' ∷ own)

abbrev pub network_of : AlertRule → Text
network_of r = r.network_id

unfoldable pub networks_with_active_rules : Db → List Text
networks_with_active_rules db =
    sorted_set (map network_of (keep (λ r. r.active && not (r.network_id == [])) db.rules))

unfoldable pub networks_of : PipelineSettings → PipelineRunEvent → Db → List Text
networks_of settings event db =
    if is_pipeline_namespace settings event.namespace
    then networks_with_active_rules db
    else event.namespace ∷ []

-- The handler returns nothing.
pub data Handled : Type 0 where
  handled : Handled

unfoldable pub is_relevant : PipelineSettings → PipelineRunEvent → Bool
is_relevant settings event =
    event.status == text "completed"
    && event.flow == settings.grid_pipeline_flow
    && settings.grid_alerts_enabled

-- `dispatch` is the dispatcher, over the world that it acts on.
module _ {W : Type 0} (dispatch : Text → List Text → W → Result ℕ × W) where
  -- A dispatch that raises ends the handler.
  unfoldable pub then_rest : Result ℕ × W → (W → Result Handled × W) → Result Handled × W
  then_rest (raise e, w) rest = (raise e, w)
  then_rest (ok count, w) rest = rest w

  unfoldable pub dispatch_each : List Text → List Text → W → Result Handled × W
  dispatch_each [] dates w = (ok handled, w)
  dispatch_each (n ∷ networks) dates w =
      then_rest (dispatch n dates w) (λ w'. dispatch_each networks dates w')

  -- From the dates on; `initialised` tells whether there are service clients.
  unfoldable pub on_dates :
      PipelineSettings → Bool → Db → PipelineRunEvent → Result (List Text) → W → Result Handled × W
  on_dates settings initialised db event (raise e) w = (raise e, w)
  on_dates settings initialised db event (ok dates) w =
      if initialised then dispatch_each (networks_of settings event db) dates w else (ok handled, w)

  -- `none` is a message that is no event, and `today` the date of the clock, in UTC.
  module _ (is_digit : ℕ → Bool) (datetime_fromisoformat : Text → Option Date)
      (today : W → Date) where
    unfoldable pub horizon_of : PipelineSettings → PipelineRunEvent → W → Result (List Text)
    horizon_of settings event w =
        horizon_dates is_digit datetime_fromisoformat event.timestamp (today w)
          settings.grid_alert_horizon_days

    unfoldable pub on_pipeline_run :
        PipelineSettings → Bool → Db → Option PipelineRunEvent → W → Result Handled × W
    on_pipeline_run settings initialised db none w = (ok handled, w)
    on_pipeline_run settings initialised db (some event) w =
        if is_relevant settings event
        then on_dates settings initialised db event (horizon_of settings event w) w
        else (ok handled, w)
