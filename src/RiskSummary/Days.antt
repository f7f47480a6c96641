-- ===== src/RiskSummary/Days.antt =====
-- `build_days` (src/celine/grid/services/risk_summary.py): the body of a report.
use celine_grid.Prelude.{
  ℕ, Text, text, ◌==◌, text_eq, if◌then◌else◌, ◌&&◌, Option, none, List, [], ◌∷◌, map, take, keep,
}
use celine_grid.Values.{Floats, Value, number, string, Row, get}
use celine_grid.RiskSummary
use celine_grid.RiskSummary.Summarise.{Summary, summarise}

module _ (fl : Floats) (repr : Value fl.F → Text) where
  open fl use {F}

  pub record UnitEntry : Type 0 where
    pub operational_unit : Text
    pub n_tratte : ℕ
    pub km_total : F
    pub km_alert : F
    pub km_warning : F
    pub pct_alert : Option F
    pub pct_warning : Option F
    pub risk_index : Option F
    pub worst_level : Text
    pub worst_lines : List Text

  pub record LineEntry : Type 0 where
    pub line_name : Text
    pub operational_units : List Text
    pub km_total : F
    pub km_alert : F
    pub km_warning : F
    pub pct_alert : Option F
    pub risk_index : Option F
    pub worst_level : Text

  pub record Totals : Type 0 where
    pub n_tratte : ℕ
    pub km_total : F
    pub km_alert : F
    pub km_warning : F
    pub pct_alert : Option F
    pub pct_warning : Option F
    pub risk_index : Option F
    pub worst_level : Text

  pub record DayVector : Type 0 where
    pub risk_vector : Text
    pub units : List UnitEntry
    pub top_lines : List LineEntry
    pub totals : Totals

  pub record Day : Type 0 where
    pub date : Text
    pub vectors : List DayVector

  unfoldable pub unit_entry : Summary fl repr → UnitEntry
  unit_entry u = record {
    operational_unit = u.key;
    n_tratte = u.n_tratte;
    km_total = u.km_total;
    km_alert = u.km_alert;
    km_warning = u.km_warning;
    pct_alert = u.pct_alert;
    pct_warning = u.pct_warning;
    risk_index = u.risk_index;
    worst_level = u.worst_level;
    worst_lines = u.worst_lines;
  }

  unfoldable pub line_entry : Summary fl repr → LineEntry
  line_entry line = record {
    line_name = line.key;
    operational_units = line.operational_units;
    km_total = line.km_total;
    km_alert = line.km_alert;
    km_warning = line.km_warning;
    pct_alert = line.pct_alert;
    risk_index = line.risk_index;
    worst_level = line.worst_level;
  }

  -- The kilometres of a summary, as `km_at_or_above` reads them.
  abbrev pub summary_row : Summary fl repr → Row F
  summary_row u =
      (text "key", string u.key)
      ∷ (text "km_total", number u.km_total)
      ∷ (text "km_alert", number u.km_alert)
      ∷ (text "km_warning", number u.km_warning)
      ∷ []

  -- The rows of a date and a hazard.
  unfoldable pub subset : List (Row F) → Text → Text → List (Row F)
  subset rows date vector =
      keep
        (λ r.
          RiskSummary.equals_text fl repr (get r (text "date")) date
          && RiskSummary.equals_text fl repr (get r (text "risk_vector")) vector)
        rows

  unfoldable pub top_lines_of : List (Row F) → Option Text → ℕ → List LineEntry
  top_lines_of rows threshold top_n = take top_n (
      map line_entry (
        keep
          (λ line. fl.lt fl.zero (RiskSummary.km_at_or_above fl repr (summary_row line) threshold))
          (summarise fl repr rows (text "line_name"))))

  -- `{**r, "_all": "*"}`: the key is last, or keeps its place.
  unfoldable pub with_all : Row F → Row F
  with_all [] = (text "_all", string (text "*")) ∷ []
  with_all ((k, v) ∷ row) =
      if k == text "_all" then (k, string (text "*")) ∷ row else (k, v) ∷ with_all row

  unfoldable pub totals_from : List (Summary fl repr) → Totals
  totals_from [] = record {
    n_tratte = 0;
    km_total = fl.zero;
    km_alert = fl.zero;
    km_warning = fl.zero;
    pct_alert = none;
    pct_warning = none;
    risk_index = none;
    worst_level = text "NORMAL";
  }
  totals_from (t ∷ _) = record {
    n_tratte = t.n_tratte;
    km_total = t.km_total;
    km_alert = t.km_alert;
    km_warning = t.km_warning;
    pct_alert = t.pct_alert;
    pct_warning = t.pct_warning;
    risk_index = t.risk_index;
    worst_level = t.worst_level;
  }

  unfoldable pub day_vector : List (Row F) → Text → Option Text → ℕ → Text → DayVector
  day_vector rows date threshold top_n vector =
      let found = subset rows date vector in
      record {
        risk_vector = vector;
        units = map unit_entry (summarise fl repr found (text "operational_unit"));
        top_lines = top_lines_of found threshold top_n;
        totals = totals_from (summarise fl repr (map with_all found) (text "_all"));
      }

  unfoldable pub build_days : List (Row F) → List Text → List Text → Option Text → ℕ → List Day
  build_days rows dates vectors threshold top_n =
      map
        (λ date. record {
          date = date;
          vectors = map (day_vector rows date threshold top_n) vectors;
        })
        dates
