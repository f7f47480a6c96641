-- ===== src/RiskSummary/Summarise.antt =====
-- `summarise` and `summarise_lines_within` (src/celine/grid/services/risk_summary.py).
use celine_grid.Prelude.{
  ℕ, Text, text, ◌==◌, text_eq, if◌then◌else◌, Bool, Option, some, List, [], ◌∷◌, map, length, take,
  keep, sorted, text_lt,
}
use celine_grid.Prelude.Groups.{group_by}
use celine_grid.Values.{Floats, Value, number, string, Row, get}
use celine_grid.Values.Order.{first_of_pair}
use celine_grid.RiskSummary
use celine_grid.RiskSummary.{LineWithin, worst_of, sorted_set}

module _ (fl : Floats) (repr : Value fl.F → Text) where
  open fl use {F, neg, lt, eq, round}

  pub record Summary : Type 0 where
    pub key : Text
    pub n_tratte : ℕ
    pub km_total : F
    pub km_alert : F
    pub km_warning : F
    pub pct_alert : Option F
    pub pct_warning : Option F
    pub risk_index : Option F
    pub worst_level : Text
    pub operational_units : List Text
    pub worst_lines : List Text

  -- `str(row.get(key) or "")`
  abbrev pub key_of : Text → Row F → Text
  key_of key row = RiskSummary.str_or fl repr (get row key) []

  unfoldable pub line_within : Text × List (Row F) → LineWithin fl repr
  line_within (k, group) =
      let km_total = RiskSummary.sum_of fl repr (text "km_total") group in
      let km_alert = RiskSummary.sum_of fl repr (text "km_alert") group in
      let km_warning = RiskSummary.sum_of fl repr (text "km_warning") group in
      record {
        key = k;
        km_total = km_total;
        km_alert = km_alert;
        km_warning = km_warning;
        risk_index = RiskSummary.risk_index fl repr km_total km_alert km_warning;
      }

  -- `(-index, -km_alert, key)`
  unfoldable pub line_within_lt : LineWithin fl repr → LineWithin fl repr → Bool
  line_within_lt u v =
      let i = RiskSummary.sort_index fl repr u.risk_index in
      let j = RiskSummary.sort_index fl repr v.risk_index in
      first_of_pair (eq i j) (lt i j) (
        first_of_pair (eq (neg u.km_alert) (neg v.km_alert)) (lt (neg u.km_alert) (neg v.km_alert))
          (text_lt u.key v.key))

  unfoldable pub summarise_lines_within : List (Row F) → List (LineWithin fl repr)
  summarise_lines_within rows =
      sorted line_within_lt (map line_within (group_by (key_of (text "line_name")) rows))

  -- The dictionary of such a line.
  abbrev pub line_row : LineWithin fl repr → Row F
  line_row line =
      (text "key", string line.key)
      ∷ (text "km_total", number line.km_total)
      ∷ (text "km_alert", number line.km_alert)
      ∷ (text "km_warning", number line.km_warning)
      ∷ []

  unfoldable pub worst_lines_of : List (LineWithin fl repr) → List Text
  worst_lines_of lines =
      map (λ line. line.key)
        (keep
          (λ line.
            lt fl.zero (RiskSummary.km_at_or_above fl repr (line_row line) (some (text "WARNING"))))
          (take 3 lines))

  unfoldable pub operational_units_of : List (Row F) → List Text
  operational_units_of group = sorted_set (
      map (λ r. RiskSummary.str fl repr (get r (text "operational_unit")))
        (keep (λ r. RiskSummary.truthy fl repr (get r (text "operational_unit"))) group))

  unfoldable pub summary_of : Text → Text × List (Row F) → Summary
  summary_of key (k, group) =
      let km_total = RiskSummary.sum_of fl repr (text "km_total") group in
      let km_alert = RiskSummary.sum_of fl repr (text "km_alert") group in
      let km_warning = RiskSummary.sum_of fl repr (text "km_warning") group in
      let lines = if key == text "line_name" then [] else summarise_lines_within group in
      record {
        key = k;
        n_tratte = length group;
        km_total = round km_total 2;
        km_alert = round km_alert 2;
        km_warning = round km_warning 2;
        pct_alert = RiskSummary.pct fl repr km_alert km_total;
        pct_warning = RiskSummary.pct fl repr km_warning km_total;
        risk_index = RiskSummary.risk_index fl repr km_total km_alert km_warning;
        worst_level = worst_of (
            map (λ r. RiskSummary.str_or fl repr (get r (text "worst_level")) (text "NORMAL"))
              group);
        operational_units = operational_units_of group;
        worst_lines = worst_lines_of lines;
      }

  -- `(-index, key)`
  unfoldable pub summary_lt : Summary → Summary → Bool
  summary_lt u v =
      let i = RiskSummary.sort_index fl repr u.risk_index in
      let j = RiskSummary.sort_index fl repr v.risk_index in
      first_of_pair (eq i j) (lt i j) (text_lt u.key v.key)

  unfoldable pub summarise : List (Row F) → Text → List Summary
  summarise rows key = sorted summary_lt (map (summary_of key) (group_by (key_of key) rows))
