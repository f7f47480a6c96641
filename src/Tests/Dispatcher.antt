-- ===== src/Tests/Dispatcher.antt =====
-- A dispatch over three rules, with services that accept the first report only.
use celine_grid.Prelude.{
  all, ℕ, suc, Text, text, text_eq, ◌≡◌, refl, true, false, Option, none, some, List, [], ◌∷◌, map,
  All, length, ltb,
}
use celine_grid.Prelude.Perms.{Distinct, sum_by}
use celine_grid.Models.{AlertRule, Db, HasUniqueUsers, settings_of}
use celine_grid.Dispatcher.{Triggered, merge_by_recipients}
use celine_grid.Dispatcher.Dispatch.{Platform, active_rules, dispatch_grid_alerts}
use celine_grid.Dispatcher.Contents.{
  Holds, own, id_of, rule_count, merge_by_recipients_partition, merge_by_recipients-Holds,
}
use celine_grid.Dispatcher.Sending.{recorded}
use celine_grid.Dispatcher.Outcome.{IsDispatched, exposure, dispatch_grid_alerts-IsDispatched}
use celine_grid.RiskSummary.{num}
use celine_grid.RiskSummary.Checked.{is_readable, in_range}
use celine_grid.Values.{get}
use celine_grid.Tests.Data.{wholes, no_repr, ascii_lower, rows}

abbrev pub rule : ℕ → Text → Text → Option Text → AlertRule
rule id user threshold recipients = record {
  id = id;
  user_id = user;
  network_id = text "net-a";
  risk_types = some (text "wind" ∷ text "heat" ∷ []);
  threshold = threshold;
  network_id_unset = false;
  recipients = recipients;
  active = true;
  created_at = id;
  updated_at = id;
}

abbrev pub shared : AlertRule
shared = rule 1 (text "u1") (text "ALERT") (some (text "ops@dso.it"))

abbrev pub warned : AlertRule
warned = rule 2 (text "u2") (text "WARNING") (some (text "OPS@dso.it"))

abbrev pub own_settings : AlertRule
own_settings = rule 3 (text "u3") (text "ALERT") none

abbrev pub db : Db
db = record {
  rules = shared ∷ warned ∷ own_settings ∷ [];
  settings =
      record {
        id = 1;
        user_id = text "u3";
        email_recipients = some (text "night@dso.it");
        webhook_url = none;
        created_at = 1;
        updated_at = 1;
      }
      ∷ [];
}

abbrev triggered : List Triggered
triggered =
    record { rule = shared; vectors = text "wind" ∷ []; recipients = text "ops@dso.it" ∷ [] }
    ∷ record {
      rule = warned;
      vectors = text "wind" ∷ text "heat" ∷ [];
      recipients = text "OPS@dso.it" ∷ [];
    }
    ∷ record { rule = own_settings; vectors = text "wind" ∷ []; recipients = [] }
    ∷ []

-- The world counts the reports.
abbrev pub services : Platform wholes no_repr
services = record {
  World = ℕ;
  now = λ w. text "now";
  fetch_values = λ n f ds l k w. (some rows, w);
  ingest_event = λ r w. (ltb w 1, suc w);
}

abbrev dates : List Text
dates = text "2026-08-15" ∷ text "2026-08-16" ∷ []

pub db-HasUniqueUsers : HasUniqueUsers db.settings
unfolding settings_of
db-HasUniqueUsers = (refl, tt)

merge_by_recipients_partition_example :
    Distinct (map id_of (merge_by_recipients ascii_lower (λ s. s) triggered))
    × (sum_by rule_count (merge_by_recipients ascii_lower (λ s. s) triggered) ≡ length triggered)
merge_by_recipients_partition_example = merge_by_recipients_partition ascii_lower (λ s. s) triggered

merge_by_recipients-Holds_example :
    All
      (λ g. Holds (text "heat") (own ascii_lower (λ s. s) triggered g) g)
      (merge_by_recipients ascii_lower (λ s. s) triggered)
merge_by_recipients-Holds_example =
    merge_by_recipients-Holds ascii_lower (λ s. s) triggered (text "heat")

fetched-readable :
    all (is_readable wholes no_repr) (
      exposure wholes no_repr services
        (text "net-a")
        dates
        (active_rules wholes no_repr (text "net-a") db)
        0)
    ≡ true
unfolding active_rules is_readable in_range num get text_eq
fetched-readable = refl

dispatch_grid_alerts-IsDispatched_example :
    let rules = active_rules wholes no_repr (text "net-a") db in
    IsDispatched wholes no_repr ascii_lower
      (λ s. s)
      (text "app")
      db
      services
      db-HasUniqueUsers
      (text "net-a")
      dates
      rules
      (exposure wholes no_repr services (text "net-a") dates rules 0)
      []
      (dispatch_grid_alerts wholes no_repr ascii_lower
        (λ s. s)
        (text "app")
        db
        (recorded wholes no_repr services)
        (text "net-a")
        dates
        (0, []))
dispatch_grid_alerts-IsDispatched_example =
    dispatch_grid_alerts-IsDispatched wholes no_repr ascii_lower (λ s. s) (text "app") db services
      db-HasUniqueUsers (text "net-a") dates 0 [] fetched-readable

no_rules : active_rules wholes no_repr (text "net-b") db ≡ []
unfolding active_rules text_eq
no_rules = refl
