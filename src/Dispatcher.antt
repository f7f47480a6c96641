-- ===== src/Dispatcher.antt =====
-- The alert dispatcher (src/celine/grid/services/alert_dispatcher.py).
-- The Digital Twin, the nudging service and the clock are a `Platform`: they act on a world that the
-- dispatcher does not see into.
pub mod Dispatch
pub mod Groups
pub mod Contents
pub mod Sending
pub mod Evaluation
pub mod Outcome
use celine_grid.Prelude.{
  ℕ, ◌+◌, Text, text, ◌==◌, text_eq, contains, if◌then◌else◌, Bool, true, false, ◌&&◌, Option, none,
  some, List, [], ◌∷◌, ◌++◌, map, keep, sorted, text_lt,
}
use celine_grid.Values.{Floats, Value, Row}
use celine_grid.Models.{
  AlertRule, NotificationSettings, Db, Error, index_error, Result, ok, raise, ◌>>=◌,
  scalar_one_or_none, settings_of,
}
use celine_grid.Recipients.{parse_recipients, synthetic_email_user_id}
use celine_grid.RiskSummary.{triggered_vectors}
use celine_grid.RiskSummary.Days.{Day, build_days}

abbrev pub risk_km_limit : ℕ
risk_km_limit = 20000

abbrev pub top_lines : ℕ
top_lines = 15

-- What a rule triggers for, with the addresses of its report.
pub record Triggered : Type 0 where
  pub rule : AlertRule
  pub vectors : List Text
  pub recipients : List Text

-- `vectors` is a set: a list without repetitions.
pub record Group : Type 0 where
  pub user_id : Text
  pub recipients : List Text
  pub vectors : List Text
  pub threshold : Text
  pub rules : List AlertRule

-- `vectors.update(more)`
unfoldable pub update_set : List Text → List Text → List Text
update_set vs [] = vs
update_set vs (v ∷ more) = update_set (if contains vs v then vs else vs ++ (v ∷ [])) more

unfoldable pub add_rule : Group → Triggered → Group
add_rule g t = record {
  user_id = g.user_id;
  recipients = g.recipients;
  vectors = update_set g.vectors t.vectors;
  threshold = if t.rule.threshold == text "WARNING" then text "WARNING" else g.threshold;
  rules = g.rules ++ (t.rule ∷ []);
}

-- The group that `setdefault` puts under a new key.
abbrev pub new_group : Text → List Text → Group
new_group user_id recipients = record {
  user_id = user_id;
  recipients = recipients;
  vectors = [];
  threshold = text "ALERT";
  rules = [];
}

unfoldable pub merge_one : Text → Triggered → List Group → List Group
merge_one user_id t [] = add_rule (new_group user_id t.recipients) t ∷ []
merge_one user_id t (g ∷ gs) =
    if g.user_id == user_id then add_rule g t ∷ gs else g ∷ merge_one user_id t gs

-- `lower` is `str.lower` and `hexdigest` the hexadecimal SHA-256.
module _ (lower : Text → Text) (hexdigest : Text → Text) where
  -- The user's own settings, where the rule has no addresses.
  unfoldable pub own_or_settings : AlertRule → Db → List Text → Result (List Text)
  own_or_settings rule db (e ∷ es) = ok (e ∷ es)
  own_or_settings rule db [] =
      scalar_one_or_none (settings_of rule.user_id db.settings) >>= λ found.
      ok (elim found [ none ↦ [] | some s ↦ parse_recipients lower s.email_recipients ])

  unfoldable pub rule_email_recipients : AlertRule → Db → Result (List Text)
  rule_email_recipients rule db = own_or_settings rule db (parse_recipients lower rule.recipients)

  -- Whose report a triggered rule goes into.
  unfoldable pub recipient_id : Triggered → Text
  recipient_id t = elim t.recipients [
    | [] ↦ t.rule.user_id
    | e ∷ es ↦ synthetic_email_user_id lower hexdigest (e ∷ es)
  ]

  unfoldable pub merge_onto : List Group → List Triggered → List Group
  merge_onto groups [] = groups
  merge_onto groups (t ∷ triggered) = merge_onto (merge_one (recipient_id t) t groups) triggered

  unfoldable pub merge_by_recipients : List Triggered → List Group
  merge_by_recipients = merge_onto []
