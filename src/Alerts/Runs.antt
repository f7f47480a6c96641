-- ===== src/Alerts/Runs.antt =====
-- Any number of calls of the alerts API, by any users, one after the other.
use celine_grid.Prelude.{ℕ, Text, Bool, true, false, List, [], ◌∷◌, ◌≡◌, ◌≢◌, refl, ◌∙◌, All}
use celine_grid.Models.{Db, settings_of}
use celine_grid.Identity.{JwtUser}
use celine_grid.Alerts.{
  AlertRuleCreate, AlertRuleUpdate, NotificationSettingsUpdate, create_valid, update_valid,
}
use celine_grid.Alerts.Handlers.{rules_of, create_alert_rule, update_alert_rule, delete_alert_rule}
use celine_grid.Alerts.Settings.{get_notification_settings, update_notification_settings}
use celine_grid.Alerts.Isolation.{
  WellFormed, IsSafe, same-IsSafe, create_alert_rule-IsSafe, update_alert_rule-IsSafe,
  delete_alert_rule-IsSafe,
}
use celine_grid.Alerts.SettingsIsolation.{
  get_notification_settings-IsSafe, update_notification_settings-IsSafe,
}

-- A call of a route, with the new id and the time where it may insert or update.
pub data Call : Type 0 where
  list_rules : Call
  create_rule : ℕ → ℕ → AlertRuleCreate → Call
  update_rule : ℕ → AlertRuleUpdate → ℕ → Call
  delete_rule : ℕ → Call
  get_settings : ℕ → ℕ → Call
  put_settings : ℕ → ℕ → NotificationSettingsUpdate → Call

-- A body that the schema refuses is answered with 422 before its handler runs.
unfoldable pub checked : Bool → Db → Db → Db
checked true handled db = handled
checked false handled db = db

-- The database that the call of an admitted user leaves.
unfoldable pub after : JwtUser → Call → Db → Db
after user list_rules db = db
after user (create_rule id now body) db =
    checked (create_valid body) (create_alert_rule id now body user db).1 db
after user (update_rule id body now) db =
    checked (update_valid body) (update_alert_rule id body now user db).1 db
after user (delete_rule id) db = (delete_alert_rule id user db).1
after user (get_settings id now) db = (get_notification_settings id now user db).1
after user (put_settings id now body) db = (update_notification_settings id now body user db).1

unfoldable pub after_all : List (JwtUser × Call) → Db → Db
after_all [] db = db
after_all ((user, call) ∷ calls) db = after_all calls (after user call db)

checked-IsSafe :
    (valid : Bool) (user : Text) (handled db : Db)
    → WellFormed db
    → IsSafe user db handled
    → IsSafe user db (checked valid handled db)
unfolding checked
checked-IsSafe true user handled db w h = h
checked-IsSafe false user handled db w h = same-IsSafe user db w

-- On a well-formed database, whatever a user calls, the ids of each table stay distinct, no user gets
-- two rows of settings, and the rules and the settings of every other user stay as they are.
pub after-IsSafe :
    (user : JwtUser) (call : Call) (db : Db)
    → WellFormed db
    → IsSafe user.sub db (after user call db)
unfolding after
after-IsSafe user list_rules db w = same-IsSafe user.sub db w
after-IsSafe user (create_rule id now body) db w =
    checked-IsSafe (create_valid body) user.sub _ db w
      (create_alert_rule-IsSafe id now body user db w)
after-IsSafe user (update_rule id body now) db w =
    checked-IsSafe (update_valid body) user.sub _ db w
      (update_alert_rule-IsSafe id body now user db w)
after-IsSafe user (delete_rule id) db w = delete_alert_rule-IsSafe id user db w
after-IsSafe user (get_settings id now) db w = get_notification_settings-IsSafe id now user db w
after-IsSafe user (put_settings id now body) db w =
    update_notification_settings-IsSafe id now body user db w

after_all-WellFormed :
    (calls : List (JwtUser × Call)) (db : Db) → WellFormed db → WellFormed (after_all calls db)
unfolding after_all
after_all-WellFormed [] db w = w
after_all-WellFormed ((user, call) ∷ calls) db w =
    after_all-WellFormed calls (after user call db) (after-IsSafe user call db w).0

-- From a well-formed database, over any number of calls of other users, the rules and the settings of
-- a user stay as they are.
pub after_all-others :
    (v : Text) (calls : List (JwtUser × Call)) (db : Db)
    → WellFormed db
    → All (λ c. c.0.sub ≢ v) calls
    → (rules_of v (after_all calls db).rules ≡ rules_of v db.rules)
      × (settings_of v (after_all calls db).settings ≡ settings_of v db.settings)
unfolding after_all
after_all-others v [] db w ne = (refl, refl)
after_all-others v ((user, call) ∷ calls) db w ne =
    let safe = after-IsSafe user call db w in
    let rest = after_all-others v calls (after user call db) safe.0 ne.1 in
    let first = safe.1 v ne.0 in (rest.0 ∙ first.0, rest.1 ∙ first.1)
