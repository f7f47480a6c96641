-- ===== src/Alerts/Gate.antt =====
-- The routes of the alerts API behind their dependencies (src/celine/grid/api/alerts.py and
-- src/celine/grid/api/deps.py): from a request to what is answered and what is stored.
use celine_grid.Prelude.{Text, Bool, true, false, Option, List, []}
use celine_grid.Models.{AlertRule, NotificationSettings, Db, http, Result, ok, raise}
use celine_grid.Identity.{JwtUser}
use celine_grid.Policy.{Engine}
use celine_grid.Access.{
  TokenCheck, Request, require_alerts_read, require_alerts_write, middleware, get_user_from_request,
}
use celine_grid.Alerts.{create_valid, update_valid}
use celine_grid.Alerts.Handlers.{
  list_alert_rules, create_alert_rule, update_alert_rule, delete_alert_rule, NoContent,
}
use celine_grid.Alerts.Settings.{get_notification_settings, update_notification_settings}
use celine_grid.Alerts.Runs.{
  Call, list_rules, create_rule, update_rule, delete_rule, get_settings, put_settings,
}

pub data Response : Type 0 where
  rules_response : List AlertRule → Response
  rule_response : AlertRule → Response
  settings_response : NotificationSettings → Response
  empty_response : NoContent → Response

-- What a handler returned, as the response of its route.
abbrev pub responds {ℓ} : {A : Type ℓ} → (A → Response) → Result A × Db → Result Response × Db
responds respond (ok a, db) = (ok (respond a), db)
responds respond (raise e, db) = (raise e, db)

-- A body that the schema refuses is answered before the handler runs.
abbrev pub if_valid : Bool → Db → Result Response × Db → Result Response × Db
if_valid true db handled = handled
if_valid false db handled = (raise (http 422 []), db)

-- The routes, for a caller that the dependency of each has let through.
unfoldable pub route : JwtUser → Call → Db → Result Response × Db
route user list_rules db = responds rules_response (list_alert_rules user db, db)
route user (create_rule id now body) db =
    if_valid (create_valid body) db (responds rule_response (create_alert_rule id now body user db))
route user (update_rule id body now) db =
    if_valid (update_valid body) db (responds rule_response (update_alert_rule id body now user db))
route user (delete_rule id) db = responds empty_response (delete_alert_rule id user db)
route user (get_settings id now) db =
    responds settings_response (get_notification_settings id now user db)
route user (put_settings id now body) db =
    responds settings_response (update_notification_settings id now body user db)

-- `AlertsReadDep` or `AlertsWriteDep`.
unfoldable pub require_for : Call → Bool → Option Engine → JwtUser → Result JwtUser
require_for list_rules dev engine user = require_alerts_read dev engine user
require_for (get_settings id now) dev engine user = require_alerts_read dev engine user
require_for (create_rule id now body) dev engine user = require_alerts_write dev engine user
require_for (update_rule id body now) dev engine user = require_alerts_write dev engine user
require_for (delete_rule id) dev engine user = require_alerts_write dev engine user
require_for (put_settings id now body) dev engine user = require_alerts_write dev engine user

-- A dependency that raises ends the request.
unfoldable pub route_for : Result JwtUser → Call → Db → Result Response × Db
route_for (raise e) call db = (raise e, db)
route_for (ok user) call db = route user call db

unfoldable pub require_user :
    Bool → Option Engine → Result JwtUser → Call → Db → Result Response × Db
require_user dev engine (raise e) call db = (raise e, db)
require_user dev engine (ok user) call db = route_for (require_for call dev engine user) call db

module _ (lower : Text → Text) (jwt_header_name : Text) (from_token : Text → TokenCheck) where
  -- The application with the route of `call`: the gate, the caller, the policy, the route.
  unfoldable pub serve_call : Bool → Option Engine → Request → Call → Db → Result Response × Db
  serve_call dev engine r call db =
      require_user dev engine
        (middleware lower jwt_header_name (get_user_from_request lower jwt_header_name from_token)
          r)
        call db
