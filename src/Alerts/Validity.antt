-- ===== src/Alerts/Validity.antt =====
-- Which rules the tables can hold: the checks of the bodies, over any number of calls.
use celine_grid.Prelude.{
  ℕ, Text, text_eq, Bool, true, false, Option, none, some, List, [], ◌∷◌, ◌≡◌, refl, All,
}
use celine_grid.Models.{NotificationSettings, Db, Result, ok, raise}
use celine_grid.Identity.{JwtUser}
use celine_grid.Access.{resolve_dso_network}
use celine_grid.Alerts.{create_valid, update_valid, NotificationSettingsUpdate}
use celine_grid.Alerts.Handlers.{create_alert_rule, update_alert_rule, delete_alert_rule}
use celine_grid.Alerts.Settings.{
  new_settings, set_settings, insert_checked, insert_settings, get_found, get_notification_settings,
  put_found, update_notification_settings,
}
use celine_grid.Alerts.Runs.{
  Call, list_rules, create_rule, update_rule, delete_rule, get_settings, put_settings, checked,
  after, after_all,
}
use celine_grid.Alerts.ValidRules.{
  IsValid, IsAccepted, All-IsAccepted, All-IsValid, create_on-All, update_found-All, own-IsAccepted,
  delete_found-All,
}

pub insert_checked-rules :
    (found : List NotificationSettings) (taken : Bool) (ns : NotificationSettings) (db : Db)
    → (insert_checked found taken ns db).1.rules ≡ db.rules
unfolding insert_checked
insert_checked-rules (x ∷ xs) taken ns db = refl
insert_checked-rules [] true ns db = refl
insert_checked-rules [] false ns db = refl

pub get_found-rules :
    (found : Result (Option NotificationSettings)) (id now : ℕ) (user : Text) (db : Db)
    → (get_found found id now user db).1.rules ≡ db.rules
unfolding get_found insert_settings
get_found-rules (raise e) id now user db = refl
get_found-rules (ok (some ns)) id now user db = refl
get_found-rules (ok none) id now user db = insert_checked-rules _ _ (new_settings id now user) db

put_found-rules :
    (found : Result (Option NotificationSettings)) (id now : ℕ) (body : NotificationSettingsUpdate)
    (user : Text) (db : Db)
    → (put_found found id now body user db).1.rules ≡ db.rules
unfolding put_found insert_settings
put_found-rules (raise e) id now body user db = refl
put_found-rules (ok (some ns)) id now body user db = refl
put_found-rules (ok none) id now body user db =
    insert_checked-rules _ _ (set_settings body now (new_settings id now user)) db

after-All :
    (user : JwtUser) (call : Call) (db : Db)
    → All IsAccepted db.rules
    → All IsAccepted (after user call db).rules
unfolding after checked create_alert_rule update_alert_rule delete_alert_rule
    get_notification_settings update_notification_settings
after-All user list_rules db h = h
after-All user (create_rule id now body) db h = go (create_valid body) refl
  where
    go :
        (valid : Bool)
        → create_valid body ≡ valid
        → All IsAccepted (checked valid (create_alert_rule id now body user db).1 db).rules
    go false e = h
    go true e = create_on-All (resolve_dso_network user) id now body user db e h
after-All user (update_rule id body now) db h = go (update_valid body) refl
  where
    go :
        (valid : Bool)
        → update_valid body ≡ valid
        → All IsAccepted (checked valid (update_alert_rule id body now user db).1 db).rules
    go false e = h
    go true e =
        update_found-All _ id body now db e h (λ rule. own-IsAccepted id user.sub db.rules rule h)
after-All user (delete_rule id) db h = delete_found-All _ id db h
after-All user (get_settings id now) db h = rw (get_found-rules _ id now user.sub db) h
after-All user (put_settings id now body) db h = rw (put_found-rules _ id now body user.sub db) h

after_all-IsAccepted :
    (calls : List (JwtUser × Call)) (db : Db)
    → All IsAccepted db.rules
    → All IsAccepted (after_all calls db).rules
unfolding after_all
after_all-IsAccepted [] db h = h
after_all-IsAccepted ((user, call) ∷ calls) db h =
    after_all-IsAccepted calls (after user call db) (after-All user call db h)

-- From tables whose rules are valid, after any calls of any users every rule has the threshold ALERT
-- or WARNING, and its hazards are a non-empty list of wind and heat, or null.
pub after_all-All :
    (calls : List (JwtUser × Call)) (db : Db)
    → All IsValid db.rules
    → All IsValid (after_all calls db).rules
after_all-All calls db h = All-IsValid _ (after_all-IsAccepted calls db (All-IsAccepted db.rules h))
