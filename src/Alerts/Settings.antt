-- ===== src/Alerts/Settings.antt =====
-- The routes of the notification settings (src/celine/grid/api/alerts.py).
-- A user without settings gets new ones, with an id of the database's sequence.
use celine_grid.Prelude.{
  ℕ, Text, text_eq, eqb, Bool, true, false, ◌&&◌, Option, none, some, List, [], ◌∷◌, ◌++◌, map, any,
  if◌then◌else◌,
}
use celine_grid.Models.{
  NotificationSettings, Db, integrity_error, Result, ok, raise, scalar_one_or_none, settings_of,
}
use celine_grid.Identity.{JwtUser}
use celine_grid.Alerts.{NotificationSettingsUpdate}
use celine_grid.Alerts.Handlers.{nullable, same_option, same_text}

abbrev pub with_settings : List NotificationSettings → Db → Db
with_settings settings db = record { rules = db.rules; settings = settings }

abbrev pub new_settings : ℕ → ℕ → Text → NotificationSettings
new_settings id now user = record {
  id = id;
  user_id = user;
  email_recipients = none;
  webhook_url = none;
  created_at = now;
  updated_at = now;
}

abbrev pub set_settings :
    NotificationSettingsUpdate → ℕ → NotificationSettings → NotificationSettings
set_settings body now ns = record {
  id = ns.id;
  user_id = ns.user_id;
  email_recipients = nullable body.email_recipients ns.email_recipients;
  webhook_url = nullable body.webhook_url ns.webhook_url;
  created_at = ns.created_at;
  updated_at = now;
}

unfoldable pub same_settings : NotificationSettings → NotificationSettings → Bool
same_settings a b =
    same_option same_text a.email_recipients b.email_recipients
    && same_option same_text a.webhook_url b.webhook_url

-- What a commit makes of a row whose columns were set: nothing, if none of them changed.
unfoldable pub stamp_settings : NotificationSettings → NotificationSettings → NotificationSettings
stamp_settings old new = if same_settings old new then old else new

unfoldable pub has_settings : ℕ → List NotificationSettings → Bool
has_settings id = any (λ s. eqb s.id id)

-- The id is the primary key, and the user of the settings is unique.
unfoldable pub insert_checked :
    List NotificationSettings → Bool → NotificationSettings → Db → Result NotificationSettings × Db
insert_checked [] false ns db = (ok ns, with_settings (db.settings ++ (ns ∷ [])) db)
insert_checked [] true ns db = (raise integrity_error, db)
insert_checked (other ∷ others) taken ns db = (raise integrity_error, db)

unfoldable pub insert_settings : NotificationSettings → Db → Result NotificationSettings × Db
insert_settings ns db =
    insert_checked (settings_of ns.user_id db.settings) (has_settings ns.id db.settings) ns db

unfoldable pub get_found :
    Result (Option NotificationSettings) → ℕ → ℕ → Text → Db → Result NotificationSettings × Db
get_found (raise e) id now user db = (raise e, db)
get_found (ok (some ns)) id now user db = (ok ns, db)
get_found (ok none) id now user db = insert_settings (new_settings id now user) db

unfoldable pub get_notification_settings : ℕ → ℕ → JwtUser → Db → Result NotificationSettings × Db
get_notification_settings id now user db =
    get_found (scalar_one_or_none (settings_of user.sub db.settings)) id now user.sub db

-- `UPDATE … WHERE id = …`
unfoldable pub replace_settings :
    ℕ → NotificationSettings → List NotificationSettings → List NotificationSettings
replace_settings id new = map (λ s. if eqb s.id id then new else s)

unfoldable pub put_found :
    Result (Option NotificationSettings)
    → ℕ
    → ℕ
    → NotificationSettingsUpdate
    → Text
    → Db
    → Result NotificationSettings × Db
put_found (raise e) id now body user db = (raise e, db)
put_found (ok (some ns)) id now body user db =
    let new = stamp_settings ns (set_settings body now ns) in
    (ok new, with_settings (replace_settings ns.id new db.settings) db)
put_found (ok none) id now body user db =
    insert_settings (set_settings body now (new_settings id now user)) db

unfoldable pub update_notification_settings :
    ℕ → ℕ → NotificationSettingsUpdate → JwtUser → Db → Result NotificationSettings × Db
update_notification_settings id now body user db =
    put_found (scalar_one_or_none (settings_of user.sub db.settings)) id now body user.sub db
