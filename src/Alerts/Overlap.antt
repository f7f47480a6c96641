-- ===== src/Alerts/Overlap.antt =====
-- Calls of the notification settings that overlap (src/celine/grid/api/alerts.py): each reads in one
-- step and commits in a later one, and other calls may commit between.
use celine_grid.Prelude.{
  ℕ, Text, text_eq, eqb, Bool, false, not, ◌||◌, Option, none, some, List, [], ◌∷◌, ◌++◌, map,
  if◌then◌else◌,
}
use celine_grid.Models.{
  NotificationSettings, Db, missing_row, Result, ok, raise, scalar_one_or_none, settings_of,
}
use celine_grid.Alerts.{Field, unset, set, NotificationSettingsUpdate}
use celine_grid.Alerts.Handlers.{nullable, same_option, same_text}
use celine_grid.Alerts.Settings.{
  with_settings, new_settings, set_settings, insert_settings, get_found,
}

-- What a call has found of its user when it goes on.
pub data Pending : Type 0 where
  getting : Text → Result (Option NotificationSettings) → Pending
  putting : NotificationSettingsUpdate → Text → Result (Option NotificationSettings) → Pending

abbrev pub user_of : Pending → Text
user_of (getting user found) = user
user_of (putting body user found) = user

abbrev pub found_of : Pending → Result (Option NotificationSettings)
found_of (getting user found) = found
found_of (putting body user found) = found

-- Whether an assignment changes a column, which may be null, of the row that was read.
unfoldable pub changes {ℓ} : {A : Type ℓ} → (A → A → Bool) → Field A → Option A → Bool
changes same unset seen = false
changes same (set value) seen = not (same_option same value seen)

-- A commit writes the columns that the call changed, and no other.
unfoldable pub write_columns :
    NotificationSettingsUpdate
    → ℕ
    → NotificationSettings
    → NotificationSettings
    → NotificationSettings
write_columns body now seen row =
    let email = changes same_text body.email_recipients seen.email_recipients in
    let webhook = changes same_text body.webhook_url seen.webhook_url in
    record {
      id = row.id;
      user_id = row.user_id;
      email_recipients =
          if email
          then nullable body.email_recipients row.email_recipients
          else row.email_recipients;
      webhook_url = if webhook then nullable body.webhook_url row.webhook_url else row.webhook_url;
      created_at = row.created_at;
      updated_at = if email || webhook then now else row.updated_at;
    }

-- `UPDATE … WHERE id = …`, over the rows that are there now.
unfoldable pub update_rows :
    NotificationSettingsUpdate
    → ℕ
    → NotificationSettings
    → List NotificationSettings
    → List NotificationSettings
update_rows body now seen =
    map (λ row. if eqb row.id seen.id then write_columns body now seen row else row)

-- `db.refresh`
unfoldable pub refresh : ℕ → List NotificationSettings → Result NotificationSettings
refresh id [] = raise missing_row
refresh id (row ∷ rows) = let rest = refresh id rows in if eqb row.id id then ok row else rest

unfoldable pub commit_found :
    Result (Option NotificationSettings)
    → ℕ
    → ℕ
    → NotificationSettingsUpdate
    → Text
    → Db
    → Result NotificationSettings × Db
commit_found (raise e) id now body user db = (raise e, db)
commit_found (ok none) id now body user db =
    insert_settings (set_settings body now (new_settings id now user)) db
commit_found (ok (some seen)) id now body user db =
    let rows = update_rows body now seen db.settings in
    (refresh seen.id rows, with_settings rows db)

-- The second step of a call, with the id that the sequence gives and the time.
unfoldable pub finish : ℕ → ℕ → Pending → Db → Result NotificationSettings × Db
finish id now (getting user found) db = get_found found id now user db
finish id now (putting body user found) db = commit_found found id now body user db

-- The database, and the calls that have read and not gone on.
pub record Serving : Type 0 where
  pub db : Db
  pub open_calls : List Pending

abbrev pub serving : Db → List Pending → Serving
serving db open_calls = record { db = db; open_calls = open_calls }

-- A read comes first in the list; any open call may go on.
pub data Step : Serving → Serving → Type 0 where
  read_to_get :
      {db : Db} {calls : List Pending} (user : Text)
      → Step
          (serving db calls)
          (serving db (getting user (scalar_one_or_none (settings_of user db.settings)) ∷ calls))
  read_to_put :
      {db : Db} {calls : List Pending} (body : NotificationSettingsUpdate) (user : Text)
      → Step (serving db calls) (
          serving db
            (putting body user (scalar_one_or_none (settings_of user db.settings)) ∷ calls))
  go_on :
      {db : Db} (newer : List Pending) (call : Pending) (older : List Pending) (id now : ℕ)
      → Step
          (serving db (newer ++ call ∷ older))
          (serving (finish id now call db).1 (newer ++ older))

pub data Reach (s : Serving) : Serving → Type 0 where
  here : Reach s s
  next : {t u : Serving} → Reach s t → Step t u → Reach s u
