-- ===== src/Alerts/Races.antt =====
-- Calls of the whole alerts API that overlap (src/celine/grid/api/alerts.py): one that reads a row
-- goes on in a later step, and other calls may commit between.
use celine_grid.Prelude.{
  ℕ, text_eq, eqb, any, Text, Bool, true, false, not, ◌||◌, Option, none, some, List, [], ◌∷◌, ◌++◌,
  map, if◌then◌else◌, ◌≡◌,
}
use celine_grid.Models.{
  AlertRule, Db, missing_row, integrity_error, Result, ok, raise, ◌>>=◌, scalar_one_or_none,
  settings_of,
}
use celine_grid.Identity.{JwtUser}
use celine_grid.Alerts.{
  Field, unset, set, is_null, given, AlertRuleCreate, AlertRuleUpdate, NotificationSettingsUpdate,
}
use celine_grid.Alerts.Handlers.{
  respond, with_rules, own_rule, has_rule, create_alert_rule, nullable, same_text, same_texts,
  same_bool, NoContent, no_content, rule_not_found, remove_rule,
}
use celine_grid.Alerts.Overlap.{changes, Pending, getting, putting, finish}

-- Whether an assignment changes a column that may not be null: there a null is a change.
unfoldable pub changes_value {ℓ} : {A : Type ℓ} → (A → A → Bool) → Field A → A → Bool
changes_value same unset seen = false
changes_value same (set none) seen = true
changes_value same (set (some value)) seen = not (same value seen)

-- A commit writes the columns that the call changed, and no other.
unfoldable pub write_rule_columns : AlertRuleUpdate → ℕ → AlertRule → AlertRule → AlertRule
write_rule_columns body now seen row =
    let types = changes same_texts body.risk_types seen.risk_types in
    let threshold = changes_value same_text body.threshold seen.threshold in
    let recipients = changes same_text body.recipients seen.recipients in
    let active = changes_value same_bool body.active seen.active in
    record {
      id = row.id;
      user_id = row.user_id;
      network_id = row.network_id;
      risk_types = if types then nullable body.risk_types row.risk_types else row.risk_types;
      threshold = if threshold then given body.threshold row.threshold else row.threshold;
      network_id_unset = row.network_id_unset;
      recipients = if recipients then nullable body.recipients row.recipients else row.recipients;
      active = if active then given body.active row.active else row.active;
      created_at = row.created_at;
      updated_at = if types || threshold || recipients || active then now else row.updated_at;
    }

unfoldable pub update_rule_rows : AlertRuleUpdate → ℕ → AlertRule → List AlertRule → List AlertRule
update_rule_rows body now seen =
    map (λ row. if eqb row.id seen.id then write_rule_columns body now seen row else row)

-- `db.refresh`
unfoldable pub refresh_rule : ℕ → List AlertRule → Result AlertRule
refresh_rule id [] = raise missing_row
refresh_rule id (row ∷ rows) =
    let rest = refresh_rule id rows in if eqb row.id id then ok row else rest

-- The commit of an update of a row that was read: a row that is gone raises, and so does a null.
unfoldable pub commit_rule : AlertRuleUpdate → ℕ → AlertRule → Db → Result AlertRule × Db
commit_rule body now seen db =
    let rows = update_rule_rows body now seen db.rules in
    if not (has_rule seen.id db.rules)
    then (raise missing_row, db)
    else if is_null body.threshold || is_null body.active
    then (raise integrity_error, db)
    else (refresh_rule seen.id rows >>= respond, with_rules rows db)

unfoldable pub finish_update :
    Result (Option AlertRule) → AlertRuleUpdate → ℕ → Db → Result AlertRule × Db
finish_update (raise e) body now db = (raise e, db)
finish_update (ok none) body now db = (raise rule_not_found, db)
finish_update (ok (some seen)) body now db = commit_rule body now seen db

-- A `DELETE` of a row that is gone deletes nothing and is no error.
unfoldable pub finish_delete : Result (Option AlertRule) → Db → Result NoContent × Db
finish_delete (raise e) db = (raise e, db)
finish_delete (ok none) db = (raise rule_not_found, db)
finish_delete (ok (some seen)) db = (ok no_content, with_rules (remove_rule seen.id db.rules) db)

-- A call that has read, with what it found of its user.
pub data Open : Type 0 where
  of_settings : Pending → Open
  updating : AlertRuleUpdate → Text → Result (Option AlertRule) → Open
  deleting : Text → Result (Option AlertRule) → Open

-- What the second step of a call leaves, with an id for new settings and the time.
unfoldable pub finish_open : ℕ → ℕ → Open → Db → Db
finish_open id now (of_settings call) db = (finish id now call db).1
finish_open id now (updating body user found) db = (finish_update found body now db).1
finish_open id now (deleting user found) db = (finish_delete found db).1

-- The tables, the ids that rules have had so far, and the calls that have read and not gone on.
pub record Traffic : Type 0 where
  pub db : Db
  pub used : List ℕ
  pub open_calls : List Open

abbrev pub traffic : Db → List ℕ → List Open → Traffic
traffic db used open_calls = record { db = db; used = used; open_calls = open_calls }

-- Whether a rule has had the id.
abbrev pub was_used : ℕ → List ℕ → Bool
was_used id = any (λ k. eqb k id)

-- A read comes first in the list, and any open call may go on. A new id is one that no rule has had.
pub data Move : Traffic → Traffic → Type 0 where
  read_to_get :
      {db : Db} {used : List ℕ} {calls : List Open} (user : Text)
      → Move (traffic db used calls) (
          let found = scalar_one_or_none (settings_of user db.settings) in
          traffic db used (of_settings (getting user found) ∷ calls))
  read_to_put :
      {db : Db} {used : List ℕ} {calls : List Open} (body : NotificationSettingsUpdate)
      (user : Text)
      → Move (traffic db used calls) (
          let found = scalar_one_or_none (settings_of user db.settings) in
          traffic db used (of_settings (putting body user found) ∷ calls))
  read_to_update :
      {db : Db} {used : List ℕ} {calls : List Open} (id : ℕ) (body : AlertRuleUpdate) (user : Text)
      → Move (traffic db used calls) (
          let found = scalar_one_or_none (own_rule id user db.rules) in
          traffic db used (updating body user found ∷ calls))
  read_to_delete :
      {db : Db} {used : List ℕ} {calls : List Open} (id : ℕ) (user : Text)
      → Move (traffic db used calls) (
          let found = scalar_one_or_none (own_rule id user db.rules) in
          traffic db used (deleting user found ∷ calls))
  create :
      {db : Db} {used : List ℕ} {calls : List Open} (id now : ℕ) (body : AlertRuleCreate)
      (user : JwtUser)
      → was_used id used ≡ false
      → Move
          (traffic db used calls)
          (traffic (create_alert_rule id now body user db).1 (id ∷ used) calls)
  proceed :
      {db : Db} {used : List ℕ} (newer : List Open) (call : Open) (older : List Open) (id now : ℕ)
      → Move
          (traffic db used (newer ++ call ∷ older))
          (traffic (finish_open id now call db) used (newer ++ older))

pub data Moves (s : Traffic) : Traffic → Type 0 where
  stay : Moves s s
  move : {t u : Traffic} → Moves s t → Move t u → Moves s u
