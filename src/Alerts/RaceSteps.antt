-- ===== src/Alerts/RaceSteps.antt =====
-- What the second step of an overlapping call does to the tables.
use celine_grid.Prelude.{
  ℕ, Text, text_eq, eqb, Bool, true, ◌||◌, Option, none, some, List, [], ◌∷◌, keep, ◌≡◌, refl, sym,
  subst, Bool-cases, inl, inr, All,
}
use celine_grid.Prelude.Tables.{AllOf, UniqueKeys-keep, owned-remove}
use celine_grid.Prelude.Rewrites.{Keeps, UniqueKeys-changed, AllOf-changed, owned-changed}
use celine_grid.Models.{NotificationSettings, AlertRule, Db, Result, ok, raise}
use celine_grid.Alerts.{is_null, AlertRuleUpdate}
use celine_grid.Alerts.Handlers.{rules_of, has_rule, with_rules, remove_rule}
use celine_grid.Alerts.Settings.{new_settings, set_settings, insert_settings}
use celine_grid.Alerts.Isolation.{rule_id, rule_user, WellFormed, IsSafe, same-IsSafe}
use celine_grid.Alerts.Validity.{insert_checked-rules, get_found-rules}
use celine_grid.Alerts.Overlap.{Pending, getting, putting, user_of, found_of, commit_found, finish}
use celine_grid.Alerts.Interleavings.{Remembers, Grows, IsEnding}
use celine_grid.Alerts.Endings.{finish-IsEnding}
use celine_grid.Alerts.Races.{
  write_rule_columns, update_rule_rows, commit_rule, finish_update, finish_delete, was_used,
}

-- Every rule has an id that was used.
abbrev pub AreUsed : List ℕ → List AlertRule → Type 0
AreUsed used = All (λ r. was_used r.id used ≡ true)

-- Steps keep what open calls rely on: no settings are lost, the rows of an id keep their owner, and
-- no id is new.
abbrev pub IsTame : List ℕ → Db → Db → Type 0
IsTame used db db' =
    Grows db.settings db'.settings
    × ((k : ℕ) (u : Text)
        → AllOf rule_id rule_user k u db.rules
        → AllOf rule_id rule_user k u db'.rules)
    × (AreUsed used db.rules → AreUsed used db'.rules)

-- What a read of a rule has found: a rule of the user, whose id is that of no other user's.
abbrev pub Recalls : Text → Result (Option AlertRule) → List ℕ → List AlertRule → Type 0
Recalls user (raise e) used rows = ⊥
Recalls user (ok none) used rows = Unit
Recalls user (ok (some r)) used rows =
    (r.user_id ≡ user) × (was_used r.id used ≡ true) × AllOf rule_id rule_user r.id user rows

abbrev pub IsStep : Text → List ℕ → Db → Db → Type 0
IsStep user used db db' = IsSafe user db db' × IsTame used db db'

same-IsStep : (user : Text) (used : List ℕ) (db : Db) → WellFormed db → IsStep user used db db
same-IsStep user used db w = (same-IsSafe user db w, ((λ k u h. h), (λ k u h. h), λ h. h))

module _ (body : AlertRuleUpdate) (now : ℕ) (seen : AlertRule) where
  write_rule_columns-Keeps : Keeps rule_id rule_user (write_rule_columns body now seen)
  unfolding write_rule_columns
  write_rule_columns-Keeps row = (refl, refl)

  update_rule_rows-AreUsed :
      (used : List ℕ) (rows : List AlertRule)
      → AreUsed used rows
      → AreUsed used (update_rule_rows body now seen rows)
  unfolding update_rule_rows write_rule_columns
  update_rule_rows-AreUsed used [] h = tt
  update_rule_rows-AreUsed used (row ∷ rows) h = elim (Bool-cases (eqb row.id seen.id)) [
    | inl same ↦ rw same (h.0, update_rule_rows-AreUsed used rows h.1)
    | inr other ↦ rw other (h.0, update_rule_rows-AreUsed used rows h.1)
  ]

  written-IsStep :
      (used : List ℕ) (db : Db)
      → WellFormed db
      → AllOf rule_id rule_user seen.id seen.user_id db.rules
      → IsStep seen.user_id used db (with_rules (update_rule_rows body now seen db.rules) db)
  unfolding update_rule_rows rules_of
  written-IsStep used db w owners = (
    (
      (
        UniqueKeys-changed rule_id rule_user seen.id (write_rule_columns body now seen)
            write_rule_columns-Keeps db.rules w.0,
        w.1,
        w.2,
      ),
      λ v ne. (
        owned-changed rule_id rule_user seen.id (write_rule_columns body now seen)
            write_rule_columns-Keeps seen.user_id v db.rules ne owners,
        refl,
      ),
    ),
    (
      λ k u h. h,
      λ k u.
          AllOf-changed rule_id rule_user seen.id (write_rule_columns body now seen)
            write_rule_columns-Keeps k u db.rules,
      update_rule_rows-AreUsed used db.rules,
    ),
  )

  commit_rule-IsStep :
      (used : List ℕ) (db : Db)
      → WellFormed db
      → AllOf rule_id rule_user seen.id seen.user_id db.rules
      → IsStep seen.user_id used db (commit_rule body now seen db).1
  unfolding commit_rule
  commit_rule-IsStep used db w owners = elim (Bool-cases (has_rule seen.id db.rules)) [
    | inr gone ↦ rw gone (same-IsStep seen.user_id used db w)
    | inl there ↦ rw there (elim (Bool-cases (is_null body.threshold || is_null body.active)) [
      | inl null' ↦ rw null' (same-IsStep seen.user_id used db w)
      | inr other ↦ rw other (written-IsStep used db w owners)
    ])
  ]

AllOf-keep :
    (p : AlertRule → Bool) (k : ℕ) (u : Text) (rows : List AlertRule)
    → AllOf rule_id rule_user k u rows
    → AllOf rule_id rule_user k u (keep p rows)
AllOf-keep p k u [] h = tt
AllOf-keep p k u (row ∷ rows) h = elim (Bool-cases (p row)) [
  | inl kept ↦ rw kept (h.0, AllOf-keep p k u rows h.1)
  | inr dropped ↦ rw dropped (AllOf-keep p k u rows h.1)
]

pub AreUsed-keep :
    (p : AlertRule → Bool) (used : List ℕ) (rows : List AlertRule)
    → AreUsed used rows
    → AreUsed used (keep p rows)
AreUsed-keep p used [] h = tt
AreUsed-keep p used (row ∷ rows) h = elim (Bool-cases (p row)) [
  | inl kept ↦ rw kept (h.0, AreUsed-keep p used rows h.1)
  | inr dropped ↦ rw dropped (AreUsed-keep p used rows h.1)
]

removed-IsStep :
    (user : Text) (id : ℕ) (used : List ℕ) (db : Db)
    → WellFormed db
    → AllOf rule_id rule_user id user db.rules
    → IsStep user used db (with_rules (remove_rule id db.rules) db)
unfolding remove_rule rules_of
removed-IsStep user id used db w owners = (
  (
    (UniqueKeys-keep rule_id rule_user _ db.rules w.0, w.1, w.2),
    λ v ne. (owned-remove rule_id rule_user id user v db.rules ne owners, refl),
  ),
  (λ k u h. h, λ k u. AllOf-keep _ k u db.rules, AreUsed-keep _ used db.rules),
)

-- The step of an update or of a deletion, by what was read.
pub finish_update-IsStep :
    (found : Result (Option AlertRule)) (body : AlertRuleUpdate) (now : ℕ) (user : Text)
    (used : List ℕ) (db : Db)
    → WellFormed db
    → Recalls user found used db.rules
    → IsStep user used db (finish_update found body now db).1
unfolding finish_update
finish_update-IsStep (raise e) body now user used db w h = absurd h
finish_update-IsStep (ok none) body now user used db w h = same-IsStep user used db w
finish_update-IsStep (ok (some seen)) body now user used db w (own', used', owners) =
    subst (λ u. IsStep u used db (commit_rule body now seen db).1) own'
      (commit_rule-IsStep body now seen used db w (rw own' owners))

pub finish_delete-IsStep :
    (found : Result (Option AlertRule)) (user : Text) (used : List ℕ) (db : Db)
    → WellFormed db
    → Recalls user found used db.rules
    → IsStep user used db (finish_delete found db).1
unfolding finish_delete
finish_delete-IsStep (raise e) user used db w h = absurd h
finish_delete-IsStep (ok none) user used db w h = same-IsStep user used db w
finish_delete-IsStep (ok (some seen)) user used db w h = removed-IsStep user seen.id used db w h.2

finish-rules : (id now : ℕ) (call : Pending) (db : Db) → (finish id now call db).1.rules ≡ db.rules
unfolding finish commit_found insert_settings
finish-rules id now (getting user found) db = get_found-rules found id now user db
finish-rules id now (putting body user (raise e)) db = refl
finish-rules id now (putting body user (ok (some seen))) db = refl
finish-rules id now (putting body user (ok none)) db =
    insert_checked-rules _ _ (set_settings body now (new_settings id now user)) db

IsEnding-IsSafe :
    (id : ℕ) (user : Text) (db : Db) (out : Result NotificationSettings × Db)
    → WellFormed db
    → IsEnding id user db out
    → IsSafe user db out.1 × Grows db.settings out.1.settings
IsEnding-IsSafe id user db (ok ns, db') w h = (h.1, h.2)
IsEnding-IsSafe id user db (raise e, db') w h =
    subst (λ d. IsSafe user db d × Grows db.settings d.settings) (sym h.1)
      (same-IsSafe user db w, λ k u m. m)

pub finish-IsStep :
    (id now : ℕ) (call : Pending) (used : List ℕ) (db : Db)
    → WellFormed db
    → Remembers (user_of call) (found_of call) db.settings
    → IsStep (user_of call) used db (finish id now call db).1
finish-IsStep id now call used db w h =
    let (safe, grown) =
      IsEnding-IsSafe id (user_of call) db (finish id now call db) w
        (finish-IsEnding id now call db w h) in
    let same = finish-rules id now call db in
    (
      safe,
      (
        grown,
        λ k u m. subst (AllOf rule_id rule_user k u) (sym same) m,
        λ m. subst (AreUsed used) (sym same) m,
      ),
    )
