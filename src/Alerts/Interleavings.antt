-- ===== src/Alerts/Interleavings.antt =====
-- Whatever the order of the steps of overlapping calls, the settings stay keyed by their users.
use celine_grid.Prelude.{
  subst, ==_iff, ℕ, Text, text_eq, ◌==◌, eqb, any, Bool, true, false, ◌&&◌, Option, none, some,
  List, [], ◌∷◌, map, ◌≡◌, ◌≢◌, refl, arith, Bool-cases, inl, inr, ◌⊎◌, if◌then◌else◌, All,
}
use celine_grid.Prelude.Tables.{AllOf, AllOf-absent, UniqueKeys, has}
use celine_grid.Prelude.Rewrites.{
  Keeps, has_row-changed, UniqueKeys-changed, owned_none-changed, owned-changed,
}
use celine_grid.Models.{
  NotificationSettings, Db, integrity_error, Result, ok, raise, scalar_one_or_none, settings_of,
  HasUniqueUsers,
}
use celine_grid.Alerts.{NotificationSettingsUpdate}
use celine_grid.Alerts.Settings.{has_settings}
use celine_grid.Alerts.Isolation.{settings_id, settings_user, WellFormed, IsSafe}
use celine_grid.Alerts.Overlap.{user_of, found_of, write_columns, refresh, Serving}

-- There is a row of this id and user.
abbrev pub has_row : ℕ → Text → List NotificationSettings → Bool
has_row id user = any (λ s. eqb s.id id && s.user_id == user)

-- What was read still stands for a row of the user.
abbrev pub Remembers :
    Text → Result (Option NotificationSettings) → List NotificationSettings → Type 0
Remembers user (raise e) rows = ⊥
Remembers user (ok none) rows = Unit
Remembers user (ok (some ns)) rows = (ns.user_id ≡ user) × (has_row ns.id user rows ≡ true)

abbrev pub IsConsistent : Serving → Type 0
IsConsistent s =
    WellFormed s.db × All (λ c. Remembers (user_of c) (found_of c) s.db.settings) s.open_calls

-- No row is lost.
abbrev pub Grows : List NotificationSettings → List NotificationSettings → Type 0
Grows rows rows' =
    (id : ℕ) (user : Text) → has_row id user rows ≡ true → has_row id user rows' ≡ true

-- How a call of `user` ends on `db`: with a row of the user, or refused since a row of the user or
-- of the new id is there by now, and then nothing is changed.
abbrev pub IsEnding : ℕ → Text → Db → Result NotificationSettings × Db → Type 0
IsEnding id user db (ok ns, db') =
    (ns.user_id ≡ user) × IsSafe user db db' × Grows db.settings db'.settings
IsEnding id user db (raise e, db') =
    (e ≡ integrity_error)
    × (db' ≡ db)
    × ((settings_of user db.settings ≢ []) ⊎ (has_settings id db.settings ≡ true))

module _ (body : NotificationSettingsUpdate) (now : ℕ) (seen : NotificationSettings) where
  write_columns-Keeps : Keeps settings_id settings_user (write_columns body now seen)
  unfolding write_columns
  write_columns-Keeps row = (refl, refl)

  abbrev written : List NotificationSettings → List NotificationSettings
  written = map (λ row. if eqb row.id seen.id then write_columns body now seen row else row)

  pub has_row-written :
      (k : ℕ) (u : Text) (rows : List NotificationSettings)
      → has_row k u (written rows) ≡ has_row k u rows
  has_row-written =
      has_row-changed settings_id settings_user seen.id (write_columns body now seen)
        write_columns-Keeps

  pub UniqueKeys-written :
      (rows : List NotificationSettings)
      → UniqueKeys settings_id settings_user rows
      → UniqueKeys settings_id settings_user (written rows)
  UniqueKeys-written =
      UniqueKeys-changed settings_id settings_user seen.id (write_columns body now seen)
        write_columns-Keeps

  pub HasUniqueUsers-written :
      (rows : List NotificationSettings) → HasUniqueUsers rows → HasUniqueUsers (written rows)
  unfolding settings_of write_columns
  HasUniqueUsers-written [] u = tt
  HasUniqueUsers-written (row ∷ rows) u = elim (Bool-cases (eqb row.id seen.id)) [
    | inl same ↦ rw same (none_left, HasUniqueUsers-written rows u.1)
    | inr other ↦ rw other (none_left, HasUniqueUsers-written rows u.1)
  ]
    where
      none_left : settings_of row.user_id (written rows) ≡ []
      none_left =
          owned_none-changed settings_id settings_user seen.id (write_columns body now seen)
            write_columns-Keeps row.user_id rows u.0

  pub settings_of-written :
      (v : Text) (rows : List NotificationSettings)
      → seen.user_id ≢ v
      → AllOf settings_id settings_user seen.id seen.user_id rows
      → settings_of v (written rows) ≡ settings_of v rows
  unfolding settings_of
  settings_of-written v rows =
      owned-changed settings_id settings_user seen.id (write_columns body now seen)
        write_columns-Keeps seen.user_id v rows

has-has_row :
    (k : ℕ) (u : Text) (rows : List NotificationSettings)
    → has_row k u rows ≡ true
    → has settings_id settings_user k rows ≡ true
has-has_row k u [] h = h
has-has_row k u (row ∷ rows) h = ground (arith, has-has_row k u rows)

has-same :
    (k : ℕ) (row : NotificationSettings) (rows : List NotificationSettings)
    → eqb row.id k ≡ true
    → has settings_id settings_user row.id rows ≡ false
    → has settings_id settings_user k rows ≡ false
has-same k row rows e h = subst (λ n. has settings_id settings_user n rows ≡ false) (ground arith) h

-- The rows of an id that a row of the user has are of the user.
pub AllOf-has_row :
    (k : ℕ) (u : Text) (rows : List NotificationSettings)
    → UniqueKeys settings_id settings_user rows
    → has_row k u rows ≡ true
    → AllOf settings_id settings_user k u rows
AllOf-has_row k u [] keys h = tt
AllOf-has_row k u (row ∷ rows) keys h = elim (Bool-cases (eqb row.id k)) [
  | inl same ↦
      let absent = has-same k row rows same keys.0 in
      (
        λ e. ground (arith, has-has_row k u rows),
        AllOf-absent settings_id settings_user k u rows absent,
      )
  | inr other ↦ (λ e. cc, AllOf-has_row k u rows keys.1 (ground arith))
]

pub refresh-row :
    (k : ℕ) (u : Text) (rows : List NotificationSettings)
    → AllOf settings_id settings_user k u rows
    → has_row k u rows ≡ true
    → (ns : NotificationSettings) × (refresh k rows ≡ ok ns) × (ns.user_id ≡ u)
unfolding refresh
refresh-row k u [] owners h = cc
refresh-row k u (row ∷ rows) owners h = elim (Bool-cases (eqb row.id k)) [
  | inl same ↦ rw same (row, refl, owners.0 same)
  | inr other ↦ rw other (refresh-row k u rows owners.1 (ground arith))
]

pub Remembers-Grows :
    (rows rows' : List NotificationSettings) (user : Text)
    (found : Result (Option NotificationSettings))
    → Grows rows rows'
    → Remembers user found rows
    → Remembers user found rows'
Remembers-Grows rows rows' user (raise e) g h = h
Remembers-Grows rows rows' user (ok none) g h = h
Remembers-Grows rows rows' user (ok (some ns)) g h = (h.0, g ns.id user h.1)

pub Remembers-scalar :
    (user : Text) (rows : List NotificationSettings)
    → HasUniqueUsers rows
    → Remembers user (scalar_one_or_none (settings_of user rows)) rows
unfolding settings_of scalar_one_or_none
Remembers-scalar user [] u = tt
Remembers-scalar user (row ∷ rows) u = elim (Bool-cases (row.user_id == user)) [
  | inl mine ↦
      let e = (==_iff row.user_id user).0 mine in
      rw (mine, subst (λ v. settings_of v rows ≡ []) e u.0) (e, ground arith)
  | inr other ↦ rw other (
      Remembers-Grows rows (row ∷ rows) user (scalar_one_or_none (settings_of user rows))
        (λ id v h. ground arith) (Remembers-scalar user rows u.1))
]
