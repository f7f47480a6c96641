-- ===== src/Alerts/SettingsIsolation.antt =====
-- What the routes of the notification settings do to the tables.
use celine_grid.Prelude.{
  ℕ, Text, text_eq, ◌==◌, eqb, Bool, true, false, Option, none, some, List, [], ◌∷◌, ◌++◌, ◌≡◌,
  refl, sym, ◌∙◌, arith, Bool-cases, inl, inr, if◌then◌else◌,
}
use celine_grid.Prelude.Tables.{
  AllOf, replace, UniqueKeys-append, UniqueKeys-replace, AllOf-found, owned-replace, owned-append,
  owned_none-replace, keep-first,
}
use celine_grid.Models.{
  NotificationSettings, Db, Result, ok, raise, scalar_one_or_none, settings_of, HasUniqueUsers,
}
use celine_grid.Identity.{JwtUser}
use celine_grid.Alerts.{NotificationSettingsUpdate}
use celine_grid.Alerts.Settings.{
  new_settings, set_settings, same_settings, stamp_settings, has_settings, insert_checked,
  insert_settings, get_found, get_notification_settings, replace_settings, put_found,
  update_notification_settings,
}
use celine_grid.Alerts.Isolation.{settings_id, settings_user, WellFormed, IsSafe, same-IsSafe}

HasUniqueUsers-append :
    (xs : List NotificationSettings) (y : NotificationSettings)
    → settings_of y.user_id xs ≡ []
    → HasUniqueUsers xs
    → HasUniqueUsers (xs ++ (y ∷ []))
unfolding settings_of
HasUniqueUsers-append [] y h u = (refl, tt)
HasUniqueUsers-append (x ∷ xs) y h u = elim (Bool-cases (x.user_id == y.user_id)) [
  | inl same ↦ ground arith
  | inr other ↦ (
    owned-append settings_id settings_user x.user_id xs y (λ e. ground arith) ∙ u.0,
    HasUniqueUsers-append xs y (ground arith) u.1,
  )
]

HasUniqueUsers-replace :
    (id : ℕ) (new : NotificationSettings) (xs : List NotificationSettings)
    → AllOf settings_id settings_user id new.user_id xs
    → HasUniqueUsers xs
    → HasUniqueUsers (replace settings_id settings_user id new xs)
unfolding settings_of
HasUniqueUsers-replace id new [] owners u = tt
HasUniqueUsers-replace id new (x ∷ xs) owners u =
    (head, HasUniqueUsers-replace id new xs owners.1 u.1)
  where
    rest : settings_of x.user_id (replace settings_id settings_user id new xs) ≡ []
    rest = owned_none-replace settings_id settings_user id new x.user_id xs owners.1 u.0

    user : (if eqb x.id id then new else x).user_id ≡ x.user_id
    user = elim (Bool-cases (eqb x.id id)) [
      | inl same ↦ rw same (sym (owners.0 same))
      | inr other ↦ rw other refl
    ]

    head :
        settings_of
          (if eqb x.id id then new else x).user_id
          (replace settings_id settings_user id new xs)
        ≡ []
    head = rw user rest

pub insert_checked-IsSafe :
    (found : List NotificationSettings) (taken : Bool) (ns : NotificationSettings) (db : Db)
    → WellFormed db
    → settings_of ns.user_id db.settings ≡ found
    → has_settings ns.id db.settings ≡ taken
    → IsSafe ns.user_id db (insert_checked found taken ns db).1
unfolding insert_checked has_settings settings_of
insert_checked-IsSafe (x ∷ xs) taken ns db w e f = same-IsSafe ns.user_id db w
insert_checked-IsSafe [] true ns db w e f = same-IsSafe ns.user_id db w
insert_checked-IsSafe [] false ns db w e f = (
  (
    w.0,
    UniqueKeys-append settings_id settings_user db.settings ns f w.1,
    HasUniqueUsers-append db.settings ns e w.2,
  ),
  λ v ne. (refl, owned-append settings_id settings_user v db.settings ns ne),
)

pub insert_settings-IsSafe :
    (ns : NotificationSettings) (db : Db)
    → WellFormed db
    → IsSafe ns.user_id db (insert_settings ns db).1
unfolding insert_settings
insert_settings-IsSafe ns db w = insert_checked-IsSafe _ _ ns db w refl refl

get_found-IsSafe :
    (found : Result (Option NotificationSettings)) (id now : ℕ) (user : Text) (db : Db)
    → WellFormed db
    → IsSafe user db (get_found found id now user db).1
unfolding get_found
get_found-IsSafe (raise e) id now user db w = same-IsSafe user db w
get_found-IsSafe (ok (some ns)) id now user db w = same-IsSafe user db w
get_found-IsSafe (ok none) id now user db w = insert_settings-IsSafe (new_settings id now user) db w

pub get_notification_settings-IsSafe :
    (id now : ℕ) (user : JwtUser) (db : Db)
    → WellFormed db
    → IsSafe user.sub db (get_notification_settings id now user db).1
unfolding get_notification_settings
get_notification_settings-IsSafe id now user db w = get_found-IsSafe _ id now user.sub db w

pub stamp_settings-row :
    (body : NotificationSettingsUpdate) (now : ℕ) (ns : NotificationSettings)
    → let new = stamp_settings ns (set_settings body now ns) in
      (new.id ≡ ns.id) × (new.user_id ≡ ns.user_id)
unfolding stamp_settings
stamp_settings-row body now ns = elim (Bool-cases (same_settings ns (set_settings body now ns))) [
  | inl same ↦ rw same (refl, refl)
  | inr other ↦ rw other (refl, refl)
]

replace_settings-IsSafe :
    (user : Text) (ns new : NotificationSettings) (db : Db)
    → WellFormed db
    → settings_of user db.settings ≡ ns ∷ []
    → (new.id ≡ ns.id) × (new.user_id ≡ ns.user_id)
    → IsSafe user db
        (record { rules = db.rules; settings = replace_settings ns.id new db.settings })
unfolding replace_settings settings_of
replace_settings-IsSafe user ns new db w e (i, o) = (
  (
    w.0,
    UniqueKeys-replace settings_id settings_user ns.id new db.settings i w.1,
    HasUniqueUsers-replace ns.id new db.settings owners w.2,
  ),
  λ v ne. (
    refl,
    owned-replace settings_id settings_user ns.id new v db.settings
        (λ q. ne (sym own ∙ (sym o ∙ q))) owners,
  ),
)
  where
    owners : AllOf settings_id settings_user ns.id new.user_id db.settings
    owners = rw o (AllOf-found settings_id settings_user _ db.settings ns [] w.1 e)

    first : (ns.user_id == user) ≡ true
    first = keep-first settings_id settings_user _ db.settings ns [] e

    own : ns.user_id ≡ user
    own = ground (arith, first)

pub found-settings :
    (user : Text) (rows : List NotificationSettings) (ns : NotificationSettings)
    → scalar_one_or_none (settings_of user rows) ≡ ok (some ns)
    → settings_of user rows ≡ ns ∷ []
unfolding scalar_one_or_none
found-settings user rows ns e = ground arith

put_found-IsSafe :
    (found : Result (Option NotificationSettings)) (id now : ℕ) (body : NotificationSettingsUpdate)
    (user : Text) (db : Db)
    → WellFormed db
    → scalar_one_or_none (settings_of user db.settings) ≡ found
    → IsSafe user db (put_found found id now body user db).1
unfolding put_found
put_found-IsSafe (raise x) id now body user db w e = same-IsSafe user db w
put_found-IsSafe (ok none) id now body user db w e =
    insert_settings-IsSafe (set_settings body now (new_settings id now user)) db w
put_found-IsSafe (ok (some ns)) id now body user db w e =
    replace_settings-IsSafe user ns (stamp_settings ns (set_settings body now ns)) db w
      (found-settings user db.settings ns e) (stamp_settings-row body now ns)

pub update_notification_settings-IsSafe :
    (id now : ℕ) (body : NotificationSettingsUpdate) (user : JwtUser) (db : Db)
    → WellFormed db
    → IsSafe user.sub db (update_notification_settings id now body user db).1
unfolding update_notification_settings
update_notification_settings-IsSafe id now body user db w =
    put_found-IsSafe _ id now body user.sub db w refl
