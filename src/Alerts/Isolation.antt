-- ===== src/Alerts/Isolation.antt =====
-- What a call of the alerts API does to the tables: their keys stay keys, and the rows of the other
-- users stay as they are.
use celine_grid.Prelude.{
  ℕ, Text, text_eq, ◌==◌, eqb, Bool, true, ◌&&◌, Option, none, some, List, [], ◌∷◌, ◌≡◌, ◌≢◌, refl,
  sym, ◌∙◌, arith, Bool-cases, inl, inr,
}
use celine_grid.Prelude.Tables.{
  UniqueKeys, AllOf, replace, UniqueKeys-append, UniqueKeys-replace, UniqueKeys-keep, AllOf-found,
  owned-replace, owned-remove, owned-append, keep-first,
}
use celine_grid.Models.{
  AlertRule, NotificationSettings, Db, Result, ok, raise, scalar_one_or_none, settings_of,
  HasUniqueUsers,
}
use celine_grid.Identity.{JwtUser}
use celine_grid.Alerts.{AlertRuleCreate, AlertRuleUpdate}
use celine_grid.Alerts.Handlers.{
  rules_of, own_rule, has_rule, new_rule, insert_rule, create_on, create_alert_rule, same_rule,
  set_columns, stamp, columns_of, set_fields, replace_rule, write_rule, update_found,
  update_alert_rule, remove_rule, delete_found, delete_alert_rule,
}

abbrev pub rule_id : AlertRule → ℕ
rule_id r = r.id

abbrev pub rule_user : AlertRule → Text
rule_user r = r.user_id

abbrev pub settings_id : NotificationSettings → ℕ
settings_id s = s.id

abbrev pub settings_user : NotificationSettings → Text
settings_user s = s.user_id

-- The ids of each table are distinct, and so are the users of the settings.
abbrev pub WellFormed : Db → Type 0
WellFormed db =
    UniqueKeys rule_id rule_user db.rules
    × UniqueKeys settings_id settings_user db.settings
    × HasUniqueUsers db.settings

-- The rows of the users other than `user` are the same.
abbrev pub KeepsOthers : Text → Db → Db → Type 0
KeepsOthers user db db' =
    (v : Text)
    → user ≢ v
    → (rules_of v db'.rules ≡ rules_of v db.rules)
      × (settings_of v db'.settings ≡ settings_of v db.settings)

-- What a call of `user` may do to a well-formed database.
abbrev pub IsSafe : Text → Db → Db → Type 0
IsSafe user db db' = WellFormed db' × KeepsOthers user db db'

pub same-IsSafe : (user : Text) (db : Db) → WellFormed db → IsSafe user db db
same-IsSafe user db w = (w, λ v ne. (refl, refl))

insert_rule-IsSafe :
    (rule : AlertRule) (db : Db) → WellFormed db → IsSafe rule.user_id db (insert_rule rule db).1
unfolding insert_rule has_rule rules_of
insert_rule-IsSafe rule db w = elim (Bool-cases (has_rule rule.id db.rules)) [
  | inl taken ↦ rw (taken, has_rule) (same-IsSafe rule.user_id db w)
  | inr free ↦
      rw (free, has_rule)
        (
          (UniqueKeys-append rule_id rule_user db.rules rule free w.0, w.1, w.2),
          λ v ne. (owned-append rule_id rule_user v db.rules rule ne, refl),
        )
]

create_on-IsSafe :
    (network : Result Text) (id now : ℕ) (body : AlertRuleCreate) (user : JwtUser) (db : Db)
    → WellFormed db
    → IsSafe user.sub db (create_on network id now body user db).1
unfolding create_on
create_on-IsSafe (raise e) id now body user db w = same-IsSafe user.sub db w
create_on-IsSafe (ok network) id now body user db w =
    insert_rule-IsSafe (new_rule id now user.sub network body) db w

pub create_alert_rule-IsSafe :
    (id now : ℕ) (body : AlertRuleCreate) (user : JwtUser) (db : Db)
    → WellFormed db
    → IsSafe user.sub db (create_alert_rule id now body user db).1
unfolding create_alert_rule
create_alert_rule-IsSafe id now body user db w = create_on-IsSafe _ id now body user db w

-- The query for the caller's rule found it.
pub found-own :
    (id : ℕ) (user : Text) (rules : List AlertRule) (rule : AlertRule)
    → scalar_one_or_none (own_rule id user rules) ≡ ok (some rule)
    → own_rule id user rules ≡ rule ∷ []
unfolding scalar_one_or_none
found-own id user rules rule e = ground arith

stamp-row :
    (old new : AlertRule)
    → new.id ≡ old.id
    → new.user_id ≡ old.user_id
    → ((stamp old new).id ≡ old.id) × ((stamp old new).user_id ≡ old.user_id)
unfolding stamp
stamp-row old new e f = elim (Bool-cases (same_rule old new)) [
  | inl same ↦ rw same (refl, refl)
  | inr other ↦ rw other (e, f)
]

columns_of-row :
    (threshold : Option Text) (active : Option Bool) (body : AlertRuleUpdate) (now : ℕ)
    (rule new : AlertRule)
    → columns_of threshold active body now rule ≡ some new
    → (new.id ≡ rule.id) × (new.user_id ≡ rule.user_id)
unfolding columns_of
columns_of-row none active body now rule new e = cc
columns_of-row (some t) none body now rule new e = cc
columns_of-row (some t) (some a) body now rule new e =
    let row = stamp-row rule (set_columns body now t a rule) refl refl in (cc (row.0), cc (row.1))

write_rule-IsSafe :
    (id : ℕ) (user : Text) (written : Option AlertRule) (db : Db)
    → WellFormed db
    → AllOf rule_id rule_user id user db.rules
    → ((new : AlertRule) → written ≡ some new → (new.id ≡ id) × (new.user_id ≡ user))
    → IsSafe user db (write_rule id written db).1
unfolding write_rule replace_rule rules_of
write_rule-IsSafe id user none db w owners h = same-IsSafe user db w
write_rule-IsSafe id user (some new) db w owners h = write (h new refl)
  where
    write :
        (new.id ≡ id) × (new.user_id ≡ user)
        → IsSafe user db
            (record { rules = replace rule_id rule_user id new db.rules; settings = db.settings })
    write (i, u) = (
      (UniqueKeys-replace rule_id rule_user id new db.rules i w.0, w.1, w.2),
      λ v ne. (
        owned-replace rule_id rule_user id new v db.rules (λ e. ne (sym u ∙ e)) (rw u owners),
        refl,
      ),
    )

-- The rows with the id of the rule that the query found are the caller's.
found-AllOf :
    (id : ℕ) (user : Text) (rules : List AlertRule) (rule : AlertRule)
    → UniqueKeys rule_id rule_user rules
    → own_rule id user rules ≡ rule ∷ []
    → (rule.id ≡ id) × (rule.user_id ≡ user) × AllOf rule_id rule_user id user rules
unfolding own_rule
found-AllOf id user rules rule u e = (i, o, rw (sym i, sym o) owners)
  where
    first : (eqb rule.id id && rule.user_id == user) ≡ true
    first = keep-first rule_id rule_user _ rules rule [] e

    i : rule.id ≡ id
    i = ground (arith, first)

    o : rule.user_id ≡ user
    o = ground (arith, first)

    owners : AllOf rule_id rule_user rule.id rule.user_id rules
    owners = AllOf-found rule_id rule_user _ rules rule [] u e

update_found-IsSafe :
    (found : Result (Option AlertRule)) (id : ℕ) (body : AlertRuleUpdate) (now : ℕ) (user : Text)
    (db : Db)
    → WellFormed db
    → scalar_one_or_none (own_rule id user db.rules) ≡ found
    → IsSafe user db (update_found found id body now db).1
unfolding update_found set_fields
update_found-IsSafe (raise x) id body now user db w e = same-IsSafe user db w
update_found-IsSafe (ok none) id body now user db w e = same-IsSafe user db w
update_found-IsSafe (ok (some rule)) id body now user db w e =
    write (found-AllOf id user db.rules rule w.0 (found-own id user db.rules rule e))
  where
    write :
        (rule.id ≡ id) × (rule.user_id ≡ user) × AllOf rule_id rule_user id user db.rules
        → IsSafe user db (write_rule id (set_fields body now rule) db).1
    write (i, o, owners) =
        write_rule-IsSafe id user _ db w owners
          (λ new f. let row = columns_of-row _ _ body now rule new f in (row.0 ∙ i, row.1 ∙ o))

pub update_alert_rule-IsSafe :
    (id : ℕ) (body : AlertRuleUpdate) (now : ℕ) (user : JwtUser) (db : Db)
    → WellFormed db
    → IsSafe user.sub db (update_alert_rule id body now user db).1
unfolding update_alert_rule
update_alert_rule-IsSafe id body now user db w =
    update_found-IsSafe _ id body now user.sub db w refl

delete_found-IsSafe :
    (found : Result (Option AlertRule)) (id : ℕ) (user : Text) (db : Db)
    → WellFormed db
    → scalar_one_or_none (own_rule id user db.rules) ≡ found
    → IsSafe user db (delete_found found id db).1
unfolding delete_found remove_rule rules_of
delete_found-IsSafe (raise x) id user db w e = same-IsSafe user db w
delete_found-IsSafe (ok none) id user db w e = same-IsSafe user db w
delete_found-IsSafe (ok (some rule)) id user db w e = (
  (UniqueKeys-keep rule_id rule_user _ db.rules w.0, w.1, w.2),
  λ v ne. (owned-remove rule_id rule_user id user v db.rules ne owners.2, refl),
)
  where
    owners : (rule.id ≡ id) × (rule.user_id ≡ user) × AllOf rule_id rule_user id user db.rules
    owners = found-AllOf id user db.rules rule w.0 (found-own id user db.rules rule e)

pub delete_alert_rule-IsSafe :
    (id : ℕ) (user : JwtUser) (db : Db)
    → WellFormed db
    → IsSafe user.sub db (delete_alert_rule id user db).1
unfolding delete_alert_rule
delete_alert_rule-IsSafe id user db w = delete_found-IsSafe _ id user.sub db w refl
