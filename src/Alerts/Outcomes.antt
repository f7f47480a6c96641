-- ===== src/Alerts/Outcomes.antt =====
-- What a call answers, and what the dispatcher and later calls see of it.
use celine_grid.Prelude.{
  ℕ, Text, text_eq, ◌==◌, Bool, true, false, ◌&&◌, Option, none, some, List, [], ◌∷◌, ◌++◌, ◌≡◌,
  refl, ◌∙◌, arith, Bool-cases, inl, inr, ◌⊎◌, if◌then◌else◌, keep,
}
use celine_grid.Prelude.Tables.{keep-first, owned-replaced, own, own-cases, own-remove}
use celine_grid.Values.{Floats, Value}
use celine_grid.Models.{
  AlertRule, NotificationSettings, Db, Result, ok, raise, scalar_one_or_none, settings_of,
}
use celine_grid.Identity.{JwtUser}
use celine_grid.Access.{resolve_dso_network}
use celine_grid.Dispatcher.Dispatch.{active_rules}
use celine_grid.Dispatcher.Evaluation.{IsOk, settings_of-IsOk}
use celine_grid.Alerts.{AlertRuleCreate, AlertRuleUpdate, NotificationSettingsUpdate}
use celine_grid.Alerts.Handlers.{
  has_rule, respond, new_rule, insert_rule, create_on, create_alert_rule, own_rule, remove_rule,
  delete_found, delete_alert_rule, update_found, update_alert_rule, rule_not_found, with_rules,
  NoContent, no_content,
}
use celine_grid.Alerts.Settings.{
  has_settings, new_settings, set_settings, same_settings, stamp_settings, insert_checked,
  insert_settings, get_found, get_notification_settings, replace_settings, put_found,
  update_notification_settings,
}
use celine_grid.Alerts.Isolation.{WellFormed, rule_id, rule_user, settings_id, settings_user}
use celine_grid.Alerts.SettingsIsolation.{found-settings}

keep-append {ℓ} :
    {A : Type ℓ} (p : A → Bool) (xs : List A) (y : A)
    → keep p (xs ++ (y ∷ [])) ≡ keep p xs ++ (if p y then y ∷ [] else [])
keep-append p [] y = refl
keep-append p (x ∷ xs) y = elim (Bool-cases (p x)) [
  | inl yes_ ↦ rw (yes_, keep-append p xs y) refl
  | inr no_ ↦ rw (no_, keep-append p xs y) refl
]

module _ (fl : Floats) (repr : Value fl.F → Text) where
  -- The columns of a rule that is created for a user and a network.
  abbrev pub IsAskedFor : ℕ → ℕ → Text → Text → AlertRuleCreate → AlertRule → Type 0
  IsAskedFor id now user network body rule =
      (rule.id ≡ id)
      × (rule.user_id ≡ user)
      × (rule.network_id ≡ network)
      × (rule.risk_types ≡ some body.risk_types)
      × (rule.threshold ≡ body.threshold)
      × (rule.recipients ≡ body.recipients)
      × (rule.active ≡ body.active)
      × (rule.network_id_unset ≡ false)
      × (rule.created_at ≡ now)
      × (rule.updated_at ≡ now)

  -- With a new id and one network of the caller's, a creation answers with a rule that has the fields
  -- of the body, the caller and the network, and the dispatcher finds it, after the rules that it
  -- found before, exactly if it is active and for exactly this network.
  pub create_alert_rule-active_rules :
      (id now : ℕ) (body : AlertRuleCreate) (user : JwtUser) (db : Db) (network v : Text)
      → has_rule id db.rules ≡ false
      → resolve_dso_network user ≡ ok network
      → let (result, db') = create_alert_rule id now body user db in
        (rule : AlertRule) × IsAskedFor id now user.sub network body rule
        × (result ≡ ok rule)
        × (active_rules fl repr v db'
            ≡ active_rules fl repr v db ++ (if network == v && body.active then rule ∷ [] else []))
  unfolding create_alert_rule create_on insert_rule respond active_rules
  create_alert_rule-active_rules id now body user db network v free one =
      rw (one, create_on)
        (rw (free, insert_rule)
          (
            new_rule id now user.sub network body,
            (refl, refl, refl, refl, refl, refl, refl, refl, refl, refl),
            refl,
            keep-append _ db.rules (new_rule id now user.sub network body),
          ))

-- The settings of the user that a call returned.
get-found :
    (id now : ℕ) (user : JwtUser) (db : Db) (ns : NotificationSettings)
    → settings_of user.sub db.settings ≡ ns ∷ []
    → get_notification_settings id now user db ≡ (ok ns, db)
unfolding get_notification_settings scalar_one_or_none get_found
get-found id now user db ns e = rw (e, scalar_one_or_none) refl

-- The only settings of the user.
abbrev IsOnly : Text → Db → Result NotificationSettings → Type 0
IsOnly user db (raise e) = Unit
IsOnly user db (ok ns) = settings_of user db.settings ≡ ns ∷ []

insert_checked-IsOnly :
    (found : List NotificationSettings) (taken : Bool) (ns : NotificationSettings) (db : Db)
    → settings_of ns.user_id db.settings ≡ found
    → let (result, db') = insert_checked found taken ns db in IsOnly ns.user_id db' result
unfolding insert_checked settings_of
insert_checked-IsOnly (x ∷ xs) taken ns db e = tt
insert_checked-IsOnly [] true ns db e = tt
insert_checked-IsOnly [] false ns db e =
    keep-append (λ s. s.user_id == ns.user_id) db.settings ns ∙ ground (arith, e)

stamp_settings-user :
    (body : NotificationSettingsUpdate) (now : ℕ) (ns : NotificationSettings)
    → (stamp_settings ns (set_settings body now ns)).user_id ≡ ns.user_id
unfolding stamp_settings
stamp_settings-user body now ns = elim (Bool-cases (same_settings ns (set_settings body now ns))) [
  | inl same ↦ rw same refl
  | inr other ↦ rw other refl
]

put_found-IsOnly :
    (found : Result (Option NotificationSettings)) (id now : ℕ) (body : NotificationSettingsUpdate)
    (user : Text) (db : Db)
    → WellFormed db
    → scalar_one_or_none (settings_of user db.settings) ≡ found
    → let (result, db') = put_found found id now body user db in IsOnly user db' result
unfolding put_found insert_settings replace_settings settings_of
put_found-IsOnly (raise x) id now body user db w e = tt
put_found-IsOnly (ok none) id now body user db w e =
    insert_checked-IsOnly _ _ (set_settings body now (new_settings id now user)) db refl
put_found-IsOnly (ok (some ns)) id now body user db w e =
    owned-replaced settings_id settings_user user db.settings ns _ w.1 only
      (stamp_settings-user body now ns ∙ own)
  where
    only : settings_of user db.settings ≡ ns ∷ []
    only = found-settings user db.settings ns e

    first : (ns.user_id == user) ≡ true
    first = keep-first settings_id settings_user _ db.settings ns [] only

    own : ns.user_id ≡ user
    own = ground (arith, first)

insert_settings-IsOk :
    (ns : NotificationSettings) (db : Db)
    → settings_of ns.user_id db.settings ≡ []
    → has_settings ns.id db.settings ≡ false
    → IsOk (insert_settings ns db).0
unfolding insert_settings insert_checked
insert_settings-IsOk ns db e f = rw (e, f, insert_checked) (ns, refl)

none-found : (rows : List NotificationSettings) → scalar_one_or_none rows ≡ ok none → rows ≡ []
unfolding scalar_one_or_none
none-found rows e = ground arith

put_found-IsOk :
    (found : Result (Option NotificationSettings)) (id now : ℕ) (body : NotificationSettingsUpdate)
    (user : Text) (db : Db)
    → IsOk found
    → has_settings id db.settings ≡ false
    → scalar_one_or_none (settings_of user db.settings) ≡ found
    → IsOk (put_found found id now body user db).0
unfolding put_found
put_found-IsOk (raise x) id now body user db (a, e) f g = cc
put_found-IsOk (ok none) id now body user db h f g =
    insert_settings-IsOk (set_settings body now (new_settings id now user)) db (none-found _ g) f
put_found-IsOk (ok (some ns)) id now body user db h f g = (_, refl)

read_back :
    (id now : ℕ) (user : JwtUser) (out : Result NotificationSettings × Db)
    → IsOk out.0
    → IsOnly user.sub out.1 out.0
    → (ns : NotificationSettings) × (out.0 ≡ ok ns)
      × (get_notification_settings id now user out.1 ≡ (ok ns, out.1))
read_back id now user (raise x, db) (ns, e) h = cc
read_back id now user (ok ns, db) e h = (ns, refl, get-found id now user db ns h)

-- On a well-formed database and with a new id, an update of the settings succeeds, and the next
-- reading of them answers what the update answered and changes nothing.
pub update-get_notification_settings :
    (id now id' now' : ℕ) (body : NotificationSettingsUpdate) (user : JwtUser) (db : Db)
    → WellFormed db
    → has_settings id db.settings ≡ false
    → let (result, db') = update_notification_settings id now body user db in
      (ns : NotificationSettings) × (result ≡ ok ns)
      × (get_notification_settings id' now' user db' ≡ (ok ns, db'))
unfolding update_notification_settings
update-get_notification_settings id now id' now' body user db w free =
    let found = scalar_one_or_none (settings_of user.sub db.settings) in
    read_back id' now' user (put_found found id now body user.sub db)
      (put_found-IsOk found id now body user.sub db (settings_of-IsOk user.sub db.settings w.2) free
        refl)
      (put_found-IsOnly found id now body user.sub db w refl)

delete_one :
    (id : ℕ) (user : JwtUser) (db : Db) (r : AlertRule)
    → own_rule id user.sub db.rules ≡ r ∷ []
    → delete_alert_rule id user db ≡ (ok no_content, with_rules (remove_rule id db.rules) db)
unfolding delete_alert_rule delete_found scalar_one_or_none
delete_one id user db r e = rw (e, scalar_one_or_none) refl

gone-not_found :
    (id : ℕ) (body : AlertRuleUpdate) (now : ℕ) (user : JwtUser) (db : Db)
    → own_rule id user.sub db.rules ≡ []
    → (delete_alert_rule id user db ≡ (raise rule_not_found, db))
      × (update_alert_rule id body now user db ≡ (raise rule_not_found, db))
unfolding delete_alert_rule update_alert_rule delete_found update_found scalar_one_or_none
gone-not_found id body now user db e = rw (e, scalar_one_or_none) (refl, refl)

-- What a deletion answered and left.
abbrev pub IsDeleted : ℕ → AlertRuleUpdate → ℕ → JwtUser → Result NoContent × Db → Type 0
IsDeleted id body now user (result, db') =
    ((result ≡ ok no_content) ⊎ (result ≡ raise rule_not_found))
    × (delete_alert_rule id user db' ≡ (raise rule_not_found, db'))
    × (update_alert_rule id body now user db' ≡ (raise rule_not_found, db'))

-- On a well-formed database a deletion succeeds or finds no rule of the caller's with the id, never
-- another error; after it, deleting or updating the rule is answered with 404 and changes nothing.
pub delete_alert_rule-not_found :
    (id : ℕ) (body : AlertRuleUpdate) (now : ℕ) (user : JwtUser) (db : Db)
    → WellFormed db
    → IsDeleted id body now user (delete_alert_rule id user db)
unfolding own_rule remove_rule
delete_alert_rule-not_found id body now user db w =
    deleted (own-cases rule_id rule_user id user.sub db.rules w.0)
  where
    deleted :
        (own rule_id rule_user id user.sub db.rules ≡ [])
          ⊎ ((r : AlertRule) × (own rule_id rule_user id user.sub db.rules ≡ r ∷ []))
        → IsDeleted id body now user (delete_alert_rule id user db)
    deleted (inl e) =
        let gone = gone-not_found id body now user db e in rw gone.0 (inr refl, gone.0, gone.1)
    deleted (inr (r, e)) =
        let gone =
          gone-not_found id body now user (with_rules (remove_rule id db.rules) db)
            (own-remove rule_id rule_user id user.sub db.rules) in
        rw (delete_one id user db r e) (inl refl, gone.0, gone.1)
