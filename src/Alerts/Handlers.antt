-- ===== src/Alerts/Handlers.antt =====
-- The routes of the alerts API (src/celine/grid/api/alerts.py), each from a checked body, an admitted
-- caller and the database to a response and the database that it leaves.
-- A new id and the time of the transaction are arguments. A commit that raises leaves the database
-- as it was.
use celine_grid.Prelude.{
  ℕ, Text, text, ◌==◌, text_eq, eqb, ltb, Bool, true, false, not, ◌&&◌, ◌||◌, Option, none, some,
  List, [], ◌∷◌, ◌++◌, map, keep, any, sorted, if◌then◌else◌,
}
use celine_grid.Models.{
  AlertRule, Db, Error, integrity_error, http, response_validation, Result, ok, raise, ◌>>=◌,
  scalar_one_or_none,
}
use celine_grid.Identity.{JwtUser}
use celine_grid.Access.{resolve_dso_network}
use celine_grid.Alerts.{Field, unset, set, AlertRuleCreate, AlertRuleUpdate}

unfoldable pub rules_of : Text → List AlertRule → List AlertRule
rules_of user = keep (λ r. r.user_id == user)

-- The rules with an id that are the user's: one at most.
unfoldable pub own_rule : ℕ → Text → List AlertRule → List AlertRule
own_rule id user = keep (λ r. eqb r.id id && r.user_id == user)

-- `AlertRuleResponse` is the rule; it wants a list of hazards.
unfoldable pub respond : AlertRule → Result AlertRule
respond rule = elim rule.risk_types [ none ↦ raise response_validation | some types ↦ ok rule ]

unfoldable pub respond_all : List AlertRule → Result (List AlertRule)
respond_all [] = ok []
respond_all (r ∷ rules) =
    let rest = respond_all rules in respond r >>= λ x. (rest >>= λ xs. ok (x ∷ xs))

-- Rules of one time may come in any order; here they come in that of the table.
unfoldable pub list_alert_rules : JwtUser → Db → Result (List AlertRule)
list_alert_rules user db =
    respond_all (sorted (λ a b. ltb a.created_at b.created_at) (rules_of user.sub db.rules))

unfoldable pub has_rule : ℕ → List AlertRule → Bool
has_rule id = any (λ r. eqb r.id id)

abbrev pub with_rules : List AlertRule → Db → Db
with_rules rules db = record { rules = rules; settings = db.settings }

abbrev pub new_rule : ℕ → ℕ → Text → Text → AlertRuleCreate → AlertRule
new_rule id now user network_id body = record {
  id = id;
  user_id = user;
  network_id = network_id;
  risk_types = some body.risk_types;
  threshold = body.threshold;
  network_id_unset = false;
  recipients = body.recipients;
  active = body.active;
  created_at = now;
  updated_at = now;
}

-- The id is the primary key.
unfoldable pub insert_rule : AlertRule → Db → Result AlertRule × Db
insert_rule rule db =
    if has_rule rule.id db.rules
    then (raise integrity_error, db)
    else (respond rule, with_rules (db.rules ++ (rule ∷ [])) db)

unfoldable pub create_on :
    Result Text → ℕ → ℕ → AlertRuleCreate → JwtUser → Db → Result AlertRule × Db
create_on (raise e) id now body user db = (raise e, db)
create_on (ok network_id) id now body user db =
    insert_rule (new_rule id now user.sub network_id body) db

unfoldable pub create_alert_rule : ℕ → ℕ → AlertRuleCreate → JwtUser → Db → Result AlertRule × Db
create_alert_rule id now body user db = create_on (resolve_dso_network user) id now body user db

-- A column that may be null, and one that may not: null is `none` there.
unfoldable pub nullable {ℓ} : {A : Type ℓ} → Field A → Option A → Option A
nullable unset old = old
nullable (set value) old = value

unfoldable pub not_null {ℓ} : {A : Type ℓ} → Field A → A → Option A
not_null unset old = some old
not_null (set value) old = value

unfoldable pub same_texts : List Text → List Text → Bool
same_texts [] [] = true
same_texts [] (t ∷ ts) = false
same_texts (s ∷ ss) [] = false
same_texts (s ∷ ss) (t ∷ ts) = let rest = same_texts ss ts in s == t && rest

abbrev pub same_option {ℓ} : {A : Type ℓ} → (A → A → Bool) → Option A → Option A → Bool
same_option same none none = true
same_option same none (some b) = false
same_option same (some a) none = false
same_option same (some a) (some b) = same a b

abbrev pub same_bool : Bool → Bool → Bool
same_bool a b = a && b || not a && not b

abbrev pub same_text : Text → Text → Bool
same_text s t = s == t

-- Whether the assignments changed no column: then the commit updates nothing, `updated_at` neither.
unfoldable pub same_rule : AlertRule → AlertRule → Bool
same_rule a b =
    same_option same_texts a.risk_types b.risk_types
    && a.threshold == b.threshold
    && same_option same_text a.recipients b.recipients
    && same_bool a.active b.active

abbrev pub set_columns : AlertRuleUpdate → ℕ → Text → Bool → AlertRule → AlertRule
set_columns body now threshold active rule = record {
  id = rule.id;
  user_id = rule.user_id;
  network_id = rule.network_id;
  risk_types = nullable body.risk_types rule.risk_types;
  threshold = threshold;
  network_id_unset = rule.network_id_unset;
  recipients = nullable body.recipients rule.recipients;
  active = active;
  created_at = rule.created_at;
  updated_at = now;
}

unfoldable pub stamp : AlertRule → AlertRule → AlertRule
stamp old new = if same_rule old new then old else new

-- What the commit writes, if no column that may not be null is null. The JSON column takes a null.
unfoldable pub columns_of :
    Option Text → Option Bool → AlertRuleUpdate → ℕ → AlertRule → Option AlertRule
columns_of none active body now rule = none
columns_of (some threshold) none body now rule = none
columns_of (some threshold) (some active) body now rule =
    some (stamp rule (set_columns body now threshold active rule))

unfoldable pub set_fields : AlertRuleUpdate → ℕ → AlertRule → Option AlertRule
set_fields body now rule =
    columns_of (not_null body.threshold rule.threshold) (not_null body.active rule.active) body now
      rule

-- `UPDATE … WHERE id = …`
unfoldable pub replace_rule : ℕ → AlertRule → List AlertRule → List AlertRule
replace_rule id new = map (λ r. if eqb r.id id then new else r)

unfoldable pub write_rule : ℕ → Option AlertRule → Db → Result AlertRule × Db
write_rule id none db = (raise integrity_error, db)
write_rule id (some new) db = (respond new, with_rules (replace_rule id new db.rules) db)

abbrev pub rule_not_found : Error
rule_not_found = http 404 (text "Alert rule not found")

unfoldable pub update_found :
    Result (Option AlertRule) → ℕ → AlertRuleUpdate → ℕ → Db → Result AlertRule × Db
update_found (raise e) id body now db = (raise e, db)
update_found (ok none) id body now db = (raise rule_not_found, db)
update_found (ok (some rule)) id body now db = write_rule id (set_fields body now rule) db

unfoldable pub update_alert_rule : ℕ → AlertRuleUpdate → ℕ → JwtUser → Db → Result AlertRule × Db
update_alert_rule id body now user db =
    update_found (scalar_one_or_none (own_rule id user.sub db.rules)) id body now db

-- A response with status 204.
pub data NoContent : Type 0 where
  no_content : NoContent

-- `DELETE … WHERE id = …`
unfoldable pub remove_rule : ℕ → List AlertRule → List AlertRule
remove_rule id = keep (λ r. not (eqb r.id id))

unfoldable pub delete_found : Result (Option AlertRule) → ℕ → Db → Result NoContent × Db
delete_found (raise e) id db = (raise e, db)
delete_found (ok none) id db = (raise rule_not_found, db)
delete_found (ok (some rule)) id db = (ok no_content, with_rules (remove_rule id db.rules) db)

unfoldable pub delete_alert_rule : ℕ → JwtUser → Db → Result NoContent × Db
delete_alert_rule id user db =
    delete_found (scalar_one_or_none (own_rule id user.sub db.rules)) id db
