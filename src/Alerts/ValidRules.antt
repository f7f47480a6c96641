-- ===== src/Alerts/ValidRules.antt =====
-- Which rules the tables can hold: what the handlers of the rules keep.
use celine_grid.Prelude.{
  ℕ, Text, text_eq, contains, eqb, Bool, true, ◌&&◌, Option, none, some, List, [], ◌∷◌, ◌++◌, ◌≡◌,
  ◌↔◌, ◌⊎◌, text, all, refl, subst, arith, Bool-cases, inl, inr, keep, All,
}
use celine_grid.Models.{AlertRule, Db, Result, ok, raise, scalar_one_or_none}
use celine_grid.Identity.{JwtUser}
use celine_grid.Alerts.{
  Field, unset, set, AlertRuleCreate, AlertRuleUpdate, hazards, thresholds, types_valid,
  field_valid, create_valid, update_valid,
}
use celine_grid.Alerts.Handlers.{
  own_rule, has_rule, new_rule, insert_rule, create_on, nullable, not_null, same_rule, set_columns,
  stamp, columns_of, set_fields, replace_rule, write_rule, update_found, remove_rule, delete_found,
}
use celine_grid.Alerts.Isolation.{found-own}

abbrev pub null_or_valid : Option (List Text) → Bool
null_or_valid none = true
null_or_valid (some types) = types_valid types

abbrev pub IsHazard : Text → Type 0
IsHazard t = (t ≡ text "wind") ⊎ (t ≡ text "heat")

-- A null, or a non-empty list of hazards.
abbrev pub AreHazards : Option (List Text) → Type 0
AreHazards none = Unit
AreHazards (some []) = ⊥
AreHazards (some (t ∷ types)) = IsHazard t × All IsHazard types

-- A threshold that is ALERT or WARNING, and a non-empty list of hazards or null.
abbrev pub IsValid : AlertRule → Type 0
IsValid r =
    ((r.threshold ≡ text "ALERT") ⊎ (r.threshold ≡ text "WARNING")) × AreHazards r.risk_types

-- What the checks of the bodies accept.
abbrev pub IsAccepted : AlertRule → Type 0
IsAccepted r = (contains thresholds r.threshold ≡ true) × (null_or_valid r.risk_types ≡ true)

hazards_iff : (t : Text) → (contains hazards t ≡ true) ↔ IsHazard t
hazards_iff t = ground arith

all-hazards_iff :
    (types : List Text) → (all (λ t. contains hazards t) types ≡ true) ↔ All IsHazard types
all-hazards_iff [] = (λ h. tt, λ h. refl)
all-hazards_iff (t ∷ types) = ground (arith, all-hazards_iff types)

null_or_valid_iff : (types : Option (List Text)) → (null_or_valid types ≡ true) ↔ AreHazards types
unfolding types_valid
null_or_valid_iff none = (λ h. tt, λ h. refl)
null_or_valid_iff (some []) = (λ h. cc, λ h. absurd h)
null_or_valid_iff (some (t ∷ types)) = ground (arith, all-hazards_iff types)

thresholds_iff :
    (s : Text) → (contains thresholds s ≡ true) ↔ ((s ≡ text "ALERT") ⊎ (s ≡ text "WARNING"))
thresholds_iff s = ground arith

pub All-IsAccepted : (rules : List AlertRule) → All IsValid rules → All IsAccepted rules
All-IsAccepted [] h = tt
All-IsAccepted (r ∷ rules) h = (
  ((thresholds_iff r.threshold).1 h.0.0, (null_or_valid_iff r.risk_types).1 h.0.1),
  All-IsAccepted rules h.1,
)

pub All-IsValid : (rules : List AlertRule) → All IsAccepted rules → All IsValid rules
All-IsValid [] h = tt
All-IsValid (r ∷ rules) h = (
  ((thresholds_iff r.threshold).0 h.0.0, (null_or_valid_iff r.risk_types).0 h.0.1),
  All-IsValid rules h.1,
)

All-append_one :
    (rules : List AlertRule) (r : AlertRule)
    → All IsAccepted rules
    → IsAccepted r
    → All IsAccepted (rules ++ (r ∷ []))
All-append_one [] r h v = (v, tt)
All-append_one (x ∷ rules) r h v = (h.0, All-append_one rules r h.1 v)

All-keep :
    (p : AlertRule → Bool) (rules : List AlertRule)
    → All IsAccepted rules
    → All IsAccepted (keep p rules)
All-keep p [] h = tt
All-keep p (r ∷ rules) h = elim (Bool-cases (p r)) [
  | inl yes_ ↦ rw yes_ (h.0, All-keep p rules h.1)
  | inr no_ ↦ rw no_ (All-keep p rules h.1)
]

All-replace :
    (id : ℕ) (new : AlertRule) (rules : List AlertRule)
    → All IsAccepted rules
    → IsAccepted new
    → All IsAccepted (replace_rule id new rules)
unfolding replace_rule
All-replace id new [] h v = tt
All-replace id new (r ∷ rules) h v = elim (Bool-cases (eqb r.id id)) [
  | inl yes_ ↦ rw yes_ (v, All-replace id new rules h.1 v)
  | inr no_ ↦ rw no_ (h.0, All-replace id new rules h.1 v)
]

both : (a b : Bool) → (a && b) ≡ true → (a ≡ true) × (b ≡ true)
both a b h = ground arith

insert_rule-All :
    (rule : AlertRule) (db : Db)
    → All IsAccepted db.rules
    → IsAccepted rule
    → All IsAccepted (insert_rule rule db).1.rules
unfolding insert_rule
insert_rule-All rule db h v = elim (Bool-cases (has_rule rule.id db.rules)) [
  | inl taken ↦ rw taken h
  | inr free ↦ rw free (All-append_one db.rules rule h v)
]

pub create_on-All :
    (network : Result Text) (id now : ℕ) (body : AlertRuleCreate) (user : JwtUser) (db : Db)
    → create_valid body ≡ true
    → All IsAccepted db.rules
    → All IsAccepted (create_on network id now body user db).1.rules
unfolding create_on create_valid
create_on-All (raise e) id now body user db valid h = h
create_on-All (ok network) id now body user db valid h =
    let parts = both (types_valid body.risk_types) (contains thresholds body.threshold) valid in
    insert_rule-All (new_rule id now user.sub network body) db h (parts.1, parts.0)

types-nullable :
    (field : Field (List Text)) (old : Option (List Text))
    → field_valid types_valid field ≡ true
    → null_or_valid old ≡ true
    → null_or_valid (nullable field old) ≡ true
unfolding field_valid nullable
types-nullable unset old f h = h
types-nullable (set none) old f h = refl
types-nullable (set (some types)) old f h = f

threshold-not_null :
    (field : Field Text) (old threshold : Text)
    → field_valid (λ t. contains thresholds t) field ≡ true
    → contains thresholds old ≡ true
    → not_null field old ≡ some threshold
    → contains thresholds threshold ≡ true
unfolding field_valid not_null
threshold-not_null unset old threshold f h e = ground (arith, h)
threshold-not_null (set none) old threshold f h e = cc
threshold-not_null (set (some t)) old threshold f h e = ground (arith, f)

stamp-IsAccepted :
    (old new : AlertRule) → IsAccepted old → IsAccepted new → IsAccepted (stamp old new)
unfolding stamp
stamp-IsAccepted old new v w = elim (Bool-cases (same_rule old new)) [
  | inl same ↦ rw same v
  | inr other ↦ rw other w
]

write_columns-All :
    (threshold : Option Text) (active : Option Bool) (id : ℕ) (body : AlertRuleUpdate) (now : ℕ)
    (rule : AlertRule) (db : Db)
    → All IsAccepted db.rules
    → IsAccepted rule
    → null_or_valid (nullable body.risk_types rule.risk_types) ≡ true
    → ((t : Text) → threshold ≡ some t → contains thresholds t ≡ true)
    → All IsAccepted (write_rule id (columns_of threshold active body now rule) db).1.rules
unfolding columns_of write_rule
write_columns-All none active id body now rule db h v types known = h
write_columns-All (some t) none id body now rule db h v types known = h
write_columns-All (some t) (some a) id body now rule db h v types known =
    All-replace id _ db.rules h
      (stamp-IsAccepted rule (set_columns body now t a rule) v (known t refl, types))

pub update_found-All :
    (found : Result (Option AlertRule)) (id : ℕ) (body : AlertRuleUpdate) (now : ℕ) (db : Db)
    → update_valid body ≡ true
    → All IsAccepted db.rules
    → ((rule : AlertRule) → found ≡ ok (some rule) → IsAccepted rule)
    → All IsAccepted (update_found found id body now db).1.rules
unfolding update_found set_fields update_valid
update_found-All (raise e) id body now db valid h own = h
update_found-All (ok none) id body now db valid h own = h
update_found-All (ok (some rule)) id body now db valid h own =
    let parts =
      both (field_valid types_valid body.risk_types)
        (field_valid (λ t. contains thresholds t) body.threshold) valid in
    write_columns-All _ _ id body now rule db h (own rule refl)
      (types-nullable body.risk_types rule.risk_types parts.0 (own rule refl).1)
      (λ t. threshold-not_null body.threshold rule.threshold t parts.1 (own rule refl).0)

pub own-IsAccepted :
    (id : ℕ) (user : Text) (rules : List AlertRule) (rule : AlertRule)
    → All IsAccepted rules
    → scalar_one_or_none (own_rule id user rules) ≡ ok (some rule)
    → IsAccepted rule
unfolding own_rule
own-IsAccepted id user rules rule h e =
    (subst (All IsAccepted) (found-own id user rules rule e) (All-keep _ rules h)).0

pub delete_found-All :
    (found : Result (Option AlertRule)) (id : ℕ) (db : Db)
    → All IsAccepted db.rules
    → All IsAccepted (delete_found found id db).1.rules
unfolding delete_found remove_rule
delete_found-All (raise e) id db h = h
delete_found-All (ok none) id db h = h
delete_found-All (ok (some rule)) id db h = All-keep _ db.rules h
