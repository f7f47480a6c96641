-- ===== src/Dispatcher/Evaluation.antt =====
-- Which rules a dispatch evaluates, and that the evaluation cannot raise.
use celine_grid.Prelude.{
  all, Text, ◌==◌, text_eq, true, ◌&&◌, none, some, List, [], ◌∷◌, keep, ◌≡◌, refl, ap, subst,
  arith, Bool-cases, inl, inr, All, ==_iff,
}
use celine_grid.Values.{Floats, Value, Row}
use celine_grid.Models.{
  AlertRule, NotificationSettings, Db, Result, ok, raise, ◌>>=◌, scalar_one_or_none, settings_of,
  HasUniqueUsers,
}
use celine_grid.Recipients.{parse_recipients}
use celine_grid.Dispatcher.{Triggered, own_or_settings, rule_email_recipients}
use celine_grid.Dispatcher.Dispatch.{active_rules, types_of, add_triggered, evaluate}
use celine_grid.RiskSummary.Checked.{is_readable, checked_triggered_vectors-ok}

-- The result is a value, not an exception.
abbrev pub IsOk {ℓ} : {A : Type ℓ} → Result A → Type ℓ
IsOk {A} r = (a : A) × (r ≡ ok a)

value_or {ℓ} : {A : Type ℓ} → A → Result A → A
value_or a (ok b) = b
value_or a (raise e) = a

ok-injective {ℓ} : {A : Type ℓ} (a b : A) → ok a ≡ ok b → a ≡ b
unfolding value_or
ok-injective a b e = ap (value_or a) e

>>=-IsOk {ℓ κ} :
    {A : Type ℓ} {B : Type κ} (m : Result A) (f : A → Result B)
    → IsOk m
    → ((a : A) → IsOk (f a))
    → IsOk (m >>= f)
>>=-IsOk (ok a) f h k = k a
>>=-IsOk (raise e) f h k = cc (h.1)

pub settings_of-IsOk :
    (user : Text) (rows : List NotificationSettings)
    → HasUniqueUsers rows
    → IsOk (scalar_one_or_none (settings_of user rows))
unfolding settings_of scalar_one_or_none
settings_of-IsOk user [] u = (none, refl)
settings_of-IsOk user (s ∷ rows) u = elim (Bool-cases (s.user_id == user)) [
  | inl mine ↦ (
    some s,
    ground (arith, subst (λ v. settings_of v rows ≡ []) ((==_iff s.user_id user).0 mine) u.0),
  )
  | inr other ↦ rw other (settings_of-IsOk user rows u.1)
]

module _ (lower hexdigest : Text → Text) where
  own_or_settings-IsOk :
      (rule : AlertRule) (db : Db) (es : List Text)
      → HasUniqueUsers db.settings
      → IsOk (own_or_settings lower hexdigest rule db es)
  unfolding own_or_settings
  own_or_settings-IsOk rule db [] u =
      >>=-IsOk _ _ (settings_of-IsOk rule.user_id db.settings u) (λ found. (_, refl))
  own_or_settings-IsOk rule db (e ∷ es) u = (e ∷ es, refl)

  rule_email_recipients-IsOk :
      (rule : AlertRule) (db : Db)
      → HasUniqueUsers db.settings
      → IsOk (rule_email_recipients lower hexdigest rule db)
  unfolding rule_email_recipients
  rule_email_recipients-IsOk rule db u =
      own_or_settings-IsOk rule db (parse_recipients lower rule.recipients) u

-- A rule of the network that is active, with the hazards that it triggered for.
abbrev pub IsActiveIn : Text → AlertRule → Type 0
IsActiveIn network_id rule = (rule.network_id ≡ network_id) × (rule.active ≡ true)

active_rules-All :
    (network_id : Text) (rules : List AlertRule)
    → All (IsActiveIn network_id) (keep (λ r. r.network_id == network_id && r.active) rules)
active_rules-All network_id [] = tt
active_rules-All network_id (r ∷ rules) = ground (arith, active_rules-All network_id rules)

module _ (fl : Floats) (repr : Value fl.F → Text) where
  add_triggered-IsOk :
      (rule : AlertRule) (vs : List Text) (recipients : Result (List Text))
      (rest : Result (List Triggered))
      → IsOk recipients
      → IsOk rest
      → IsOk (add_triggered fl repr rule vs recipients rest)
  unfolding add_triggered
  add_triggered-IsOk rule [] recipients rest hr h = h
  add_triggered-IsOk rule (v ∷ vs) recipients rest hr h =
      >>=-IsOk recipients _ hr (λ es. >>=-IsOk rest _ h (λ ts. (_, refl)))

  module _ (lower hexdigest : Text → Text) (app_url : Text) (db : Db) where
    -- Where no user has two rows of settings, and `float` takes the numbers of the rows, the evaluation
    -- of any rules gives a value: it does not raise.
    pub evaluate-IsOk :
        (rows : List (Row fl.F)) (rules : List AlertRule)
        → HasUniqueUsers db.settings
        → all (is_readable fl repr) rows ≡ true
        → IsOk (evaluate fl repr lower hexdigest app_url db rows rules)
    unfolding evaluate
    evaluate-IsOk rows [] u h = ([], refl)
    evaluate-IsOk rows (rule ∷ rules) u h =
        rw
          (checked_triggered_vectors-ok fl repr rows (some rule.threshold) (types_of fl repr rule)
            h)
          (add_triggered-IsOk rule _ _ _ (rule_email_recipients-IsOk lower hexdigest rule db u)
            (evaluate-IsOk rows rules u h))

    Active-add_triggered :
        (network_id : Text) (rule : AlertRule) (vs : List Text) (recipients : Result (List Text))
        (rest : Result (List Triggered)) (ts : List Triggered)
        → IsActiveIn network_id rule
        → ((us : List Triggered) → rest ≡ ok us → All (λ t. IsActiveIn network_id t.rule) us)
        → add_triggered fl repr rule vs recipients rest ≡ ok ts
        → All (λ t. IsActiveIn network_id t.rule) ts
    unfolding add_triggered
    Active-add_triggered network_id rule [] recipients rest ts a h e = h ts e
    Active-add_triggered network_id rule (v ∷ vs) (raise x) rest ts a h e = cc
    Active-add_triggered network_id rule (v ∷ vs) (ok es) (raise x) ts a h e = cc
    Active-add_triggered network_id rule (v ∷ vs) (ok es) (ok us) ts a h e =
        subst (All (λ t. IsActiveIn network_id t.rule)) (ok-injective _ ts e) (a, h us refl)

    Active-vectors :
        (network_id : Text) (rule : AlertRule) (vectors : Result (List Text))
        (recipients : Result (List Text)) (rest : Result (List Triggered)) (ts : List Triggered)
        → IsActiveIn network_id rule
        → ((us : List Triggered) → rest ≡ ok us → All (λ t. IsActiveIn network_id t.rule) us)
        → (vectors >>= λ vs. add_triggered fl repr rule vs recipients rest) ≡ ok ts
        → All (λ t. IsActiveIn network_id t.rule) ts
    Active-vectors network_id rule (raise x) recipients rest ts a h e = cc
    Active-vectors network_id rule (ok vs) recipients rest ts a h e =
        Active-add_triggered network_id rule vs recipients rest ts a h e

    Active-evaluate :
        (network_id : Text) (rows : List (Row fl.F)) (rules : List AlertRule) (ts : List Triggered)
        → All (IsActiveIn network_id) rules
        → evaluate fl repr lower hexdigest app_url db rows rules ≡ ok ts
        → All (λ t. IsActiveIn network_id t.rule) ts
    unfolding evaluate
    Active-evaluate network_id rows [] [] a e = tt
    Active-evaluate network_id rows [] (t ∷ ts) a e = cc
    Active-evaluate network_id rows (rule ∷ rules) ts a e =
        Active-vectors network_id rule _ _ _ ts a.0
          (λ us. Active-evaluate network_id rows rules us a.1) e

    -- Only the rules of the network that are active can trigger.
    pub evaluate-IsActiveIn :
        (network_id : Text) (rows : List (Row fl.F)) (ts : List Triggered)
        → evaluate fl repr lower hexdigest app_url db rows (active_rules fl repr network_id db)
          ≡ ok ts
        → All (λ t. IsActiveIn network_id t.rule) ts
    unfolding active_rules
    evaluate-IsActiveIn network_id rows ts e =
        Active-evaluate network_id rows _ ts (active_rules-All network_id db.rules) e
