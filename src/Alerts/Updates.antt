-- ===== src/Alerts/Updates.antt =====
-- What an update of a rule writes and answers, explicit nulls included.
use celine_grid.Prelude.{
  ℕ, text_eq, Bool, true, false, ◌||◌, Option, none, some, [], ◌∷◌, ◌≡◌, ◌⊎◌, if◌then◌else◌,
}
use celine_grid.Models.{AlertRule, Db, integrity_error, response_validation, Result, ok, raise}
use celine_grid.Identity.{JwtUser}
use celine_grid.Alerts.{AlertRuleUpdate, is_null, given}
use celine_grid.Alerts.Handlers.{with_rules, own_rule, nullable, replace_rule, rule_not_found}

-- The fields of the body are the columns of `new`, and all else is as in `old`.
abbrev pub HasColumns : AlertRuleUpdate → AlertRule → AlertRule → Type 0
HasColumns body old new =
    (new.threshold ≡ given body.threshold old.threshold)
    × (new.active ≡ given body.active old.active)
    × (new.risk_types ≡ nullable body.risk_types old.risk_types)
    × (new.recipients ≡ nullable body.recipients old.recipients)
    × (new.id ≡ old.id)
    × (new.user_id ≡ old.user_id)
    × (new.network_id ≡ old.network_id)
    × (new.network_id_unset ≡ old.network_id_unset)
    × (new.created_at ≡ old.created_at)

abbrev pub is_missing {ℓ} : {A : Type ℓ} → Option A → Bool
is_missing none = true
is_missing (some a) = false

-- A write of the body over the row `old`, and the response: a null hazard list is stored, and then
-- does not pass the response's model.
abbrev pub IsWritten : ℕ → AlertRuleUpdate → AlertRule → Db → Result AlertRule × Db → Type 0
IsWritten id body old db out =
    (new : AlertRule) × HasColumns body old new
    × (out ≡ (
      (if is_missing new.risk_types then raise response_validation else ok new),
      with_rules (replace_rule id new db.rules) db,
    ))

-- The four ways in which an update ends.
abbrev pub IsUpdated : ℕ → AlertRuleUpdate → JwtUser → Db → Result AlertRule × Db → Type 0
IsUpdated id body user db out =
    (own_rule id user.sub db.rules ≡ []) × (out ≡ (raise rule_not_found, db))
    ⊎ ((old : AlertRule) × (own_rule id user.sub db.rules ≡ old ∷ [])
        × ((is_null body.threshold || is_null body.active) ≡ true)
        × (out ≡ (raise integrity_error, db)))
    ⊎ ((old : AlertRule) × (own_rule id user.sub db.rules ≡ old ∷ [])
        × ((is_null body.threshold || is_null body.active) ≡ false)
        × IsWritten id body old db out)
