-- ===== src/Alerts.antt =====
-- The bodies of the alerts API and their checks (src/celine/grid/api/schemas.py).
pub mod Handlers
pub mod Settings
pub mod Isolation
pub mod SettingsIsolation
pub mod Runs
pub mod Gate
pub mod Guarded
pub mod Outcomes
pub mod Listing
pub mod ValidRules
pub mod Validity
pub mod Overlap
pub mod Interleavings
pub mod Endings
pub mod Races
pub mod RaceSteps
pub mod RaceInvariant
pub mod RaceSafety
pub mod SameColumns
pub mod Updates
use celine_grid.Prelude.{
  Text, text, text_eq, contains, Bool, true, false, ◌&&◌, Option, none, some, List, [], ◌∷◌, all,
}

-- A field of a body: left out, or there with a value or null.
pub data Field {ℓ} (A : Type ℓ) : Type ℓ where
  unset : Field A
  set : Option A → Field A

-- An explicit null.
abbrev pub is_null {ℓ} : {A : Type ℓ} → Field A → Bool
is_null unset = false
is_null (set none) = true
is_null (set (some a)) = false

-- What a column holds after a field that is no null.
abbrev pub given {ℓ} : {A : Type ℓ} → Field A → A → A
given unset old = old
given (set none) old = old
given (set (some a)) old = a

pub record AlertRuleCreate : Type 0 where
  pub risk_types : List Text
  pub threshold : Text
  pub recipients : Option Text
  pub active : Bool

pub record AlertRuleUpdate : Type 0 where
  pub risk_types : Field (List Text)
  pub threshold : Field Text
  pub recipients : Field Text
  pub active : Field Bool

pub record NotificationSettingsUpdate : Type 0 where
  pub email_recipients : Field Text
  pub webhook_url : Field Text

abbrev pub hazards : List Text
hazards = text "wind" ∷ text "heat" ∷ []

abbrev pub thresholds : List Text
thresholds = text "ALERT" ∷ text "WARNING" ∷ []

-- A non-empty list of the literals.
unfoldable pub types_valid : List Text → Bool
types_valid [] = false
types_valid (t ∷ types) = contains hazards t && all (λ t. contains hazards t) types

unfoldable pub field_valid {ℓ} : {A : Type ℓ} → (A → Bool) → Field A → Bool
field_valid valid unset = true
field_valid valid (set none) = true
field_valid valid (set (some a)) = valid a

-- A body that a check refuses is answered with 422 before the handler runs.
unfoldable pub create_valid : AlertRuleCreate → Bool
create_valid body = types_valid body.risk_types && contains thresholds body.threshold

unfoldable pub update_valid : AlertRuleUpdate → Bool
update_valid body =
    field_valid types_valid body.risk_types
    && field_valid (λ t. contains thresholds t) body.threshold
