-- ===== src/Models.antt =====
-- The tables (src/celine/grid/db/models.py), and the selections that the service makes from them.
-- An id and a time are numbers; a row stands where the database returns it.
use celine_grid.Prelude.{ℕ, Text, ◌==◌, text_eq, Bool, Option, none, some, List, [], ◌∷◌, keep, ◌≡◌}

-- `risk_types` is a JSON column: it can hold `null`. Texts are within the widths of their columns.
pub record AlertRule : Type 0 where
  pub id : ℕ
  pub user_id : Text
  pub network_id : Text
  pub risk_types : Option (List Text)
  pub threshold : Text
  pub network_id_unset : Bool
  pub recipients : Option Text
  pub active : Bool
  pub created_at : ℕ
  pub updated_at : ℕ

pub record NotificationSettings : Type 0 where
  pub id : ℕ
  pub user_id : Text
  pub email_recipients : Option Text
  pub webhook_url : Option Text
  pub created_at : ℕ
  pub updated_at : ℕ

pub record Db : Type 0 where
  pub rules : List AlertRule
  pub settings : List NotificationSettings

pub data Error : Type 0 where
  -- SQLAlchemy: several rows where one at most is expected, a constraint that a commit violates
  multiple_results integrity_error : Error
  -- a row that a commit updates is gone
  missing_row : Error
  -- Python
  index_error : Error
  value_error overflow_error : Error
  -- an exception of a service or of a library, by its name
  exception : Text → Error
  -- a response that does not have the shape of its model
  response_validation : Error
  -- `HTTPException` with its status and detail
  http : ℕ → Text → Error

pub data Result {ℓ} (A : Type ℓ) : Type ℓ where
  ok : A → Result A
  raise : Error → Result A

infixl 5 ◌>>=◌
abbrev pub ◌>>=◌ {ℓ κ} : {A : Type ℓ} {B : Type κ} → Result A → (A → Result B) → Result B
ok a >>= f = f a
raise e >>= f = raise e

-- `result.scalar_one_or_none()`
unfoldable pub scalar_one_or_none {ℓ} : {A : Type ℓ} → List A → Result (Option A)
scalar_one_or_none [] = ok none
scalar_one_or_none (a ∷ []) = ok (some a)
scalar_one_or_none (a ∷ b ∷ as') = raise multiple_results

unfoldable pub settings_of : Text → List NotificationSettings → List NotificationSettings
settings_of user = keep (λ s. s.user_id == user)

-- `user_id` is unique in the table of settings.
abbrev pub HasUniqueUsers : List NotificationSettings → Type 0
HasUniqueUsers [] = Unit
HasUniqueUsers (s ∷ rest) = (settings_of s.user_id rest ≡ []) × HasUniqueUsers rest
