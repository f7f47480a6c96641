-- ===== src/Migrations.antt =====
-- The migrations of the tables (alembic/versions): what each does to the rows.
-- Indexes and server defaults of later inserts have no effect on the rows that are there.
pub mod Reversal
pub mod Silence
use celine_grid.Prelude.{
  ℕ, Text, text, ◌==◌, text_eq, leb, Bool, true, false, ◌||◌, Option, none, some, List, [], ◌∷◌,
  map, length, if◌then◌else◌,
}
use celine_grid.Models.{
  AlertRule, NotificationSettings, Db, integrity_error, Result, ok, raise, ◌>>=◌,
}

-- A rule under revision 001.
pub record FirstRule : Type 0 where
  pub id : ℕ
  pub user_id : Text
  pub risk_type : Text
  pub threshold : Text
  pub operational_unit : Option Text
  pub recipients : Option Text
  pub active : Bool
  pub created_at : ℕ
  pub updated_at : ℕ

-- A rule under revision 002. The JSON column holds an array of texts, or null.
pub record SecondRule : Type 0 where
  pub id : ℕ
  pub user_id : Text
  pub threshold : Text
  pub recipients : Option Text
  pub active : Bool
  pub created_at : ℕ
  pub updated_at : ℕ
  pub risk_types : Option (List Text)
  pub network_id : Text

-- The database at a revision.
pub data Revision : Type 0 where
  base : Revision
  first : List FirstRule → List NotificationSettings → Revision
  second : List SecondRule → List NotificationSettings → Revision
  third : Db → Revision

-- 002: the hazard becomes an array of one, and the network is unknown.
unfoldable pub upgrade_second : FirstRule → SecondRule
upgrade_second r = record {
  id = r.id;
  user_id = r.user_id;
  threshold = r.threshold;
  recipients = r.recipients;
  active = r.active;
  created_at = r.created_at;
  updated_at = r.updated_at;
  risk_types = some (r.risk_type ∷ []);
  network_id = [];
}

-- 003: rules of no network are marked.
unfoldable pub upgrade_third : SecondRule → AlertRule
upgrade_third r = record {
  id = r.id;
  user_id = r.user_id;
  network_id = r.network_id;
  risk_types = r.risk_types;
  threshold = r.threshold;
  network_id_unset = r.network_id == [];
  recipients = r.recipients;
  active = r.active;
  created_at = r.created_at;
  updated_at = r.updated_at;
}

unfoldable pub downgrade_third : AlertRule → SecondRule
downgrade_third r = record {
  id = r.id;
  user_id = r.user_id;
  threshold = r.threshold;
  recipients = r.recipients;
  active = r.active;
  created_at = r.created_at;
  updated_at = r.updated_at;
  risk_types = r.risk_types;
  network_id = r.network_id;
}

-- `risk_types->>0`
unfoldable pub first_type : Option (List Text) → Option Text
first_type none = none
first_type (some []) = none
first_type (some (t ∷ types)) = some t

abbrev pub first_rule : SecondRule → Text → FirstRule
first_rule r risk_type = record {
  id = r.id;
  user_id = r.user_id;
  risk_type = risk_type;
  threshold = r.threshold;
  operational_unit = none;
  recipients = r.recipients;
  active = r.active;
  created_at = r.created_at;
  updated_at = r.updated_at;
}

-- The restored column may not be null and holds 20 characters.
unfoldable pub restored : SecondRule → Option Text → Result FirstRule
restored r none = raise integrity_error
restored r (some risk_type) =
    if leb (length risk_type) 20 then ok (first_rule r risk_type) else raise integrity_error

unfoldable pub downgrade_second : List SecondRule → Result (List FirstRule)
downgrade_second [] = ok []
downgrade_second (r ∷ rules) =
    let rest = downgrade_second rules in
    restored r (first_type r.risk_types) >>= λ x. (rest >>= λ xs. ok (x ∷ xs))

-- One revision up; the last one stays.
unfoldable pub upgrade : Revision → Revision
upgrade base = first [] []
upgrade (first rules settings) = second (map upgrade_second rules) settings
upgrade (second rules settings) =
    third (record { rules = map upgrade_third rules; settings = settings })
upgrade (third db) = third db

-- One revision down. A migration that raises is rolled back.
unfoldable pub downgrade : Revision → Result Revision
downgrade base = ok base
downgrade (first rules settings) = ok base
downgrade (second rules settings) = downgrade_second rules >>= λ rs. ok (first rs settings)
downgrade (third db) = ok (second (map downgrade_third db.rules) db.settings)
