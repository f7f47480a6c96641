-- ===== src/Alerts/Listing.antt =====
-- What a listing of rules holds.
use celine_grid.Prelude.{
  Text, text_eq, ltb, Bool, Option, none, some, List, [], ◌∷◌, ◌≡◌, ◌≢◌, refl, ◌⊎◌, inl, inr, arith,
  sorted, IsSorted, sorted-IsSorted_on, IsStrictOrderOn, In, In-sorted, All, sorted-perm, keep,
  ◌==◌,
}
use mathlib.Core.List.{Perm}
use celine_grid.Models.{AlertRule, Db, Result, ok, raise, response_validation, ◌>>=◌}
use celine_grid.Identity.{JwtUser}
use celine_grid.Alerts.Handlers.{rules_of, respond, respond_all, list_alert_rules}

abbrev pub is_older : AlertRule → AlertRule → Bool
is_older a b = ltb a.created_at b.created_at

is_older-IsStrictOrderOn : IsStrictOrderOn (λ r. Unit {0}) is_older
is_older-IsStrictOrderOn = record {
  asym_on = λ a b p q h. ground (arith, h);
  neg_trans_on = λ a b c p q r h k. ground (arith, h, k);
}

unit_each : (rules : List AlertRule) → All (λ r. Unit {0}) rules
unit_each [] = tt
unit_each (r ∷ rules) = (tt, unit_each rules)

-- The response takes no rule whose hazards are null.
abbrev pub HasTypes : AlertRule → Type 0
HasTypes r = r.risk_types ≢ none

abbrev Responds : List AlertRule → Result (List AlertRule) → Type 0
Responds rules out =
    (out ≡ ok rules) × All HasTypes rules
    ⊎ (out ≡ raise response_validation) × ((r : AlertRule) × In r rules × (r.risk_types ≡ none))

Responds-cons :
    (r : AlertRule) (types : Option (List Text)) (rules : List AlertRule)
    (rest : Result (List AlertRule))
    → r.risk_types ≡ types
    → Responds rules rest
    → Responds (r ∷ rules) (
        elim types [ none ↦ raise response_validation | some ts ↦ ok r ] >>= λ x.
        (rest >>= λ xs. ok (x ∷ xs)))
Responds-cons r none rules rest e h = inr (refl, (r, inl refl, e))
Responds-cons r (some ts) rules rest e (inl (out, all)) = inl (rw out refl, ((λ n. cc (e, n)), all))
Responds-cons r (some ts) rules rest e (inr (out, (s, m, n))) = inr (rw out refl, (s, inr m, n))

respond_all-Responds : (rules : List AlertRule) → Responds rules (respond_all rules)
unfolding respond_all respond
respond_all-Responds [] = inl (refl, tt)
respond_all-Responds (r ∷ rules) =
    Responds-cons r r.risk_types rules (respond_all rules) refl (respond_all-Responds rules)

-- The rules of the user, in the order of the table.
abbrev pub own_rules : JwtUser → Db → List AlertRule
own_rules user db = keep (λ r. r.user_id == user.sub) db.rules

-- The rules of the user, each once, the oldest first.
abbrev pub IsListing : JwtUser → Db → List AlertRule → Type 0
IsListing user db rules = Perm rules (own_rules user db) × IsSorted is_older rules

-- A listing answers with exactly the rules of the caller, the oldest first, all of which have hazards;
-- or some rule of the caller has null for its hazards, and the response is refused.
pub list_alert_rules-IsListing :
    (user : JwtUser) (db : Db)
    → ((rules : List AlertRule) × (list_alert_rules user db ≡ ok rules)
        × IsListing user db rules
        × All HasTypes rules)
      ⊎ (list_alert_rules user db ≡ raise response_validation)
        × ((r : AlertRule) × In r (own_rules user db) × (r.risk_types ≡ none))
unfolding list_alert_rules rules_of
list_alert_rules-IsListing user db =
    let mine = own_rules user db in
    elim (respond_all-Responds (sorted is_older mine)) [
      | inl (out, all) ↦ inl (
        sorted is_older mine,
        out,
        (
          sorted-perm is_older mine,
          sorted-IsSorted_on is_older (λ r. Unit {0}) is_older-IsStrictOrderOn mine
              (unit_each mine),
        ),
        all,
      )
      | inr (out, (r, m, n)) ↦ inr (out, (r, In-sorted is_older r mine m, n))
    ]
