-- ===== src/Policy/Reasons.antt =====
-- The rules of the bundle never contradict one another.
use celine_grid.Prelude.{
  ℕ, ◌+◌, ◌≤◌, length, Text, text, text_eq, ◌==◌, ◌≡◌, ◌≢◌, refl, Bool, true, false, not, ◌&&◌,
  ◌||◌, some, List, [], ◌∷◌, ◌++◌, arith, if◌then◌else◌, ltb,
}
use celine_grid.Identity.{PolicyInput}
use celine_grid.Policy.{
  is_service, has_scope, has_any_scope, owns_network, has_network, read_scopes, acts, allow,
  reasons, only_value, grid_rego,
}

abbrev bit : Bool → ℕ
bit b = if b then 1 else 0

length-fires :
    (b : Bool) (r : Text) (rs : List Text)
    → length ((if b then r ∷ [] else []) ++ rs) ≡ bit b + length rs
length-fires true r rs = omega arith
length-fires false r rs = omega arith

length-fires_last : (b : Bool) (r : Text) → length (if b then r ∷ [] else []) ≡ bit b
length-fires_last true r = refl
length-fires_last false r = refl

-- The conditions of the rules for `reason`, over the tests that they make: a service, the three
-- actions, the network's owner, a network, fewer than two networks, a scope to read, the admin's.
abbrev allowed : Bool → Bool → Bool → Bool → Bool → Bool → Bool → Bool → Bool
allowed svc rd ar aw owns net scope adm =
    not svc && rd && owns
    || svc && rd && scope
    || not svc && ar
    || not svc && aw && net
    || svc && adm

one_reason :
    (svc rd ar aw owns net few scope adm : Bool)
    → (rd && ar) ≡ false
    → (rd && aw) ≡ false
    → let al = allowed svc rd ar aw owns net scope adm in
      bit (not svc && rd && owns)
        + (bit (not svc && (ar || aw) && al)
            + (bit (svc && al)
                + (bit (not al && not svc && rd && not owns)
                    + (bit (not al && not svc && aw && not net && few)
                        + (bit (not al && not svc && aw && not net && not few)
                            + bit (not al && svc && rd && not scope))))))
      ≤ 1
one_reason true rd ar aw owns net few scope adm x y = ground arith
one_reason false true true aw owns net few scope adm x y = cc
one_reason false true false true owns net few scope adm x y = cc
one_reason false true false false owns net few scope adm x y = ground arith
one_reason false false ar aw owns net few scope adm x y = ground arith

exclusive : (action : Text) (a b : Text) → a ≢ b → ((action == a) && (action == b)) ≡ false
exclusive action a b ne = ground arith

length-reasons : (input : PolicyInput) → length (reasons input) ≤ 1
unfolding reasons allow
length-reasons input =
    simp (length-fires, length-fires_last)
      (one_reason (is_service input) (acts input "read") (acts input "alerts.read")
        (acts input "alerts.write") (owns_network input) (has_network input) (ltb input.dso_count 2)
        (has_any_scope input read_scopes) (has_scope input (text "grid.admin"))
        (exclusive input.action (text "read") (text "alerts.read") (λ e. cc))
        (exclusive input.action (text "read") (text "alerts.write") (λ e. cc)))

only_value-IsSome : (rs : List Text) → length rs ≤ 1 → (r : Text) × (only_value rs ≡ some r)
unfolding only_value
only_value-IsSome [] h = (text "access denied", refl)
only_value-IsSome (r ∷ []) h = (r, refl)
only_value-IsSome (r ∷ s ∷ rs) h = absurd (omega arith)

-- On every input at most one of the rules for a reason gives a value, so the evaluation never raises:
-- it answers with what the rules for `allow` say, and a reason.
pub grid_rego_total :
    (input : PolicyInput) → (reason : Text) × (grid_rego input ≡ some (allow input, reason))
unfolding grid_rego
grid_rego_total input =
    let found = only_value-IsSome (reasons input) (length-reasons input) in
    (found.0, rw (found.1, grid_rego))
