-- ===== src/Policy.antt =====
-- The access policy: the rules of policies/grid.rego, and `GridAccessPolicy`
-- (src/celine/grid/security/policy.py), which evaluates them.
pub mod Reasons
pub mod Loading
use celine_grid.Prelude.{
  ℕ, Text, text, ◌==◌, text_eq, contains, if◌then◌else◌, Bool, true, false, not, ◌&&◌, ◌||◌, Option,
  none, some, List, [], ◌∷◌, ◌++◌, ltb, any, all, String,
}
use celine_grid.Identity.{
  JwtUser, PolicyInput, SubjectType, service_subject, user_subject, make_policy_input,
}

unfoldable pub is_service : PolicyInput → Bool
is_service input = elim input.type [ user_subject ↦ false | service_subject ↦ true ]

unfoldable pub has_scope : PolicyInput → Text → Bool
has_scope input scope = contains input.scopes scope

unfoldable pub has_any_scope : PolicyInput → List Text → Bool
has_any_scope input scopes = any (λ s. contains input.scopes s) scopes

abbrev pub equal_networks : Option Text → Option Text → Bool
equal_networks none n = false
equal_networks (some m) none = false
equal_networks (some m) (some n) = m == n

-- Undefined, which counts as false, where the resource has no network.
unfoldable pub owns_network : PolicyInput → Bool
owns_network input = equal_networks input.attribute input.network_id

abbrev pub has_network : PolicyInput → Bool
has_network input = elim input.network_id [ none ↦ false | some n ↦ true ]

abbrev pub read_scopes : List Text
read_scopes = text "grid.read" ∷ text "grid.admin" ∷ []

abbrev pub acts : PolicyInput → String → Bool
acts input name = input.action == text name

-- The five rules for `allow`, which is false by default.
unfoldable pub allow : PolicyInput → Bool
allow input =
    not (is_service input) && acts input "read" && owns_network input
    || is_service input && acts input "read" && has_any_scope input read_scopes
    || not (is_service input) && acts input "alerts.read"
    || not (is_service input) && acts input "alerts.write" && has_network input
    || is_service input && has_scope input (text "grid.admin")

abbrev fires : Bool → String → List Text
fires condition reason = if condition then text reason ∷ [] else []

-- The values that the rules for `reason` give.
unfoldable pub reasons : PolicyInput → List Text
reasons input =
    let user = not (is_service input) in
    let denied = not (allow input) in
    let no_network = not (has_network input) in
    fires (user && acts input "read" && owns_network input) "user accessing own network data"
    ++ (fires (user && (acts input "alerts.read" || acts input "alerts.write") && allow input)
          "user managing own alert rules"
        ++ (fires (is_service input && allow input) "service access granted"
            ++ (fires (denied && user && acts input "read" && not (owns_network input))
                  "network_id mismatch: user does not belong to the requested DSO"
                ++ (fires
                      (denied
                        && user
                        && acts input "alerts.write"
                        && no_network
                        && ltb input.dso_count 2)
                      "missing DSO organization membership"
                    ++ (fires
                          (denied
                            && user
                            && acts input "alerts.write"
                            && no_network
                            && not (ltb input.dso_count 2))
                          "ambiguous DSO organization membership: name the network"
                        ++ fires
                            (denied
                              && is_service input
                              && acts input "read"
                              && not (has_any_scope input read_scopes))
                            "service missing grid.read scope")))))

-- A rule that gives two values is an error of the evaluation, which raises: `none`.
unfoldable pub only_value : List Text → Option Text
only_value [] = some (text "access denied")
only_value (r ∷ rs) = if all (λ s. s == r) rs then some r else none

-- An engine answers with `allowed` and `reason`, or raises.
abbrev pub Engine : Type 0
Engine = PolicyInput → Option (Bool × Text)

-- The engine of the bundle.
unfoldable pub grid_rego : Engine
grid_rego input = elim (only_value (reasons input)) [
  | none ↦ none
  | some reason ↦ some (allow input, reason)
]

pub record Decision : Type 0 where
  pub allowed : Bool
  pub reason : Option Text

-- `result.reason or None`
abbrev or_none : Text → Option Text
or_none [] = none
or_none (c ∷ s) = some (c ∷ s)

abbrev pub decision : Bool → String → Decision
decision allowed reason = record { allowed = allowed; reason = some (text reason) }

unfoldable pub answer : Bool → Option (Bool × Text) → Decision
answer dev none =
    if dev then decision true "policy-error-permissive" else decision false "policy-error"
answer dev (some (allowed, reason)) = record { allowed = allowed; reason = or_none reason }

-- `_evaluate`: `dev` is the posture, and the engine is missing if no bundle was loaded.
unfoldable pub evaluate : Bool → Option Engine → JwtUser → Text → Option Text → Decision
evaluate dev none user action attribute = decision dev "no-policy-engine"
evaluate dev (some engine) user action attribute =
    answer dev (engine (make_policy_input user action attribute))

unfoldable pub allow_network_read : Bool → Option Engine → JwtUser → Text → Decision
allow_network_read dev engine user network_id =
    evaluate dev engine user (text "read") (some network_id)

unfoldable pub allow_alerts_read : Bool → Option Engine → JwtUser → Decision
allow_alerts_read dev engine user = evaluate dev engine user (text "alerts.read") none

unfoldable pub allow_alerts_write : Bool → Option Engine → JwtUser → Decision
allow_alerts_write dev engine user = evaluate dev engine user (text "alerts.write") none
