-- ===== src/Tests/Access.antt =====
-- Callers of the service at concrete tokens.
use celine_grid.Prelude.{
  Text, text, text_eq, ◌==◌, ◌≡◌, ◌↔◌, ◌⊎◌, refl, true, false, if◌then◌else◌, none, some, [], ◌∷◌,
}
use celine_grid.Models.{ok}
use celine_grid.Identity.{Organization, JwtUser, absent, joined, dso_type, make_policy_input}
use celine_grid.Policy.{Engine, allow, grid_rego}
use celine_grid.Policy.Reasons.{grid_rego_total}
use celine_grid.Access.{
  Request, require_network_read, require_alerts_read, require_alerts_write, resolve_dso_network,
}
use celine_grid.Access.Ownership.{
  is_service_caller, caller_scope, may_read, FollowsPosture, require_network_read_iff,
  require_alerts_read_iff, require_alerts_write_iff, fail_closed,
}

abbrev pub dso : Text → Organization
dso alias = record { alias = alias; type = some dso_type; has_attribute = λ n v. false }

abbrev pub member_of_a : JwtUser
member_of_a = record {
  sub = text "u1";
  email = none;
  organizations = dso (text "net-a") ∷ [];
  is_service_account = false;
  scope = absent;
  organization_groups = λ n. [];
  name = none;
  preferred_username = none;
  locale = none;
}

abbrev service : JwtUser
service = record {
  sub = text "svc";
  email = none;
  organizations = [];
  is_service_account = true;
  scope = joined (text "grid.read email");
  organization_groups = λ n. [];
  name = none;
  preferred_username = none;
  locale = none;
}

abbrev pub request : Request
request = record {
  path = text "/api/me";
  headers = λ name. if name == text "authorization" then some (text "Bearer abc") else none;
}

-- An engine that raises whatever it is asked.
abbrev broken : Engine
broken input = none

grid_rego_total_example :
    let input = make_policy_input member_of_a (text "read") (some (text "net-b")) in
    (reason : Text) × (grid_rego input ≡ some (allow input, reason))
grid_rego_total_example =
    grid_rego_total (make_policy_input member_of_a (text "read") (some (text "net-b")))

require_network_read_iff_example :
    (require_network_read false (some grid_rego) (text "net-a") member_of_a ≡ ok member_of_a)
    ↔ (may_read member_of_a (text "net-a") ≡ true)
require_network_read_iff_example = require_network_read_iff false member_of_a (text "net-a")

require_alerts_read_iff_example :
    (require_alerts_read false (some grid_rego) service ≡ ok service)
    ↔ ((is_service_caller service ≡ false) ⊎ (caller_scope service (text "grid.admin") ≡ true))
require_alerts_read_iff_example = require_alerts_read_iff false service

require_alerts_write_iff_example :
    (require_alerts_write false (some grid_rego) member_of_a ≡ ok member_of_a) ↔ (
      (is_service_caller member_of_a ≡ true) × (caller_scope member_of_a (text "grid.admin") ≡ true)
      ⊎ (is_service_caller member_of_a ≡ false)
        × ((n : Text) × (resolve_dso_network member_of_a ≡ ok n)))
require_alerts_write_iff_example = require_alerts_write_iff false member_of_a

fail_closed_example :
    FollowsPosture false member_of_a
      (require_network_read false (some broken) (text "net-a") member_of_a)
    × FollowsPosture false member_of_a (require_alerts_read false (some broken) member_of_a)
    × FollowsPosture false member_of_a (require_alerts_write false (some broken) member_of_a)
fail_closed_example = fail_closed false (some broken) member_of_a (text "net-a") (λ input. refl)
