-- ===== src/Access/Ownership.antt =====
-- Who is admitted to what, under the rules of the bundle.
use mathlib.Core.Logic.Iff
use celine_grid.Prelude.{
  Text, text, text_eq, contains, ◌≡◌, ◌↔◌, ◌⊎◌, inl, inr, refl, Bool, true, false, not, ◌||◌,
  Option, none, some, List, [], ◌∷◌, arith, if◌then◌else◌, Bool-cases,
}
use celine_grid.Models.{http, Result, ok, raise}
use celine_grid.Identity.{
  JwtUser, PolicyInput, user_subject, service_subject, subject_type, dso_networks, only_network,
  dso_network, network_claim, scopes_of, make_policy_input,
}
use celine_grid.Policy.{
  Engine, is_service, has_scope, has_any_scope, owns_network, allow, grid_rego, answer, evaluate,
  allow_network_read, allow_alerts_read, allow_alerts_write, equal_networks,
}
use celine_grid.Policy.Reasons.{grid_rego_total}
use celine_grid.Access.{
  admit, require_network_read, require_alerts_read, require_alerts_write, resolve_networks,
  resolve_dso_network,
}

-- A caller without organisations whose token is a service account's.
abbrev pub is_service_caller : JwtUser → Bool
is_service_caller user = elim (subject_type user) [ user_subject ↦ false | service_subject ↦ true ]

abbrev pub caller_scope : JwtUser → Text → Bool
caller_scope user = contains (scopes_of user.scope)

-- A service account with a scope of the grid, or a member of the network.
abbrev pub may_read : JwtUser → Text → Bool
may_read user network_id =
    if is_service_caller user
    then caller_scope user (text "grid.read") || caller_scope user (text "grid.admin")
    else contains (dso_networks user) network_id

-- A network that is not in the list is not its only one.
only_network-ne :
    (ns : List Text) (n : Text)
    → contains ns n ≡ false
    → equal_networks (some n) (only_network ns) ≡ false
unfolding only_network
only_network-ne [] n h = refl
only_network-ne (m ∷ []) n h = ground arith
only_network-ne (m ∷ k ∷ ns) n h = refl

owns-contains :
    (user : JwtUser) (n : Text)
    → equal_networks (some n) (dso_network user (some n)) ≡ contains (dso_networks user) n
unfolding dso_network
owns-contains user n = ground (arith, only_network-ne (dso_networks user) n)

allow-read :
    (user : JwtUser) (n : Text)
    → allow (make_policy_input user (text "read") (some n)) ≡ may_read user n
unfolding allow is_service has_scope has_any_scope owns_network make_policy_input network_claim
allow-read user n = ground (arith, owns-contains user n)

-- A service account that is the grid's administrator, or a caller of one network.
abbrev pub may_write : JwtUser → Bool
may_write user =
    if is_service_caller user
    then caller_scope user (text "grid.admin")
    else elim (only_network (dso_networks user)) [ none ↦ false | some n ↦ true ]

allow-write :
    (user : JwtUser) → allow (make_policy_input user (text "alerts.write") none) ≡ may_write user
unfolding allow is_service has_scope has_any_scope owns_network make_policy_input network_claim
    dso_network
allow-write user = ground arith

allow-alerts_read :
    (user : JwtUser)
    → allow (make_policy_input user (text "alerts.read") none)
      ≡ (not (is_service_caller user) || caller_scope user (text "grid.admin"))
unfolding allow is_service has_scope has_any_scope owns_network make_policy_input network_claim
    dso_network
allow-alerts_read user = ground arith

admit-eq :
    (dev : Bool) (user : JwtUser) (action : Text) (attribute : Option Text)
    → (admit (evaluate dev (some grid_rego) user action attribute) user ≡ ok user)
      ↔ (allow (make_policy_input user action attribute) ≡ true)
unfolding admit evaluate answer
admit-eq dev user action attribute =
    let found = grid_rego_total (make_policy_input user action attribute) in
    rw (found.1) (ground arith)

-- Under the rules of the bundle, in any posture, data of a network is read exactly by the members of
-- that DSO and by the service accounts with `grid.read` or `grid.admin`; a member's scopes do not
-- count, and neither does which of several networks is asked for.
pub require_network_read_iff :
    (dev : Bool) (user : JwtUser) (network_id : Text)
    → (require_network_read dev (some grid_rego) network_id user ≡ ok user)
      ↔ (may_read user network_id ≡ true)
unfolding require_network_read allow_network_read
require_network_read_iff dev user n =
    rw (← allow-read user n) (admit-eq dev user (text "read") (some n))

-- Under the rules of the bundle, alert rules and settings are read exactly by the callers that are no
-- service accounts, members of a DSO or not, and by those with `grid.admin`.
pub require_alerts_read_iff :
    (dev : Bool) (user : JwtUser)
    → (require_alerts_read dev (some grid_rego) user ≡ ok user)
      ↔ ((is_service_caller user ≡ false) ⊎ (caller_scope user (text "grid.admin") ≡ true))
unfolding require_alerts_read allow_alerts_read
require_alerts_read_iff dev user = ground (
  arith,
  (admit-eq dev user (text "alerts.read") none).0,
  (admit-eq dev user (text "alerts.read") none).1,
  allow-alerts_read user,
)

-- A list of networks that resolves to one is a list of one.
resolve-only :
    (ns : List Text)
    → (elim (only_network ns) [ none ↦ false | some n ↦ true ] ≡ true)
      ↔ ((n : Text) × (resolve_networks ns ≡ ok n))
unfolding resolve_networks only_network
resolve-only [] = (λ h. cc, λ h. cc (h.1))
resolve-only (n ∷ []) = (λ h. (n, refl), λ h. refl)
resolve-only (n ∷ m ∷ ns) = (λ h. cc, λ h. cc (h.1))

may_write-resolve :
    (user : JwtUser)
    → (may_write user ≡ true) ↔ (
        (is_service_caller user ≡ true) × (caller_scope user (text "grid.admin") ≡ true)
        ⊎ (is_service_caller user ≡ false) × ((n : Text) × (resolve_dso_network user ≡ ok n)))
unfolding resolve_dso_network
may_write-resolve user = elim (Bool-cases (is_service_caller user)) [
  | inl service ↦ rw service (λ h. inl (refl, h), by_scope)
  | inr member ↦ rw member (λ h. inr (refl, (resolve-only (dso_networks user)).0 h), by_network)
]
  where
    by_scope :
        (true ≡ true) × (caller_scope user (text "grid.admin") ≡ true)
          ⊎ (true ≡ false) × ((n : Text) × (resolve_dso_network user ≡ ok n))
        → caller_scope user (text "grid.admin") ≡ true
    by_scope (inl h) = h.1
    by_scope (inr h) = cc (h.0)

    by_network :
        (false ≡ true) × (caller_scope user (text "grid.admin") ≡ true)
          ⊎ (false ≡ false) × ((n : Text) × (resolve_dso_network user ≡ ok n))
        → elim (only_network (dso_networks user)) [ none ↦ false | some n ↦ true ] ≡ true
    by_network (inl h) = cc (h.0)
    by_network (inr h) = (resolve-only (dso_networks user)).1 h.1

-- Under the rules of the bundle, alert rules and settings are changed exactly by the callers that are
-- no service accounts and whose one network `resolve_dso_network` finds, and by the service accounts
-- with `grid.admin`.
pub require_alerts_write_iff :
    (dev : Bool) (user : JwtUser)
    → (require_alerts_write dev (some grid_rego) user ≡ ok user) ↔ (
        (is_service_caller user ≡ true) × (caller_scope user (text "grid.admin") ≡ true)
        ⊎ (is_service_caller user ≡ false) × ((n : Text) × (resolve_dso_network user ≡ ok n)))
unfolding require_alerts_write allow_alerts_write
require_alerts_write_iff dev user =
    Iff.trans (admit-eq dev user (text "alerts.write") none)
      (rw allow-write (may_write-resolve user))

-- The engine is missing, or it raises whatever it is asked.
abbrev pub IsBroken : Option Engine → Type 0
IsBroken none = Unit
IsBroken (some engine) = (input : PolicyInput) → engine input ≡ none

-- The caller is let through in development, and refused outside of it.
abbrev pub FollowsPosture : Bool → JwtUser → Result JwtUser → Type 0
FollowsPosture dev user r =
    ((d : Text) × (r ≡ raise (http 403 d))) × (dev ≡ false) ⊎ (r ≡ ok user) × (dev ≡ true)

unanswered-FollowsPosture :
    (dev : Bool) (user : JwtUser) → FollowsPosture dev user (admit (answer dev none) user)
unfolding answer admit
unanswered-FollowsPosture false user = inl ((_, refl), refl)
unanswered-FollowsPosture true user = inr (refl, refl)

-- Outside development a missing engine and one that raises admit nobody to anything; in development
-- they admit everybody.
pub fail_closed :
    (dev : Bool) (engine : Option Engine) (user : JwtUser) (network_id : Text)
    → IsBroken engine
    → FollowsPosture dev user (require_network_read dev engine network_id user)
      × FollowsPosture dev user (require_alerts_read dev engine user)
      × FollowsPosture dev user (require_alerts_write dev engine user)
unfolding require_network_read require_alerts_read require_alerts_write allow_network_read
    allow_alerts_read allow_alerts_write evaluate admit
fail_closed false none user n broken =
    (inl ((_, refl), refl), inl ((_, refl), refl), inl ((_, refl), refl))
fail_closed true none user n broken = (inr (refl, refl), inr (refl, refl), inr (refl, refl))
fail_closed dev (some engine) user n broken =
    (at (text "read") (some n), at (text "alerts.read") none, at (text "alerts.write") none)
  where
    at :
        (action : Text) (attribute : Option Text)
        → FollowsPosture dev user
            (admit (answer dev (engine (make_policy_input user action attribute))) user)
    at action attribute =
        rw (broken (make_policy_input user action attribute)) (unanswered-FollowsPosture dev user)
