-- ===== src/Identity.antt =====
-- Who calls, and what the policy is told of the caller: `dso_networks`, `_dso_network` and
-- `_make_policy_input` (src/celine/grid/security/policy.py).
-- The token is read by the SDK: its user and organisations are records of what the service reads of
-- them.
use celine_grid.Prelude.{
  ℕ, Text, text, ◌==◌, text_eq, contains, if◌then◌else◌, Bool, false, not, ◌||◌, Option, none, some,
  List, [], ◌∷◌, map, keep, length, sorted, text_lt,
}
use celine_grid.Prelude.Strings.{is_space, split_runs}

-- `org.has_attribute(name, value)` is the SDK's.
pub record Organization : Type 0 where
  pub alias : Text
  pub type : Option Text
  pub has_attribute : Text → Text → Bool

-- The claim `scope`: a text, a list, or missing or null.
pub data ScopeClaim : Type 0 where
  absent : ScopeClaim
  joined : Text → ScopeClaim
  listed : List Text → ScopeClaim

-- `organization_groups` is the SDK's function of the claims.
pub record JwtUser : Type 0 where
  pub sub : Text
  pub email : Option Text
  pub organizations : List Organization
  pub is_service_account : Bool
  pub scope : ScopeClaim
  pub organization_groups : Text → List Text
  pub name : Option Text
  pub preferred_username : Option Text
  -- the claim `locale`, `none` if it is missing or no text
  pub locale : Option Text

abbrev pub dso_type : Text
dso_type = text "dso"

abbrev is_text : Option Text → Text → Bool
is_text none t = false
is_text (some s) t = s == t

unfoldable pub is_dso : Organization → Bool
is_dso org = is_text org.type dso_type || org.has_attribute (text "type") dso_type

abbrev pub alias_of : Organization → Text
alias_of org = org.alias

unfoldable pub dso_networks : JwtUser → List Text
dso_networks user = sorted text_lt (map alias_of (keep is_dso user.organizations))

-- The one network of a caller who has one.
unfoldable pub only_network : List Text → Option Text
only_network [] = none
only_network (n ∷ []) = some n
only_network (n ∷ m ∷ ns) = none

unfoldable pub dso_network : JwtUser → Option Text → Option Text
dso_network user none = only_network (dso_networks user)
dso_network user (some requested) =
    if contains (dso_networks user) requested
    then some requested
    else only_network (dso_networks user)

-- `s.split()`
unfoldable pub words : Text → List Text
words s = keep (λ w. not (w == [])) (split_runs is_space s)

unfoldable pub scopes_of : ScopeClaim → List Text
scopes_of absent = []
scopes_of (joined s) = words s
scopes_of (listed scopes) = scopes

pub data SubjectType : Type 0 where
  user_subject service_subject : SubjectType

unfoldable pub subject_type : JwtUser → SubjectType
subject_type user = elim user.organizations [
  | [] ↦ if user.is_service_account then service_subject else user_subject
  | org ∷ orgs ↦ user_subject
]

-- The input of the policy. The attributes of the resource are `{"network_id": n}` or `{}`.
pub record PolicyInput : Type 0 where
  pub id : Text
  pub type : SubjectType
  pub groups : List Text
  pub scopes : List Text
  pub network_id : Option Text
  pub dso_count : ℕ
  pub attribute : Option Text
  pub action : Text

unfoldable pub network_claim : SubjectType → JwtUser → Option Text → Option Text
network_claim service_subject user attribute = none
network_claim user_subject user attribute = dso_network user attribute

-- `attributes.get("network_id") or network_id`, as a text that is empty for `None`.
unfoldable pub concerned : Option Text → Option Text → Text
concerned none none = []
concerned none (some n) = n
concerned (some []) none = []
concerned (some []) (some n) = n
concerned (some (c ∷ s)) network_id = c ∷ s

unfoldable pub groups_for : SubjectType → JwtUser → Text → List Text
groups_for service_subject user network = []
groups_for user_subject user [] = []
groups_for user_subject user (c ∷ s) = user.organization_groups (c ∷ s)

unfoldable pub make_policy_input : JwtUser → Text → Option Text → PolicyInput
make_policy_input user action attribute =
    let type = subject_type user in
    let network_id = network_claim type user attribute in
    record {
      id = user.sub;
      type = type;
      groups = groups_for type user (concerned attribute network_id);
      scopes = scopes_of user.scope;
      network_id = network_id;
      dso_count = length (dso_networks user);
      attribute = attribute;
      action = action;
    }
