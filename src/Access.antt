-- ===== src/Access.antt =====
-- From a request to an admitted caller: `PolicyMiddleware` (src/celine/grid/security/middleware.py)
-- and the dependencies of the routes (src/celine/grid/api/deps.py).
pub mod Tokens
pub mod Ownership
use celine_grid.Prelude.{
  ◌++◌, ℕ, Text, text, ◌==◌, text_eq, contains, if◌then◌else◌, Bool, true, false, not, Option, none,
  some, List, [], ◌∷◌,
}
use celine_grid.Prelude.Strings.{strip, before_first, starts_with}
use celine_grid.Models.{Error, http, Result, ok, raise}
use celine_grid.Identity.{JwtUser, dso_networks}
use celine_grid.Policy.{Engine, Decision, allow_network_read, allow_alerts_read, allow_alerts_write}

-- `headers` is `request.headers.get`, in which the framework folds the case of names.
pub record Request : Type 0 where
  pub path : Text
  pub headers : Text → Option Text

-- `headers.get(name, "")`
abbrev pub header : Request → Text → Text
header r name = elim (r.headers name) [ none ↦ [] | some value ↦ value ]

-- `host` is the address of the connection, if there is one.
unfoldable pub get_client_ip : Request → Option Text → Text
get_client_ip r host = elim (header r (text "X-Forwarded-For")) [
  | [] ↦ elim (header r (text "X-Real-IP")) [
    | [] ↦ elim host [ none ↦ text "unknown" | some address ↦ address ]
    | c ∷ real_ip ↦ c ∷ real_ip
  ]
  | c ∷ forwarded ↦ strip (before_first b',' (c ∷ forwarded))
]

abbrev pub public_paths : List Text
public_paths = text "/health" ∷ text "/api/docs" ∷ text "/api/redoc" ∷ text "/api/openapi.json" ∷ []

-- `auth[7:]`
abbrev pub after_seven : Text → Text
after_seven (_ ∷ _ ∷ _ ∷ _ ∷ _ ∷ _ ∷ _ ∷ rest) = rest
after_seven _ = []

-- What `JwtUser.from_token` does: it returns a user, or raises an `ExpiredSignatureError`, another
-- `InvalidTokenError` or any other exception, with its text.
pub data TokenCheck : Type 0 where
  accepted : JwtUser → TokenCheck
  expired : TokenCheck
  invalid : Text → TokenCheck
  broken : Text → TokenCheck

unfoldable pub user_or_401 : TokenCheck → Result JwtUser
user_or_401 (accepted user) = ok user
user_or_401 expired = raise (http 401 (text "Token has expired"))
user_or_401 (invalid e) = raise (http 401 (text "Invalid token: " ++ e))
user_or_401 (broken e) = raise (http 401 (text "Authentication failed: " ++ e))

-- `lower` is `str.lower`, `jwt_header_name` a setting.
module _ (lower : Text → Text) (jwt_header_name : Text) where
  abbrev pub is_bearer : Request → Bool
  is_bearer r = starts_with (lower (header r (text "authorization"))) (text "bearer ")

  unfoldable pub has_token : Request → Bool
  has_token r = elim (header r jwt_header_name) [ [] ↦ is_bearer r | c ∷ token ↦ true ]

  unfoldable pub extract_token : Request → Option Text
  extract_token r = elim (header r jwt_header_name) [
    | [] ↦
        if is_bearer r then some (strip (after_seven (header r (text "authorization")))) else none
    | c ∷ token ↦ some (c ∷ token)
  ]

  -- `PolicyMiddleware.dispatch`: `call_next` is the application behind it.
  unfoldable pub middleware {ℓ} : {A : Type ℓ} → (Request → Result A) → Request → Result A
  middleware call_next r =
      if contains public_paths r.path
      then call_next r
      else if not (has_token r)
      then raise (http 401 (text "Missing authentication token"))
      else call_next r

  -- `from_token` is the SDK's check of a token.
  unfoldable pub get_user_from_request : (Text → TokenCheck) → Request → Result JwtUser
  get_user_from_request from_token r = elim (extract_token r) [
    | none ↦ raise (http 401 (text "Missing authentication token"))
    | some [] ↦ raise (http 401 (text "Missing authentication token"))
    | some (c ∷ token) ↦ user_or_401 (from_token (c ∷ token))
  ]

unfoldable pub resolve_networks : List Text → Result Text
resolve_networks [] = raise (http 403 (text "DSO organisation membership required"))
resolve_networks (n ∷ []) = ok n
resolve_networks (n ∷ m ∷ ns) =
    raise (http 403 (text "Member of several DSO organisations: the request must name the network"))

unfoldable pub resolve_dso_network : JwtUser → Result Text
unfolding resolve_networks
resolve_dso_network user = resolve_networks (dso_networks user)

abbrev pub reason_or : Option Text → Text
reason_or none = text "access denied"
reason_or (some reason) = reason

-- `if not d.allowed: raise HTTPException(403, …)`
unfoldable pub admit : Decision → JwtUser → Result JwtUser
admit d user = if d.allowed then ok user else raise (http 403 (reason_or d.reason))

unfoldable pub require_network_read : Bool → Option Engine → Text → JwtUser → Result JwtUser
require_network_read dev engine network_id user =
    admit (allow_network_read dev engine user network_id) user

unfoldable pub require_alerts_read : Bool → Option Engine → JwtUser → Result JwtUser
require_alerts_read dev engine user = admit (allow_alerts_read dev engine user) user

unfoldable pub require_alerts_write : Bool → Option Engine → JwtUser → Result JwtUser
require_alerts_write dev engine user = admit (allow_alerts_write dev engine user) user
