-- ===== src/Application.antt =====
-- The application that `create_app` of src/celine/grid/main.py puts together, with the endpoints of
-- src/celine/grid/api and src/celine/grid/routes.py.
pub mod Guard
use celine_grid.Prelude.{Text, text, Bool, List, [], ◌∷◌, ◌++◌, map, if◌then◌else◌, String}
use celine_grid.Models.{Result, ok, raise, ◌>>=◌}
use celine_grid.Access.{Request, middleware}

-- A path is a template: a segment in braces stands for any.
pub record Endpoint : Type 0 where
  pub method : Text
  pub path : Text

abbrev pub endpoint : String → String → Endpoint
endpoint method path = record { method = text method; path = text path }

abbrev pub health : Endpoint
health = endpoint "GET" "/health"

-- `APIRouter(prefix=…)`
abbrev pub with_prefix : String → List Endpoint → List Endpoint
with_prefix prefix = map (λ e. record { method = e.method; path = text prefix ++ e.path })

abbrev pub user_router : List Endpoint
user_router = with_prefix "/api" (endpoint "GET" "/ping" ∷ endpoint "GET" "/me" ∷ [])

abbrev pub alerts_router : List Endpoint
alerts_router = with_prefix "/api" (
    endpoint "GET" "/alert-rules"
    ∷ endpoint "POST" "/alert-rules"
    ∷ endpoint "PATCH" "/alert-rules/{rule_id}"
    ∷ endpoint "DELETE" "/alert-rules/{rule_id}"
    ∷ endpoint "GET" "/notification-settings"
    ∷ endpoint "PUT" "/notification-settings"
    ∷ [])

abbrev pub grid_router : List Endpoint
grid_router = with_prefix "/api/grid/{network_id}" (
    endpoint "GET" "/substations/map"
    ∷ endpoint "GET" "/filters"
    ∷ endpoint "GET" "/tile-index"
    ∷ endpoint "GET" "/shapes"
    ∷ endpoint "GET" "/tree-strike-spans"
    ∷ endpoint "GET" "/risks"
    ∷ endpoint "GET" "/risks-now"
    ∷ endpoint "GET" "/risk-km"
    ∷ endpoint "GET" "/risks-8h"
    ∷ endpoint "GET" "/trendline"
    ∷ endpoint "GET" "/summary"
    ∷ [])

unfoldable pub create_api_router : List Endpoint
create_api_router = user_router ++ alerts_router ++ grid_router

-- What answers a request.
pub data Reached : Type 0 where
  by_cors : Reached
  at : Endpoint → Reached

-- `router` finds the endpoint of a method and a path, or raises; `cors_answers` tells whether
-- CORSMiddleware answers a request itself; `documentation` are the endpoints that FastAPI adds.
module _ (router : List Endpoint → Text → Text → Result Endpoint)
    (cors_answers : Text → Request → Bool) (documentation : List Endpoint) (lower : Text → Text)
    (jwt_header_name : Text) where
  unfoldable pub routed : Text → Request → Result Reached
  routed method r =
      router (documentation ++ (health ∷ create_api_router)) method r.path >>= λ e. ok (at e)

  unfoldable pub behind_gate : Text → Request → Result Reached
  behind_gate method r = if cors_answers method r then ok by_cors else routed method r

  -- The middleware that is added last is the first to see a request.
  unfoldable pub create_app : Text → Request → Result Reached
  create_app method = middleware lower jwt_header_name (behind_gate method)
