-- ===== src/Grid/Isolation.antt =====
-- Which calls of the Digital Twin a request can make.
use celine_grid.Prelude.{
  Text, text_eq, Bool, true, false, Option, some, List, [], ◌∷◌, ◌++◌, ◌≡◌, refl, ◌⊎◌, inl, inr,
  arith, Bool-cases, String,
}
use celine_grid.Values.{Floats, Value}
use celine_grid.Models.{Result, ok, raise}
use celine_grid.Identity.{JwtUser}
use celine_grid.Policy.{grid_rego}
use celine_grid.Access.{
  TokenCheck, Request, admit, require_network_read, middleware, get_user_from_request,
}
use celine_grid.Access.Ownership.{may_read, require_network_read_iff}
use celine_grid.Grid.{
  GridRequest, substations_map, filters, tile_index, summary, shapes, tree_strike_spans, risks,
  risks_now, risk_km, risks_8h, trendline, GridCall, Answer, answer, api_error, other_error,
  query_valid, bad_slots,
}
use celine_grid.Grid.Routes.{
  get_risks_8h, Client, Content, Reply, forward, handle, handle_valid, handle_admitted, serve_user,
  serve,
}

module _ (fl : Floats) (repr : Value fl.F → Text) (loads : Text → Option (Value fl.F)) where
  abbrev pub Calls : Type 0
  Calls = List (Text × GridCall)

  -- The same client, with a log of the calls and their networks.
  abbrev pub logged : Client fl repr loads → Client fl repr loads
  logged dt = record {
    World = dt.World × Calls;
    Body = dt.Body;
    items = dt.items;
    call =
        λ network c w. let (a, w') = dt.call network c w.0 in (a, (w', w.1 ++ ((network, c) ∷ [])));
  }

  module _ (dt : Client fl repr loads) where
    abbrev pub Out : Type 0
    Out = Result (Reply fl repr loads (logged dt)) × (dt.World × Calls)

    -- Nothing was called, or one thing, for this network.
    abbrev pub CallsOne : Text → dt.World × Calls → Out → Type 0
    CallsOne network w out = (out.1 ≡ w) ⊎ (c : GridCall) × (out.1.1 ≡ w.1 ++ ((network, c) ∷ []))

    forward-world :
        (label : String) (cached : Bool) (content : dt.Body → Content fl repr loads (logged dt))
        (a : Answer dt.Body) (w : dt.World × Calls)
        → (forward fl repr loads (logged dt) label cached content (a, w)).1 ≡ w
    unfolding forward
    forward-world label cached content (answer body) w = refl
    forward-world label cached content (api_error status) w = refl
    forward-world label cached content (other_error e) w = refl

    one_call :
        (label : String) (cached : Bool) (content : dt.Body → Content fl repr loads (logged dt))
        (network : Text) (c : GridCall) (w : dt.World × Calls)
        → CallsOne network w (
            forward fl repr loads
              (logged dt)
              label
              cached
              content
              (let client = logged dt in client.call network c w))
    one_call label cached content network c w = inr (c, rw forward-world refl)

    handle-CallsOne :
        (network : Text) (request : GridRequest) (w : dt.World × Calls)
        → CallsOne network w (handle fl repr loads (logged dt) network request w)
    unfolding handle
    handle-CallsOne network substations_map w = one_call _ _ _ network _ w
    handle-CallsOne network filters w = one_call _ _ _ network _ w
    handle-CallsOne network tile_index w = one_call _ _ _ network _ w
    handle-CallsOne network summary w = one_call _ _ _ network _ w
    handle-CallsOne network (shapes assets tiles) w = one_call _ _ _ network _ w
    handle-CallsOne network (tree_strike_spans tiles) w = one_call _ _ _ network _ w
    handle-CallsOne network (risks dates vectors) w = one_call _ _ _ network _ w
    handle-CallsOne network (risks_now vectors) w = one_call _ _ _ network _ w
    handle-CallsOne network (risk_km dates level vectors units lines substations min_level) w =
        one_call _ _ _ network _ w
    handle-CallsOne network (risks_8h dates slots vectors) w = elim (Bool-cases (bad_slots slots)) [
      | inl bad ↦ rw (bad, get_risks_8h) (inl refl)
      | inr good ↦ rw (good, get_risks_8h) (one_call _ _ _ network _ w)
    ]
    handle-CallsOne network (trendline from to vectors) w = one_call _ _ _ network _ w

    handle_valid-CallsOne :
        (configured : Bool) (network : Text) (request : GridRequest) (w : dt.World × Calls)
        → CallsOne network w (handle_valid fl repr loads (logged dt) configured network request w)
    unfolding handle_valid
    handle_valid-CallsOne false network request w = inl refl
    handle_valid-CallsOne true network request w = elim (Bool-cases (query_valid request)) [
      | inl valid ↦ rw valid (handle-CallsOne network request w)
      | inr bad ↦ rw bad (inl refl)
    ]

    -- Nothing was called, or one thing, for this network and a caller that may read it.
    abbrev pub IsGuarded : Result JwtUser → Text → dt.World × Calls → Out → Type 0
    IsGuarded caller network w out =
        (out.1 ≡ w)
        ⊎ ((user : JwtUser) × (caller ≡ ok user)
            × (may_read user network ≡ true)
            × (c : GridCall) × (out.1.1 ≡ w.1 ++ ((network, c) ∷ [])))

    guarded :
        (caller : Result JwtUser) (user : JwtUser) (network : Text) (w : dt.World × Calls)
        (out : Out)
        → caller ≡ ok user
        → may_read user network ≡ true
        → CallsOne network w out
        → IsGuarded caller network w out
    guarded caller user network w out e m (inl same) = inl same
    guarded caller user network w out e m (inr (c, f)) = inr (user, e, m, c, f)

    admitted :
        (dev : Bool) (user : JwtUser) (network : Text) (v : JwtUser)
        → require_network_read dev (some grid_rego) network user ≡ ok v
        → may_read user network ≡ true
    unfolding require_network_read admit
    admitted dev user network v e = (require_network_read_iff dev user network).0 (ground arith)

    handle_admitted-IsGuarded :
        (caller : Result JwtUser) (dev : Bool) (user : JwtUser) (checked : Result JwtUser)
        (configured : Bool) (network : Text) (request : GridRequest) (w : dt.World × Calls)
        → caller ≡ ok user
        → require_network_read dev (some grid_rego) network user ≡ checked
        → IsGuarded caller network w
            (handle_admitted fl repr loads (logged dt) checked configured network request w)
    unfolding handle_admitted
    handle_admitted-IsGuarded caller dev user (raise x) configured network request w e f = inl refl
    handle_admitted-IsGuarded caller dev user (ok v) configured network request w e f =
        guarded caller user network w
          (handle_valid fl repr loads (logged dt) configured network request w) e
          (admitted dev user network v f) (handle_valid-CallsOne configured network request w)

    serve_user-IsGuarded :
        (caller passed : Result JwtUser) (dev : Bool) (configured : Bool) (network : Text)
        (request : GridRequest) (w : dt.World × Calls)
        → ((user : JwtUser) → passed ≡ ok user → caller ≡ ok user)
        → IsGuarded caller network w (
            serve_user fl repr loads
              (logged dt)
              dev
              (some grid_rego)
              passed
              configured
              network
              request
              w)
    unfolding serve_user
    serve_user-IsGuarded caller (raise x) dev configured network request w h = inl refl
    serve_user-IsGuarded caller (ok user) dev configured network request w h =
        handle_admitted-IsGuarded caller dev user _ configured network request w (h user refl) refl

    module _ (lower : Text → Text) (jwt_header_name : Text) (from_token : Text → TokenCheck) where
      passes :
          (next : Request → Result JwtUser) (r : Request) (user : JwtUser)
          → middleware lower jwt_header_name next r ≡ ok user
          → next r ≡ ok user
      unfolding middleware
      passes next r user e = ground arith

      -- Under the rules of the bundle, whatever the request, the Digital Twin is called once at most,
      -- only for the network of the path, and only if the token of the request is that of a caller who
      -- may read this network; in any other case its world is left as it was.
      pub serve-IsGuarded :
          (dev : Bool) (r : Request) (configured : Bool) (network : Text) (request : GridRequest)
          (w : dt.World × Calls)
          → IsGuarded (get_user_from_request lower jwt_header_name from_token r) network w (
              serve fl repr loads
                (logged dt)
                lower
                jwt_header_name
                from_token
                dev
                (some grid_rego)
                r
                configured
                network
                request
                w)
      unfolding serve
      serve-IsGuarded dev r configured network request w =
          serve_user-IsGuarded _ _ dev configured network request w
            (passes (get_user_from_request lower jwt_header_name from_token) r)
