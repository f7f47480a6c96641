-- ===== src/Grid/Routes.antt =====
-- The routes of the proxy (src/celine/grid/api/grid.py), behind the dependencies of each
-- (src/celine/grid/api/deps.py).
use celine_grid.Prelude.{
  Text, text, Bool, true, false, Option, none, some, List, [], ◌∷◌, if◌then◌else◌, String,
}
use celine_grid.Prelude.Int.{ℤ}
use celine_grid.Values.{Floats, Value, Row}
use celine_grid.Models.{http, Result, ok, raise}
use celine_grid.Identity.{JwtUser}
use celine_grid.Policy.{Engine}
use celine_grid.Access.{
  TokenCheck, Request, require_network_read, middleware, get_user_from_request,
}
use celine_grid.Grid.{
  GridRequest, substations_map, filters, tile_index, summary, shapes, tree_strike_spans, risks,
  risks_now, risk_km, risks_8h, trendline, GridCall, call_substations_map, call_filters,
  call_tile_index, call_summary, call_shapes, call_risks, call_risks_now, call_trendline,
  fetch_values, Answer, answer, api_error, other_error, Query, texts, dt_error, with_texts,
  with_text, with_numbers, bad_slots, query_valid, Feature, to_feature_collection,
}

-- `dates or []`
abbrev pub or_empty : Query → List Text
or_empty none = []
or_empty (some dates) = dates

module _ (fl : Floats) (repr : Value fl.F → Text) (loads : Text → Option (Value fl.F)) where
  -- The client of the Digital Twin: `Body` is what a call gives, and `items` reads the rows of it.
  pub record Client : Type 1 where
    pub World : Type 0
    pub Body : Type 0
    pub items : Body → List (Row fl.F)
    pub call : Text → GridCall → World → Answer Body × World

  module _ (dt : Client) where
    open dt use {World, Body, items, call}

    pub data Content : Type 0 where
      forwarded : Body → Content
      collection : List (Feature fl repr loads) → Content

    -- `cached` tells whether the response may be cached for an hour.
    pub record Reply : Type 0 where
      pub cached : Bool
      pub content : Content

    abbrev pub as_collection : Body → Content
    as_collection body = collection (to_feature_collection fl repr loads (items body))

    -- The response to an answer of the client.
    unfoldable pub forward :
        String → Bool → (Body → Content) → Answer Body × World → Result Reply × World
    forward label cached content (answer body, w) =
        (ok (record { cached = cached; content = content body }), w)
    forward label cached content (api_error status, w) = (raise (dt_error status label), w)
    forward label cached content (other_error e, w) = (raise e, w)

    abbrev pub get_substations_map : Text → World → Result Reply × World
    get_substations_map network w =
        forward "substations_map" false forwarded (call network call_substations_map w)

    abbrev pub get_filters : Text → World → Result Reply × World
    get_filters network w = forward "filters" false forwarded (call network call_filters w)

    abbrev pub get_tile_index : Text → World → Result Reply × World
    get_tile_index network w = forward "tile_index" true forwarded (call network call_tile_index w)

    abbrev pub get_shapes : Text → Query → Query → World → Result Reply × World
    get_shapes network assets tiles w =
        forward "shapes" true as_collection (call network (call_shapes assets tiles) w)

    abbrev pub get_tree_strike_spans : Text → Query → World → Result Reply × World
    get_tree_strike_spans network tiles w =
        let payload = with_texts "tile_ids" tiles [] in
        forward "tree_strike_spans" true as_collection
          (call network (fetch_values (text "tree_strike_spans") payload 5000) w)

    abbrev pub get_risks : Text → Query → Query → World → Result Reply × World
    get_risks network dates vectors w =
        forward "risks" false forwarded (call network (call_risks (or_empty dates) vectors) w)

    abbrev pub get_risks_now : Text → Query → World → Result Reply × World
    get_risks_now network vectors w =
        forward "risks_now" false forwarded (call network (call_risks_now vectors) w)

    abbrev pub get_risk_km :
        Text
        → List Text
        → Option Text
        → Query
        → Query
        → Query
        → Query
        → Option Text
        → World
        → Result Reply × World
    get_risk_km network dates level vectors units lines substations min_level w =
        let payload = with_text "min_level" min_level (
          with_texts "substation_name" substations (
            with_texts "line_name" lines (
              with_texts "operational_unit" units (
                with_texts "risk_vector" vectors
                  (with_text "level" level ((text "dates", texts dates) ∷ [])))))) in
        forward "risk_km" false forwarded
          (call network (fetch_values (text "risk_km") payload 20000) w)

    abbrev pub get_risks_8h :
        Text → List Text → Option (List ℤ) → Query → World → Result Reply × World
    get_risks_8h network dates slots vectors w =
        let payload =
          with_texts "risk_vector" vectors
            (with_numbers "slots" slots ((text "dates", texts dates) ∷ [])) in
        elim (bad_slots slots) [
          | true ↦ (raise (http 422 (text "slot must be 0, 1 or 2")), w)
          | false ↦
              forward "risks_8h" false forwarded
                (call network (fetch_values (text "risks_8h") payload 30000) w)
        ]

    abbrev pub get_trendline : Text → Text → Text → Query → World → Result Reply × World
    get_trendline network from to vectors w =
        forward "trendline" false forwarded (call network (call_trendline from to vectors) w)

    abbrev pub get_summary : Text → World → Result Reply × World
    get_summary network w = forward "summary" false forwarded (call network call_summary w)

    -- The routes of the router.
    unfoldable pub handle : Text → GridRequest → World → Result Reply × World
    handle network substations_map w = get_substations_map network w
    handle network filters w = get_filters network w
    handle network tile_index w = get_tile_index network w
    handle network (shapes assets tiles) w = get_shapes network assets tiles w
    handle network (tree_strike_spans tiles) w = get_tree_strike_spans network tiles w
    handle network (risks dates vectors) w = get_risks network dates vectors w
    handle network (risks_now vectors) w = get_risks_now network vectors w
    handle network (risk_km dates level vectors units lines substations min_level) w =
        get_risk_km network dates level vectors units lines substations min_level w
    handle network (risks_8h dates slots vectors) w = get_risks_8h network dates slots vectors w
    handle network (trendline from to vectors) w = get_trendline network from to vectors w
    handle network summary w = get_summary network w

    -- `configured` tells whether there is a URL of the Digital Twin.
    unfoldable pub handle_valid : Bool → Text → GridRequest → World → Result Reply × World
    handle_valid configured network request w =
        if configured
        then (if query_valid request then handle network request w else (raise (http 422 []), w))
        else (raise (http 503 (text "Digital Twin API not configured")), w)

    unfoldable pub handle_admitted :
        Result JwtUser → Bool → Text → GridRequest → World → Result Reply × World
    handle_admitted (raise e) configured network request w = (raise e, w)
    handle_admitted (ok user) configured network request w =
        handle_valid configured network request w

    -- From the token to the response: `NetworkReadDep`, then `DTDep`, the query, and the route.
    unfoldable pub serve_user :
        Bool
        → Option Engine
        → Result JwtUser
        → Bool
        → Text
        → GridRequest
        → World
        → Result Reply × World
    serve_user dev engine (raise e) configured network request w = (raise e, w)
    serve_user dev engine (ok user) configured network request w =
        handle_admitted (require_network_read dev engine network user) configured network request w

    module _ (lower : Text → Text) (jwt_header_name : Text) (from_token : Text → TokenCheck) where
      -- The application with the proxy's route for `request`: the gate, the caller, the route.
      unfoldable pub serve :
          Bool → Option Engine → Request → Bool → Text → GridRequest → World → Result Reply × World
      serve dev engine r configured network request w =
          serve_user dev engine
            (middleware lower jwt_header_name
              (get_user_from_request lower jwt_header_name from_token) r)
            configured network request w
