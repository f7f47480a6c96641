-- ===== src/Grid.antt =====
-- The proxy of the Digital Twin (src/celine/grid/api/grid.py): its requests, the calls that they make
-- and the features that they answer with.
pub mod Routes
pub mod Features
pub mod Isolation
use celine_grid.Prelude.{
  ℕ, Text, text, ◌==◌, text_eq, contains, ltb, Bool, true, false, not, ◌&&◌, ◌||◌, Option, none,
  some, List, [], ◌∷◌, ◌++◌, keep, any, if◌then◌else◌, String,
}
use celine_grid.Prelude.Int.{ℤ, pos, negsuc}
use celine_grid.Values.{
  Floats, Value, null, boolean, number, integer, string, array, object, Items, Fields, Row, get,
}
use celine_grid.Models.{Error, http}
use celine_grid.RiskSummary.{truthy}

-- A value of a payload.
pub data Argument : Type 0 where
  one_text : Text → Argument
  texts : List Text → Argument
  numbers : List ℤ → Argument

abbrev pub Payload : Type 0
Payload = List (Text × Argument)

abbrev pub Query : Type 0
Query = Option (List Text)

-- A request for a network, with its query.
pub data GridRequest : Type 0 where
  substations_map filters tile_index summary : GridRequest
  -- asset types, tiles
  shapes : Query → Query → GridRequest
  -- tiles
  tree_strike_spans : Query → GridRequest
  -- dates, hazards
  risks : Query → Query → GridRequest
  risks_now : Query → GridRequest
  -- dates, level, hazards, units, lines, substations, least level
  risk_km : List Text → Option Text → Query → Query → Query → Query → Option Text → GridRequest
  -- dates, slots, hazards
  risks_8h : List Text → Option (List ℤ) → Query → GridRequest
  -- from, to, hazards
  trendline : Text → Text → Query → GridRequest

-- The calls of the SDK's client, all of a network.
pub data GridCall : Type 0 where
  call_substations_map call_filters call_tile_index call_summary : GridCall
  call_shapes : Query → Query → GridCall
  call_risks : List Text → Query → GridCall
  call_risks_now : Query → GridCall
  call_trendline : Text → Text → Query → GridCall
  fetch_values : Text → Payload → ℕ → GridCall

-- What a call of the client gives: a result, a `DTApiError` with its status, or another exception.
pub data Answer {ℓ} (B : Type ℓ) : Type ℓ where
  answer : B → Answer B
  api_error : Option ℕ → Answer B
  other_error : Error → Answer B

-- `exc.status_code or 502`
unfoldable pub status_or_502 : Option ℕ → ℕ
status_or_502 none = 502
status_or_502 (some status) = if ltb 0 status then status else 502

unfoldable pub dt_error : Option ℕ → String → Error
dt_error status label = http (status_or_502 status) (text "DT error: " ++ text label)

-- `if values: payload[key] = values`
unfoldable pub with_texts : String → Query → Payload → Payload
with_texts key none payload = payload
with_texts key (some []) payload = payload
with_texts key (some (v ∷ vs)) payload = payload ++ ((text key, texts (v ∷ vs)) ∷ [])

unfoldable pub with_text : String → Option Text → Payload → Payload
with_text key none payload = payload
with_text key (some []) payload = payload
with_text key (some (c ∷ s)) payload = payload ++ ((text key, one_text (c ∷ s)) ∷ [])

unfoldable pub with_numbers : String → Option (List ℤ) → Payload → Payload
with_numbers key none payload = payload
with_numbers key (some []) payload = payload
with_numbers key (some (n ∷ ns)) payload = payload ++ ((text key, numbers (n ∷ ns)) ∷ [])

-- `value < 0 or value > 2`
unfoldable pub bad_slot : ℤ → Bool
bad_slot (pos n) = ltb 2 n
bad_slot (negsuc n) = true

unfoldable pub bad_slots : Option (List ℤ) → Bool
bad_slots none = false
bad_slots (some slots) = any bad_slot slots

abbrev pub matches : List Text → Option Text → Bool
matches allowed none = true
matches allowed (some s) = contains allowed s

abbrev pub levels : List Text
levels = text "tratta" ∷ text "line" ∷ text "unit" ∷ []

abbrev pub min_levels : List Text
min_levels = text "WARNING" ∷ text "ALERT" ∷ []

abbrev dates_missing : List Text → Bool
dates_missing [] = true
dates_missing (d ∷ ds) = false

-- The checks of the query: a request that fails one is answered with 422.
unfoldable pub query_valid : GridRequest → Bool
query_valid (risk_km dates level vectors units lines substations min_level) =
    not (dates_missing dates) && matches levels level && matches min_levels min_level
query_valid (risks_8h dates slots vectors) = not (dates_missing dates)
query_valid _ = true

-- `_to_feature_collection`: `loads` is `json.loads`, `none` for any exception.
module _ (fl : Floats) (repr : Value fl.F → Text) (loads : Text → Option (Value fl.F)) where
  open fl use {F}

  pub record Feature : Type 0 where
    pub geometry : Value F
    pub properties : Row F

  -- `item.pop(key, None)`, of which `get` reads the value.
  unfoldable pub pop : Text → Row F → Row F
  pop key = keep (λ (k, v). not (k == key))

  unfoldable pub member : Text → Fields F → Value F → Value F
  member key Fields.end default = default
  member key (Fields.field k v fields) default =
      let rest = member key fields default in if k == key then v else rest

  -- `parsed.get("geometry", parsed)` of an object, `None` of anything else.
  unfoldable pub geometry_of : Value F → Value F
  geometry_of (object fields) = member (text "geometry") fields (object fields)
  geometry_of _ = null

  -- The document in the column, `none` where there is none that can be read.
  unfoldable pub parsed_of : Value F → Option (Value F)
  parsed_of null = none
  parsed_of (string s) = loads s
  parsed_of (boolean b) = some (boolean b)
  parsed_of (number x) = some (number x)
  parsed_of (integer i) = some (integer i)
  parsed_of (array items) = some (array items)
  parsed_of (object fields) = some (object fields)

  unfoldable pub add_feature : Option (Value F) → Row F → List Feature → List Feature
  add_feature none item features = features
  add_feature (some parsed) item features =
      let geometry = geometry_of parsed in
      if truthy fl repr geometry
      then record { geometry = geometry; properties = item } ∷ features
      else features

  unfoldable pub to_feature_collection : List (Row F) → List Feature
  to_feature_collection [] = []
  to_feature_collection (item ∷ items) =
      add_feature (parsed_of (get item (text "feature_geojson")))
        (pop (text "geom") (pop (text "feature_geojson") item)) (to_feature_collection items)
