-- ===== src/Tests/Grid.antt =====
-- Requests of the proxy, and rows with and without a geometry.
use celine_grid.Prelude.{
  ℕ, Text, text, text_eq, ◌==◌, ◌≡◌, refl, true, false, if◌then◌else◌, Option, none, some, List, [],
  ◌∷◌,
}
use celine_grid.Values.{Value, null, number, string, object, Fields, Row, get}
use celine_grid.Policy.{grid_rego}
use celine_grid.Access.{TokenCheck, accepted, invalid, get_user_from_request}
use celine_grid.RiskSummary.{truthy}
use celine_grid.Grid.{
  risks, answer, pop, member, geometry_of, parsed_of, add_feature, to_feature_collection,
}
use celine_grid.Grid.Features.{AreFeatures, to_feature_collection-AreFeatures}
use celine_grid.Grid.Routes.{Client, serve}
use celine_grid.Grid.Isolation.{logged, IsGuarded, serve-IsGuarded}
use celine_grid.Tests.Data.{Whole, wholes, no_repr, natural, ascii_lower, rows}
use celine_grid.Tests.Access.{member_of_a, request}

abbrev loads : Text → Option (Value Whole)
loads s = if s == text "1" then some (number (natural 1)) else none

abbrev point : Value Whole
point = object (Fields.field (text "type") (string (text "Point")) Fields.end)

-- A bare geometry, a text that is no JSON, a document that is no object, and no geometry.
abbrev assets : List (Row Whole)
assets =
    ((text "id", string (text "a")) ∷ (text "feature_geojson", point) ∷ (text "geom", null) ∷ [])
    ∷ ((text "id", string (text "b")) ∷ (text "feature_geojson", string (text "{")) ∷ [])
    ∷ ((text "feature_geojson", string (text "1")) ∷ [])
    ∷ ((text "id", string (text "c")) ∷ [])
    ∷ []

features :
    to_feature_collection wholes no_repr loads assets
    ≡ record { geometry = point; properties = (text "id", string (text "a")) ∷ [] } ∷ []
unfolding to_feature_collection add_feature parsed_of geometry_of member pop truthy get text_eq
features = refl

to_feature_collection-AreFeatures_example :
    AreFeatures wholes no_repr loads assets (to_feature_collection wholes no_repr loads assets)
to_feature_collection-AreFeatures_example =
    to_feature_collection-AreFeatures wholes no_repr loads assets

abbrev twin : Client wholes no_repr loads
twin = record { World = ℕ; Body = ℕ; items = λ b. rows; call = λ network c w. (answer w, w) }

abbrev pub from_token : Text → TokenCheck
from_token token =
    if token == text "abc" then accepted member_of_a else invalid (text "Not enough segments")

serve-IsGuarded_example :
    IsGuarded wholes no_repr loads twin
      (get_user_from_request ascii_lower (text "x-auth") from_token request)
      (text "net-a")
      (0, [])
      (serve wholes no_repr loads
        (logged wholes no_repr loads twin)
        ascii_lower
        (text "x-auth")
        from_token
        false
        (some grid_rego)
        request
        true
        (text "net-a")
        (risks none none)
        (0, []))
serve-IsGuarded_example =
    serve-IsGuarded wholes no_repr loads twin ascii_lower (text "x-auth") from_token false request
      true (text "net-a") (risks none none) (0, [])
