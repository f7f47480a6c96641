-- ===== src/Grid/Features.antt =====
-- Which rows become features.
use celine_grid.Prelude.{
  true, false, if◌then◌else◌, zero, suc, arith, ◌==◌, Text, text, text_eq, Bool, not, ◌&&◌, Option,
  none, some, List, [], ◌∷◌, ◌≡◌, refl, sym, ap, ◌∙◌, Bool-cases, inl, inr, keep, map,
}
use celine_grid.Prelude.Pointwise.{keep_ext, map_ext}
use celine_grid.Prelude.Int.{pos, negsuc}
use celine_grid.Values.{
  Floats, Value, boolean, number, integer, string, array, object, Items, Fields, Row, get,
}
use celine_grid.RiskSummary.{truthy}
use celine_grid.Grid.{
  Feature, pop, member, geometry_of, parsed_of, add_feature, to_feature_collection,
}

module _ (fl : Floats) (repr : Value fl.F → Text) (loads : Text → Option (Value fl.F)) where
  open fl use {F}

  -- What the rows say, read on its own: the geometry of a wrapped document.
  abbrev pub wrapped : Fields F → Option (Value F)
  wrapped Fields.end = none
  wrapped (Fields.field k v fields) =
      let rest = wrapped fields in if k == text "geometry" then some v else rest

  -- The geometry of a document: the wrapped one, else the object itself.
  abbrev pub inside : Value F → Value F
  inside (object fields) = elim (wrapped fields) [ none ↦ object fields | some g ↦ g ]
  inside _ = Value.null

  abbrev pub inside_document : Option (Value F) → Value F
  inside_document none = Value.null
  inside_document (some document) = inside document

  -- The geometry of a column: of the text of a document, or of a document.
  abbrev pub in_column : Value F → Value F
  in_column (string s) = inside_document (loads s)
  in_column (object fields) = inside (object fields)
  in_column _ = Value.null

  -- Nothing empty, zero or false.
  abbrev pub is_filled : Value F → Bool
  is_filled Value.null = false
  is_filled (boolean b) = b
  is_filled (number x) = fl.nonzero x
  is_filled (integer (pos zero)) = false
  is_filled (integer (pos (suc n))) = true
  is_filled (integer (negsuc n)) = true
  is_filled (string []) = false
  is_filled (string (c ∷ s)) = true
  is_filled (array Items.nil) = false
  is_filled (array (Items.cons v vs)) = true
  is_filled (object Fields.end) = false
  is_filled (object (Fields.field k v fields)) = true

  abbrev pub row_geometry : Row F → Value F
  row_geometry row = in_column (get row (text "feature_geojson"))

  abbrev pub is_usable : Row F → Bool
  is_usable row = is_filled (row_geometry row)

  -- The columns but for the two of the geometry.
  abbrev pub other_columns : Row F → Row F
  other_columns = keep (λ (k, v). not (k == text "feature_geojson") && not (k == text "geom"))

  abbrev pub properties_of : Feature fl repr loads → Row F
  properties_of f = f.properties

  abbrev pub geometry_of_feature : Feature fl repr loads → Value F
  geometry_of_feature f = f.geometry

  pop-pop :
      (row : Row F)
      → pop fl repr loads (text "geom") (pop fl repr loads (text "feature_geojson") row)
        ≡ other_columns row
  unfolding pop
  pop-pop [] = refl
  pop-pop ((k, v) ∷ row) = elim (Bool-cases (k == text "feature_geojson")) [
    | inl raw ↦ rw raw (pop-pop row)
    | inr other ↦ elim (Bool-cases (k == text "geom")) [
      | inl geom ↦ rw (other, geom) (pop-pop row)
      | inr column ↦ rw (other, column) (ap (◌∷◌ (k, v)) (pop-pop row))
    ]
  ]

  -- The features of the rows that name a usable geometry, in their order: each with this geometry, and
  -- with the other columns of its row.
  abbrev pub AreFeatures : List (Row F) → List (Feature fl repr loads) → Type 0
  AreFeatures items features =
      (map properties_of features ≡ map other_columns (keep is_usable items))
      × (map geometry_of_feature features ≡ map row_geometry (keep is_usable items))

  -- The same, as the code reads the rows.
  abbrev geometry_in : Option (Value F) → Value F
  geometry_in none = Value.null
  geometry_in (some parsed) = geometry_of fl repr loads parsed

  abbrev code_geometry : Row F → Value F
  code_geometry row = geometry_in (parsed_of fl repr loads (get row (text "feature_geojson")))

  abbrev code_usable : Row F → Bool
  code_usable row = truthy fl repr (code_geometry row)

  abbrev AreCodeFeatures : List (Row F) → List (Feature fl repr loads) → Type 0
  AreCodeFeatures items features =
      (map properties_of features ≡ map other_columns (keep code_usable items))
      × (map geometry_of_feature features ≡ map code_geometry (keep code_usable items))

  add_feature_lem :
      (parsed : Option (Value F)) (item properties : Row F) (items : List (Row F))
      (features : List (Feature fl repr loads))
      → parsed_of fl repr loads (get item (text "feature_geojson")) ≡ parsed
      → properties ≡ other_columns item
      → AreCodeFeatures items features
      → AreCodeFeatures (item ∷ items) (add_feature fl repr loads parsed properties features)
  unfolding add_feature truthy
  add_feature_lem none item properties items features e p h = rw e h
  add_feature_lem (some parsed) item properties items features e p h =
      elim (Bool-cases (truthy fl repr (geometry_of fl repr loads parsed))) [
        | inl usable ↦
            rw (e, p, usable)
              (
                ap (◌∷◌ (other_columns item)) h.0,
                ap (λ q. geometry_in q ∷ map geometry_of_feature features) (sym e)
                    ∙ ap (◌∷◌ (code_geometry item)) h.1,
              )
        | inr other ↦ rw (e, p, other) h
      ]

  to_feature_collection-AreCodeFeatures :
      (items : List (Row F)) → AreCodeFeatures items (to_feature_collection fl repr loads items)
  unfolding to_feature_collection
  to_feature_collection-AreCodeFeatures [] = (refl, refl)
  to_feature_collection-AreCodeFeatures (item ∷ items) =
      add_feature_lem (parsed_of fl repr loads (get item (text "feature_geojson"))) item _ items
        (to_feature_collection fl repr loads items) refl (pop-pop item)
        (to_feature_collection-AreCodeFeatures items)

  -- The two readings agree.
  member-wrapped :
      (fields : Fields F) (default : Value F)
      → member fl repr loads (text "geometry") fields default
        ≡ elim (wrapped fields) [ none ↦ default | some g ↦ g ]
  unfolding member
  member-wrapped Fields.end default = refl
  member-wrapped (Fields.field k v fields) default = elim (Bool-cases (k == text "geometry")) [
    | inl same ↦ rw same refl
    | inr other ↦ rw other (member-wrapped fields default)
  ]

  geometry_of-inside : (v : Value F) → geometry_of fl repr loads v ≡ inside v
  unfolding geometry_of
  geometry_of-inside Value.null = refl
  geometry_of-inside (boolean b) = refl
  geometry_of-inside (number x) = refl
  geometry_of-inside (integer i) = refl
  geometry_of-inside (string s) = refl
  geometry_of-inside (array items) = refl
  geometry_of-inside (object fields) = member-wrapped fields (object fields)

  geometry_in-inside_document :
      (document : Option (Value F)) → geometry_in document ≡ inside_document document
  geometry_in-inside_document none = refl
  geometry_in-inside_document (some v) = geometry_of-inside v

  column_lem : (v : Value F) → geometry_in (parsed_of fl repr loads v) ≡ in_column v
  unfolding parsed_of geometry_of
  column_lem Value.null = refl
  column_lem (boolean b) = refl
  column_lem (number x) = refl
  column_lem (integer i) = refl
  column_lem (string s) = geometry_in-inside_document (loads s)
  column_lem (array items) = refl
  column_lem (object fields) = member-wrapped fields (object fields)

  truthy-is_filled : (v : Value F) → truthy fl repr v ≡ is_filled v
  unfolding truthy
  truthy-is_filled Value.null = refl
  truthy-is_filled (boolean b) = refl
  truthy-is_filled (number x) = refl
  truthy-is_filled (integer (pos zero)) = refl
  truthy-is_filled (integer (pos (suc n))) = ground arith
  truthy-is_filled (integer (negsuc n)) = refl
  truthy-is_filled (string []) = ground arith
  truthy-is_filled (string (c ∷ s)) = ground arith
  truthy-is_filled (array Items.nil) = refl
  truthy-is_filled (array (Items.cons v vs)) = refl
  truthy-is_filled (object Fields.end) = refl
  truthy-is_filled (object (Fields.field k v fields)) = refl

  geometry_lem : (row : Row F) → code_geometry row ≡ row_geometry row
  geometry_lem row = column_lem (get row (text "feature_geojson"))

  usable_lem : (row : Row F) → code_usable row ≡ is_usable row
  usable_lem row = ap (truthy fl repr) (geometry_lem row) ∙ truthy-is_filled (row_geometry row)

  -- The features are those of the rows that name a usable geometry, in their order: each has this
  -- geometry, and for its properties the other columns of its row. A row names the geometry that its
  -- document wraps, or its document, an object itself; it is usable if it is not empty. A row that
  -- names none, or one that cannot be read, is left out and loses no other.
  pub to_feature_collection-AreFeatures :
      (items : List (Row F)) → AreFeatures items (to_feature_collection fl repr loads items)
  to_feature_collection-AreFeatures items =
      let (properties, geometries) = to_feature_collection-AreCodeFeatures items in
      let kept = keep_ext code_usable is_usable items usable_lem in
      (
        properties ∙ ap (map other_columns) kept,
        geometries
            ∙ ap (map code_geometry) kept
            ∙ map_ext code_geometry row_geometry (keep is_usable items) geometry_lem,
      )
