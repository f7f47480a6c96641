-- ===== src/RiskSummary/Triggers.antt =====
-- Which hazards trigger.
use celine_grid.Prelude.{
  Text, text, text_eq, contains, ◌≡◌, ◌≢◌, ◌↔◌, refl, Bool, true, Option, some, List, [], ◌∷◌, All,
  any, keep, arith, ◌⊎◌, inl, inr, ◌&&◌, ◌||◌,
}
use celine_grid.Values.{Floats, Value, Row, get, string}
use celine_grid.RiskSummary.{
  floor, km_at_or_above, triggers, triggered_vectors, num_of, equals_text,
}

contains-keep :
    (p : Text → Bool) (xs : List Text) (v : Text) → contains (keep p xs) v ≡ (contains xs v && p v)
contains-keep p [] v = refl
contains-keep p (x ∷ xs) v = ground (arith, contains-keep p xs v)

-- There is a row of which `P` holds.
abbrev pub AnyRow {ℓ} : {A : Type ℓ} → (A → Type 0) → List A → Type 0
AnyRow P [] = ⊥
AnyRow P (r ∷ rows) = P r ⊎ AnyRow P rows

module _ (fl : Floats) (repr : Value fl.F → Text) where
  open fl use {F, zero as zero_float, add, lt, eq}

  abbrev pub km_alert_of : Row F → F
  km_alert_of r = num_of fl repr (get r (text "km_alert"))

  abbrev pub km_warning_of : Row F → F
  km_warning_of r = num_of fl repr (get r (text "km_warning"))

  -- The row is of the hazard, and has kilometres at ALERT, or, if the threshold is the text WARNING,
  -- at ALERT and WARNING together.
  abbrev pub Reaches : Option Text → Text → Row F → Type 0
  Reaches threshold vector r =
      (get r (text "risk_vector") ≡ string vector)
      × ((lt zero_float (km_alert_of r) ≡ true) × (threshold ≢ some (text "WARNING"))
          ⊎ (lt zero_float (add (km_alert_of r) (km_warning_of r)) ≡ true)
            × (threshold ≡ some (text "WARNING")))

  triggers-Reaches :
      (threshold : Option Text) (vector : Text) (r : Row F)
      → (triggers fl repr threshold vector r ≡ true) ↔ Reaches threshold vector r
  unfolding km_at_or_above floor equals_text
  triggers-Reaches threshold vector r = ground arith

  any-Reaches :
      (threshold : Option Text) (vector : Text) (rows : List (Row F))
      → (any (triggers fl repr threshold vector) rows ≡ true)
        ↔ AnyRow (Reaches threshold vector) rows
  any-Reaches threshold vector [] = (λ h. cc, λ h. absurd h)
  any-Reaches threshold vector (r ∷ rows) = ground (
    arith,
    (triggers-Reaches threshold vector r).0,
    (triggers-Reaches threshold vector r).1,
    any-Reaches threshold vector rows,
  )

  pub triggered_vectors_iff :
      (rows : List (Row F)) (threshold : Option Text) (risk_types : List Text) (vector : Text)
      → (contains (triggered_vectors fl repr rows threshold risk_types) vector ≡ true)
        ↔ ((contains risk_types vector ≡ true) × AnyRow (Reaches threshold vector) rows)
  unfolding triggered_vectors
  triggered_vectors_iff rows threshold risk_types vector = ground (
    arith,
    contains-keep (λ v. any (triggers fl repr threshold v) rows) risk_types vector,
    any-Reaches threshold vector rows,
  )

  Reaches-mono :
      (threshold : Option Text) (vector : Text) (r : Row F)
      → ((x y : F)
          → lt zero_float x ≡ true
          → (lt zero_float y || eq y zero_float) ≡ true
          → lt zero_float (add x y) ≡ true)
      → (lt zero_float (km_warning_of r) || eq (km_warning_of r) zero_float) ≡ true
      → Reaches threshold vector r
      → Reaches (some (text "WARNING")) vector r
  Reaches-mono threshold vector r laws pos (hazard, inl (alert, _)) =
      (hazard, inr (laws _ _ alert pos, refl))
  Reaches-mono threshold vector r laws pos (hazard, inr (both, _)) = (hazard, inr (both, refl))

  AnyRow-mono :
      (threshold : Option Text) (vector : Text) (rows : List (Row F))
      → ((x y : F)
          → lt zero_float x ≡ true
          → (lt zero_float y || eq y zero_float) ≡ true
          → lt zero_float (add x y) ≡ true)
      → All (λ r. (lt zero_float (km_warning_of r) || eq (km_warning_of r) zero_float) ≡ true) rows
      → AnyRow (Reaches threshold vector) rows
      → AnyRow (Reaches (some (text "WARNING")) vector) rows
  AnyRow-mono threshold vector [] laws pos h = h
  AnyRow-mono threshold vector (r ∷ rows) laws pos (inl h) =
      inl (Reaches-mono threshold vector r laws pos.0 h)
  AnyRow-mono threshold vector (r ∷ rows) laws pos (inr h) =
      inr (AnyRow-mono threshold vector rows laws pos.1 h)

  -- A threshold is a floor: where the kilometres at WARNING of every row are positive or zero, and a
  -- positive number plus a positive one or zero is positive, every hazard that triggers at some
  -- threshold triggers at WARNING.
  pub triggered_vectors_mono :
      (rows : List (Row F)) (threshold : Option Text) (risk_types : List Text) (vector : Text)
      → ((x y : F)
          → lt zero_float x ≡ true
          → (lt zero_float y || eq y zero_float) ≡ true
          → lt zero_float (add x y) ≡ true)
      → All (λ r. (lt zero_float (km_warning_of r) || eq (km_warning_of r) zero_float) ≡ true) rows
      → contains (triggered_vectors fl repr rows threshold risk_types) vector ≡ true
      → contains (triggered_vectors fl repr rows (some (text "WARNING")) risk_types) vector ≡ true
  triggered_vectors_mono rows threshold risk_types vector laws pos h =
      let found = (triggered_vectors_iff rows threshold risk_types vector).0 h in
      (triggered_vectors_iff rows (some (text "WARNING")) risk_types vector).1
        (found.0, AnyRow-mono threshold vector rows laws pos found.1)
