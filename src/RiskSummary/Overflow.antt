-- ===== src/RiskSummary/Overflow.antt =====
-- What the hazards that trigger are, with the exception of `_num`.
use celine_grid.Prelude.{
  Text, text, ◌==◌, text_eq, contains, if◌then◌else◌, Bool, true, false, ◌||◌, Option, none, some,
  List, [], ◌∷◌, ◌≡◌, ◌↔◌, ◌⊎◌, refl, keep, any, all, Bool-cases, inl, inr,
}
use celine_grid.Prelude.Int.{ℤ}
use celine_grid.Values.{
  Floats, Value, null, boolean, number, integer, string, array, object, Row, get,
}
use celine_grid.Models.{Result, ok, raise, ◌>>=◌, overflow_error}
use celine_grid.RiskSummary.{
  num, num_of, equals_text, floor, km_at_or_above, triggers, triggered_vectors,
}
use celine_grid.RiskSummary.Checked.{
  checked_any, checked_keep, checked_km, checked_triggers, checked_triggered_vectors, is_readable,
  checked_triggered_vectors-ok,
}
use celine_grid.RiskSummary.Triggers.{AnyRow, Reaches, triggered_vectors_iff}

-- The value, or the exception.
abbrev IsSound : {A : Type 0} → Result A → A → Type 0
IsSound m a = (m ≡ ok a) ⊎ (m ≡ raise overflow_error)

bind-IsSound :
    {A B : Type 0} (m : Result A) (f : A → Result B) (a : A) (b : B)
    → IsSound m a
    → IsSound (f a) b
    → IsSound (m >>= f) b
bind-IsSound m f a b (inl e) h = rw e h
bind-IsSound m f a b (inr e) h = rw e (inr refl)

module _ {A : Type 0} (p : A → Result Bool) (q : A → Bool) (h : (x : A) → IsSound (p x) (q x)) where
  any_rest :
      (b : Bool) (rest : Result Bool) (c : Bool)
      → IsSound rest c
      → IsSound (if b then ok true else rest) (b || c)
  any_rest true rest c s = inl refl
  any_rest false rest c s = s

  checked_any-IsSound : (xs : List A) → IsSound (checked_any p xs) (any q xs)
  unfolding checked_any
  checked_any-IsSound [] = inl refl
  checked_any-IsSound (x ∷ xs) =
      bind-IsSound (p x) (λ b. (if b then ok true else checked_any p xs)) (q x) _ (h x)
        (any_rest (q x) (checked_any p xs) (any q xs) (checked_any-IsSound xs))

  checked_keep-IsSound : (xs : List A) → IsSound (checked_keep p xs) (keep q xs)
  unfolding checked_keep
  checked_keep-IsSound [] = inl refl
  checked_keep-IsSound (x ∷ xs) =
      bind-IsSound (p x) (λ b. (checked_keep p xs >>= λ ys. ok (if b then x ∷ ys else ys))) (q x) _
        (h x)
        (bind-IsSound (checked_keep p xs) (λ ys. ok (if q x then x ∷ ys else ys)) (keep q xs) _
          (checked_keep-IsSound xs) (inl refl))

module _ (fl : Floats) (repr : Value fl.F → Text) where
  open fl use {F, zero as zero_float, add, lt, of_int}

  integer-IsSound : (i : ℤ) → IsSound (num fl repr (integer i)) (num_of fl repr (integer i))
  unfolding num num_of
  integer-IsSound i = go (of_int i)
    where
      go :
          (x : Option F)
          → let m : Result F = elim x [ none ↦ raise overflow_error | some y ↦ ok y ] in
            IsSound m (elim m [ raise e ↦ zero_float | ok y ↦ y ])
      go none = inr refl
      go (some y) = inl refl

  num-IsSound : (v : Value F) → IsSound (num fl repr v) (num_of fl repr v)
  unfolding num num_of
  num-IsSound null = inl refl
  num-IsSound (boolean b) = inl refl
  num-IsSound (number x) = inl refl
  num-IsSound (integer i) = integer-IsSound i
  num-IsSound (string s) = inl refl
  num-IsSound (array items) = inl refl
  num-IsSound (object fields) = inl refl

  checked_km-IsSound :
      (row : Row F) (threshold : Option Text)
      → IsSound (checked_km fl repr row threshold) (km_at_or_above fl repr row threshold)
  unfolding checked_km km_at_or_above
  checked_km-IsSound row threshold =
      bind-IsSound _ _ _ _ (num-IsSound (get row (text "km_alert")))
        (elim (Bool-cases (floor threshold == text "WARNING")) [
          | inl warning ↦
              rw warning
                (bind-IsSound _ _ _ _ (num-IsSound (get row (text "km_warning"))) (inl refl))
          | inr alert ↦ rw alert (inl refl)
        ])

  checked_triggers-IsSound :
      (threshold : Option Text) (vector : Text) (row : Row F)
      → IsSound
          (checked_triggers fl repr threshold vector row)
          (triggers fl repr threshold vector row)
  unfolding checked_triggers
  checked_triggers-IsSound threshold vector row =
      elim (Bool-cases (equals_text fl repr (get row (text "risk_vector")) vector)) [
        | inl same ↦ rw same (bind-IsSound _ _ _ _ (checked_km-IsSound row threshold) (inl refl))
        | inr other ↦ rw other (inl refl)
      ]

  checked_triggered_vectors-IsSound :
      (rows : List (Row F)) (threshold : Option Text) (types : List Text)
      → IsSound
          (checked_triggered_vectors fl repr rows threshold types)
          (triggered_vectors fl repr rows threshold types)
  unfolding checked_triggered_vectors triggered_vectors
  checked_triggered_vectors-IsSound rows threshold types =
      checked_keep-IsSound _ _
        (λ vector. checked_any-IsSound _ _ (checked_triggers-IsSound threshold vector) rows) types

  -- The hazards that were asked for, those with a row that reaches the threshold; or an
  -- OverflowError, and some row has kilometres that `float` does not take.
  abbrev pub IsTriggered : List (Row F) → Option Text → List Text → Result (List Text) → Type 0
  IsTriggered rows threshold types out =
      ((found : List Text) × (out ≡ ok found)
        × ((vector : Text)
            → (contains found vector ≡ true)
              ↔ ((contains types vector ≡ true) × AnyRow (Reaches fl repr threshold vector) rows)))
      ⊎ (out ≡ raise overflow_error) × (all (is_readable fl repr) rows ≡ false)

  -- Of any rows, `triggered_vectors` gives exactly the hazards that it was asked for and that some row
  -- reaches the threshold of; or it raises an OverflowError, which it does only where some row has
  -- kilometres that `float` does not take.
  pub checked_triggered_vectors-IsTriggered :
      (rows : List (Row F)) (threshold : Option Text) (types : List Text)
      → IsTriggered rows threshold types (checked_triggered_vectors fl repr rows threshold types)
  checked_triggered_vectors-IsTriggered rows threshold types =
      elim (Bool-cases (all (is_readable fl repr) rows)) [
        | inl readable ↦
            returned (checked_triggered_vectors-ok fl repr rows threshold types readable)
        | inr beyond ↦ elim (checked_triggered_vectors-IsSound rows threshold types) [
          | inl e ↦ returned e
          | inr e ↦ inr (e, beyond)
        ]
      ]
    where
      returned :
          checked_triggered_vectors fl repr rows threshold types
            ≡ ok (triggered_vectors fl repr rows threshold types)
          → IsTriggered rows threshold types
              (checked_triggered_vectors fl repr rows threshold types)
      returned e = inl (_, e, λ vector. triggered_vectors_iff fl repr rows threshold types vector)
