-- ===== src/RiskSummary/Checked.antt =====
-- The summaries with what `_num` raises (src/celine/grid/services/risk_summary.py).
use celine_grid.Prelude.{
  ℕ, Text, text, ◌==◌, text_eq, if◌then◌else◌, Bool, true, false, ◌&&◌, ◌||◌, Option, List, [], ◌∷◌,
  ◌≡◌, refl, arith, keep, any, all, Bool-cases, inl, inr,
}
use celine_grid.Values.{Floats, Value, Row, get}
use celine_grid.Models.{Result, ok, raise, ◌>>=◌, overflow_error}
use celine_grid.RiskSummary.{
  num, num_of, equals_text, floor, km_at_or_above, triggers, triggered_vectors,
}
use celine_grid.RiskSummary.Days.{Day, subset, build_days}

-- `any(p(x) for x in xs)` and `[x for x in xs if p(x)]` of a test that can raise.
module _ {A : Type 0} where
  unfoldable pub checked_any : (A → Result Bool) → List A → Result Bool
  checked_any p [] = ok false
  checked_any p (x ∷ xs) = let rest = checked_any p xs in p x >>= λ b. (if b then ok true else rest)

  unfoldable pub checked_keep : (A → Result Bool) → List A → Result (List A)
  checked_keep p [] = ok []
  checked_keep p (x ∷ xs) =
      let rest = checked_keep p xs in p x >>= λ b. (rest >>= λ ys. ok (if b then x ∷ ys else ys))

  checked_any-ok :
      (p : A → Result Bool) (q : A → Bool) (xs : List A)
      → (r : A → Bool) → ((x : A) → r x ≡ true → p x ≡ ok (q x))
      → all r xs ≡ true
      → checked_any p xs ≡ ok (any q xs)
  unfolding checked_any
  checked_any-ok p q [] r h a = refl
  checked_any-ok p q (x ∷ xs) r h a =
      let (first, rest) = both (r x) (all r xs) a in
      rw (h x first, checked_any-ok p q xs r h rest) (lazy (q x))
    where
      both : (a b : Bool) → (a && b) ≡ true → (a ≡ true) × (b ≡ true)
      both a b h = ground arith

      lazy :
          (b : Bool) → (ok b >>= λ c. (if c then ok true else ok (any q xs))) ≡ ok (b || any q xs)
      lazy true = refl
      lazy false = refl

  checked_keep-ok :
      (p : A → Result Bool) (q : A → Bool) (xs : List A)
      → ((x : A) → p x ≡ ok (q x))
      → checked_keep p xs ≡ ok (keep q xs)
  unfolding checked_keep
  checked_keep-ok p q [] h = refl
  checked_keep-ok p q (x ∷ xs) h = rw (h x, checked_keep-ok p q xs h) (kept (q x))
    where
      kept :
          (b : Bool)
          → (ok b >>= λ c. (ok (keep q xs) >>= λ ys. ok (if c then x ∷ ys else ys)))
            ≡ ok (if b then x ∷ keep q xs else keep q xs)
      kept b = refl

module _ (fl : Floats) (repr : Value fl.F → Text) where
  open fl use {F, zero as zero_float, add, lt}

  unfoldable pub checked_km : Row F → Option Text → Result F
  checked_km row threshold = num fl repr (get row (text "km_alert")) >>= λ km.
      (if floor threshold == text "WARNING"
        then (num fl repr (get row (text "km_warning")) >>= λ more. ok (add km more))
        else ok km)

  unfoldable pub checked_triggers : Option Text → Text → Row F → Result Bool
  checked_triggers threshold vector row =
      if equals_text fl repr (get row (text "risk_vector")) vector
      then (checked_km row threshold >>= λ km. ok (lt zero_float km))
      else ok false

  unfoldable pub checked_triggered_vectors :
      List (Row F) → Option Text → List Text → Result (List Text)
  checked_triggered_vectors rows threshold =
      checked_keep (λ vector. checked_any (checked_triggers threshold vector) rows)

  -- `float` takes the value.
  unfoldable pub in_range : Value F → Bool
  in_range v = elim (num fl repr v) [ raise e ↦ false | ok x ↦ true ]

  -- The numbers of a row that the summaries read.
  unfoldable pub is_readable : Row F → Bool
  is_readable row =
      in_range (get row (text "km_alert"))
      && in_range (get row (text "km_warning"))
      && in_range (get row (text "km_total"))

  -- The summaries of a date and a hazard read all three numbers of each of its rows.
  unfoldable pub checked_build_days :
      List (Row F) → List Text → List Text → Option Text → ℕ → Result (List (Day fl repr))
  checked_build_days rows dates vectors threshold top_n =
      if all (λ date. all (λ vector. all is_readable (subset fl repr rows date vector)) vectors)
        dates
      then ok (build_days fl repr rows dates vectors threshold top_n)
      else raise overflow_error

  num-num_of : (v : Value F) → in_range v ≡ true → num fl repr v ≡ ok (num_of fl repr v)
  unfolding in_range num_of
  num-num_of v = go (num fl repr v)
    where
      go :
          (m : Result F)
          → elim m [ raise e ↦ false | ok x ↦ true ] ≡ true
          → m ≡ ok (elim m [ raise e ↦ zero_float | ok x ↦ x ])
      go (raise e) h = cc
      go (ok x) h = refl

  three : (a b c : Bool) → (a && b && c) ≡ true → (a ≡ true) × (b ≡ true)
  three a b c h = ground arith

  checked_km-ok :
      (row : Row F) (threshold : Option Text)
      → is_readable row ≡ true
      → checked_km row threshold ≡ ok (km_at_or_above fl repr row threshold)
  unfolding checked_km km_at_or_above is_readable
  checked_km-ok row threshold h =
      let (alert, warning) = three _ _ _ h in
      rw
        (
          num-num_of (get row (text "km_alert")) alert,
          num-num_of (get row (text "km_warning")) warning,
        )
        (go (floor threshold == text "WARNING") _ _)
    where
      go :
          (b : Bool) (x y : F)
          → (ok x >>= λ km. (if b then (ok y >>= λ more. ok (add km more)) else ok km))
            ≡ ok (if b then add x y else x)
      go true x y = refl
      go false x y = refl

  checked_triggers-ok :
      (threshold : Option Text) (vector : Text) (row : Row F)
      → is_readable row ≡ true
      → checked_triggers threshold vector row ≡ ok (triggers fl repr threshold vector row)
  unfolding checked_triggers
  checked_triggers-ok threshold vector row h =
      elim (Bool-cases (equals_text fl repr (get row (text "risk_vector")) vector)) [
        | inl same ↦ rw (same, checked_km-ok row threshold h) refl
        | inr other ↦ rw other refl
      ]

  -- Where the numbers of the rows are in the range of the floats, nothing is raised.
  pub checked_triggered_vectors-ok :
      (rows : List (Row F)) (threshold : Option Text) (types : List Text)
      → all is_readable rows ≡ true
      → checked_triggered_vectors rows threshold types
        ≡ ok (triggered_vectors fl repr rows threshold types)
  unfolding checked_triggered_vectors triggered_vectors
  checked_triggered_vectors-ok rows threshold types h =
      checked_keep-ok _ _ types
        (λ vector. checked_any-ok _ _ rows is_readable (checked_triggers-ok threshold vector) h)

  all-keep :
      {A : Type 0} (p q : A → Bool) (xs : List A) → all p xs ≡ true → all p (keep q xs) ≡ true
  all-keep p q [] h = refl
  all-keep p q (x ∷ xs) h = ground (arith, all-keep p q xs)

  all_always : {A : Type 0} (p : A → Bool) (xs : List A) → ((x : A) → p x ≡ true) → all p xs ≡ true
  all_always p [] h = refl
  all_always p (x ∷ xs) h = rw (h x) (all_always p xs h)

  pub checked_build_days-ok :
      (rows : List (Row F)) (dates vectors : List Text) (threshold : Option Text) (top_n : ℕ)
      → all is_readable rows ≡ true
      → checked_build_days rows dates vectors threshold top_n
        ≡ ok (build_days fl repr rows dates vectors threshold top_n)
  unfolding checked_build_days subset
  checked_build_days-ok rows dates vectors threshold top_n h =
      rw
        (all_always
          (λ date. all (λ vector. all is_readable (subset fl repr rows date vector)) vectors) dates
          (λ date. all_always _ vectors (λ vector. all-keep is_readable _ rows h)))
        refl
