-- ===== src/RiskSummary/Report.antt =====
-- The body of a report agrees with itself.
use celine_grid.Prelude.{
  ℕ, suc, zero, Text, text, ◌==◌, text_eq, ◌≡◌, ◌≤◌, refl, ◌∙◌, ap, sym, Bool-cases, inl, inr,
  if◌then◌else◌, true, Option, List, [], ◌∷◌, map, length, take, keep, arith, All,
}
use celine_grid.Values.{Floats, Value, Row, get}
use celine_grid.RiskSummary.{floor, km_at_or_above, num, num_of}
use celine_grid.RiskSummary.Summarise.{Summary}
use celine_grid.RiskSummary.Days.{UnitEntry, LineEntry, line_entry, top_lines_of, summary_row}

module _ (fl : Floats) (repr : Value fl.F → Text) where
  abbrev pub unit_count : UnitEntry fl repr → ℕ
  unit_count u = u.n_tratte

  -- The kilometres of a line of the report at or above the threshold.
  abbrev pub line_km : Option Text → LineEntry fl repr → fl.F
  line_km threshold l =
      if floor threshold == text "WARNING" then fl.add l.km_alert l.km_warning else l.km_alert

  All-take :
      (P : LineEntry fl repr → Type 0) (n : ℕ) (ls : List (LineEntry fl repr))
      → All P ls
      → All P (take n ls)
  All-take P zero ls h = tt
  All-take P (suc n) [] h = tt
  All-take P (suc n) (l ∷ ls) h = (h.0, All-take P n ls h.1)

  length-take-le : (n : ℕ) (ls : List (LineEntry fl repr)) → length (take n ls) ≤ n
  length-take-le zero ls = omega arith
  length-take-le (suc n) [] = omega arith
  length-take-le (suc n) (l ∷ ls) = omega (arith, length-take-le n ls)

  km-summary_row :
      (threshold : Option Text) (u : Summary fl repr)
      → km_at_or_above fl repr (summary_row fl repr u) threshold
        ≡ line_km threshold (line_entry fl repr u)
  unfolding km_at_or_above line_entry get num_of text_eq num
  km-summary_row threshold u = refl

  All-kept :
      (threshold : Option Text) (us : List (Summary fl repr))
      → All
          (λ l. fl.lt fl.zero (line_km threshold l) ≡ true)
          (map (line_entry fl repr) (
            keep
              (λ u. fl.lt fl.zero (km_at_or_above fl repr (summary_row fl repr u) threshold))
              us))
  All-kept threshold [] = tt
  All-kept threshold (u ∷ us) =
      elim (Bool-cases (fl.lt fl.zero (km_at_or_above fl repr (summary_row fl repr u) threshold))) [
        | inl above ↦
            rw above
              (ap (fl.lt fl.zero) (sym (km-summary_row threshold u)) ∙ above, All-kept threshold us)
        | inr below ↦ rw below (All-kept threshold us)
      ]

  -- A report shows `top_n` lines at most, and each has more than zero kilometres at or above the
  -- threshold.
  pub top_lines_of_bounds :
      (rows : List (Row fl.F)) (threshold : Option Text) (top_n : ℕ)
      → (length (top_lines_of fl repr rows threshold top_n) ≤ top_n)
        × All
            (λ l. fl.lt fl.zero (line_km threshold l) ≡ true)
            (top_lines_of fl repr rows threshold top_n)
  unfolding top_lines_of
  top_lines_of_bounds rows threshold top_n =
      (length-take-le top_n _, All-take _ top_n _ (All-kept threshold _))
