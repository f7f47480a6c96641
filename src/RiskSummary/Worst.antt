-- ===== src/RiskSummary/Worst.antt =====
-- The worst level of a group.
use celine_grid.Prelude.{
  Text, text_eq, contains, ◌≡◌, ◌≢◌, refl, ◌≤◌, true, List, [], ◌∷◌, All, arith, ltb, if◌then◌else◌,
}
use celine_grid.RiskSummary.{level_rank, worst_from, worst_of}

worse :
    (best l : Text)
    → let m = if ltb (level_rank best) (level_rank l) then l else best in
      (level_rank best ≤ level_rank m) × (level_rank l ≤ level_rank m)
worse best l = ground arith

worst_from_max :
    (best : Text) (levels : List Text)
    → (level_rank best ≤ level_rank (worst_from best levels))
      × All (λ l. level_rank l ≤ level_rank (worst_from best levels)) levels
unfolding worst_from
worst_from_max best [] = (omega arith, tt)
worst_from_max best (l ∷ levels) =
    let (above, rest) =
      worst_from_max (if ltb (level_rank best) (level_rank l) then l else best) levels in
    (omega (arith, (worse best l).0, above), (omega (arith, (worse best l).1, above), rest))

worst_from_mem :
    (best : Text) (levels : List Text) → contains (best ∷ levels) (worst_from best levels) ≡ true
unfolding worst_from
worst_from_mem best [] = ground arith
worst_from_mem best (l ∷ levels) =
    ground (arith, worst_from_mem best levels, worst_from_mem l levels)

-- The worst level of a group that is not empty is one of its levels, and none outranks it.
pub worst_of_max :
    (levels : List Text)
    → levels ≢ []
    → (contains levels (worst_of levels) ≡ true)
      × All (λ l. level_rank l ≤ level_rank (worst_of levels)) levels
unfolding worst_of
worst_of_max [] ne = absurd (ne refl)
worst_of_max (l ∷ levels) ne = (worst_from_mem l levels, worst_from_max l levels)
