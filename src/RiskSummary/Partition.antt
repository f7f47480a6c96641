-- ===== src/RiskSummary/Partition.antt =====
-- `summarise` is a partition of its rows.
use mathlib.Core.List.Perm
use celine_grid.Prelude.{ℕ, Text, text_eq, ◌≡◌, refl, ◌∙◌, List, [], ◌∷◌, map, length, sorted-perm}
use celine_grid.Prelude.Groups.{
  Groups, group_by, group_keys, group_sizes, IsGrouping-Distinct, group_by-IsGrouping,
  group_sizes-group_by,
}
use celine_grid.Prelude.Perms.{Distinct, Distinct_perm, sum_by, sum_by_perm}
use celine_grid.Values.{Floats, Value, Row}
use celine_grid.RiskSummary.Summarise.{Summary, summary_of, summary_lt, summarise, key_of}

module _ (fl : Floats) (repr : Value fl.F → Text) where
  abbrev pub summary_key : Summary fl repr → Text
  summary_key u = u.key

  abbrev pub summary_count : Summary fl repr → ℕ
  summary_count u = u.n_tratte

  keys-summaries :
      (key : Text) (gs : Groups (Row fl.F))
      → map summary_key (map (summary_of fl repr key) gs) ≡ group_keys gs
  unfolding summary_of
  keys-summaries key [] = refl
  keys-summaries key ((k, group) ∷ gs) = rw (keys-summaries key gs)

  counts-summaries :
      (key : Text) (gs : Groups (Row fl.F))
      → sum_by summary_count (map (summary_of fl repr key) gs) ≡ group_sizes gs
  unfolding summary_of
  counts-summaries key [] = refl
  counts-summaries key ((k, group) ∷ gs) = rw (counts-summaries key gs)

  -- Whatever the key, the counts of the summaries add up to the number of rows, and the summaries have
  -- distinct keys.
  pub summarise_partition :
      (rows : List (Row fl.F)) (key : Text)
      → (sum_by summary_count (summarise fl repr rows key) ≡ length rows)
        × Distinct (map summary_key (summarise fl repr rows key))
  unfolding summarise
  summarise_partition rows key = (
    sum_by_perm summary_count (sorted-perm (summary_lt fl repr) unsorted)
        ∙ counts-summaries key groups
        ∙ group_sizes-group_by (key_of fl repr key) rows,
    Distinct_perm summary_key (Perm.symm (sorted-perm (summary_lt fl repr) unsorted)) (
        rw keys-summaries
          (IsGrouping-Distinct groups (group_by-IsGrouping (key_of fl repr key) rows))),
  )
    where
      groups : Groups (Row fl.F)
      groups = group_by (key_of fl repr key) rows

      unsorted : List (Summary fl repr)
      unsorted = map (summary_of fl repr key) groups
