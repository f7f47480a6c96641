-- ===== src/User/Ranking.antt =====
-- The entries of the header, sorted: the first of them that names a language.
use celine_grid.Prelude.{
  ℕ, Text, text_lt, text_lt-IsStrictOrder, ltb, eqb, Bool, true, false, Option, none, some, List,
  [], ◌∷◌, ◌⊎◌, inl, inr, ◌≡◌, refl, arith, IsStrictOrderOn, IsSorted, sorted, sorted-IsSorted_on,
  All-sorted, All-of_sorted, All, In, In-sorted, Bool-cases,
}
use celine_grid.Values.{Floats}
use celine_grid.Values.Order.{first_of_pair, IsNumber, IsOrdered, pair_lt-IsStrictOrderOn}
use celine_grid.User.{Entry, entry_lt, first_primary, primary_subtag}

module _ (lower : Text → Text) (is_alpha : ℕ → Bool) (fl : Floats) (o : IsOrdered fl) where
  abbrev pub Ranked : Type 0
  Ranked = Entry lower is_alpha fl

  abbrev pub less : Ranked → Ranked → Bool
  less = entry_lt lower is_alpha fl

  abbrev pub primary : Ranked → Option Text
  primary e = primary_subtag lower is_alpha e.tag

  abbrev pub HasRank : Ranked → Type 0
  HasRank e = IsNumber fl e.rank

  -- By place, then by tag.
  place_lt : Ranked → Ranked → Bool
  place_lt a b = first_of_pair (eqb a.index b.index) (ltb a.index b.index) (text_lt a.tag b.tag)

  place_lt-asym : (a b : Ranked) → place_lt a b ≡ true → place_lt b a ≡ false
  unfolding place_lt
  place_lt-asym a b h = ground (arith, text_lt-IsStrictOrder.asym a.tag b.tag)

  place_lt-neg_trans :
      (a b c : Ranked) → place_lt b a ≡ false → place_lt c b ≡ false → place_lt c a ≡ false
  unfolding place_lt
  place_lt-neg_trans a b c h k = ground (arith, text_lt-IsStrictOrder.neg_trans a.tag b.tag c.tag)

  less-IsStrictOrderOn : IsStrictOrderOn HasRank less
  unfolding entry_lt place_lt
  less-IsStrictOrderOn =
      pair_lt-IsStrictOrderOn fl o (λ e. e.rank) place_lt
        (record { asym = place_lt-asym; neg_trans = place_lt-neg_trans })

  -- `x` names no language, or does not come before `e`.
  abbrev pub Behind : Ranked → Ranked → Type 0
  Behind e x = (primary x ≡ none) ⊎ (less x e ≡ false)

  -- What the first entry with a language is among all of them.
  abbrev pub IsFirst : List Ranked → Option Text → Type 0
  IsFirst entries none = All (λ x. primary x ≡ none) entries
  IsFirst entries (some l) =
      (e : Ranked) × In e entries × (primary e ≡ some l) × All (Behind e) entries

  irrefl : (e : Ranked) → HasRank e → less e e ≡ false
  irrefl e h = elim (Bool-cases (less e e)) [
    | inl smaller ↦ less-IsStrictOrderOn.asym_on e e h h smaller
    | inr other ↦ other
  ]

  All-Behind : (e : Ranked) (es : List Ranked) → All (λ x. less x e ≡ false) es → All (Behind e) es
  All-Behind e [] h = tt
  All-Behind e (x ∷ es) h = (inr h.0, All-Behind e es h.1)

  IsFirst-cons :
      (e : Ranked) (es : List Ranked) (p : Option Text)
      → primary e ≡ none
      → IsFirst es p
      → IsFirst (e ∷ es) p
  IsFirst-cons e es none n h = (n, h)
  IsFirst-cons e es (some l) n (f, m, q, behind) = (f, inr m, q, (inl n, behind))

  first_primary-IsFirst :
      (es : List Ranked)
      → All HasRank es
      → IsSorted less es
      → IsFirst es (first_primary lower is_alpha fl es)
  unfolding first_primary
  first_primary-IsFirst [] ps s = tt
  first_primary-IsFirst (e ∷ es) ps s = go (primary e) refl (first_primary-IsFirst es ps.1 s.1)
    where
      go :
          (p : Option Text)
          → primary e ≡ p
          → IsFirst es (first_primary lower is_alpha fl es)
          → IsFirst
              (e ∷ es)
              (elim p [ none ↦ first_primary lower is_alpha fl es | some l ↦ some l ])
      go none n h = IsFirst-cons e es (first_primary lower is_alpha fl es) n h
      go (some l) n h = (e, inl refl, n, (inr (irrefl e ps.0), All-Behind e es s.0))

  pub IsFirst-sorted :
      (es : List Ranked)
      → All HasRank es
      → IsFirst es (first_primary lower is_alpha fl (sorted less es))
  IsFirst-sorted es ps = among (first_primary lower is_alpha fl (sorted less es)) (
      first_primary-IsFirst (sorted less es) (All-sorted less HasRank es ps)
        (sorted-IsSorted_on less HasRank less-IsStrictOrderOn es ps))
    where
      among : (p : Option Text) → IsFirst (sorted less es) p → IsFirst es p
      among none h = All-of_sorted less (λ x. primary x ≡ none) es h
      among (some l) (e, m, q, behind) =
          (e, In-sorted less e es m, q, All-of_sorted less (Behind e) es behind)
