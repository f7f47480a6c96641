-- ===== src/User/Locale.antt =====
-- The language that a header asks for, in the order of the header.
use celine_grid.Prelude.{
  ℕ, suc, ◌≤◌, Text, Bool, true, false, Option, none, some, List, [], ◌∷◌, ◌++◌, ◌⊎◌, inl, inr, ◌≡◌,
  refl, not, ◌&&◌, arith, All, Bool-cases, if◌then◌else◌,
}
use celine_grid.Values.{Floats}
use celine_grid.Values.Order.{IsNumber, IsOrdered}
use celine_grid.User.{entry_lt, tag_of, quality_of, is_ranked, ranked_from, primary_subtag}
use celine_grid.User.Ranking.{Ranked, HasRank, Behind}

-- Of the sign and of NaN: a number turns the order around, and only numbers are above zero.
pub record HasSigns (fl : Floats) : Type 0 where
  pub neg-IsNumber : (x : fl.F) → IsNumber fl x → IsNumber fl (fl.neg x)
  pub lt-neg :
      (x y : fl.F) → IsNumber fl x → IsNumber fl y → fl.lt (fl.neg x) (fl.neg y) ≡ fl.lt y x
  pub lt-IsNumber : (x : fl.F) → fl.lt fl.zero x ≡ true → IsNumber fl x

module _ (lower : Text → Text) (is_alpha : ℕ → Bool) (fl : Floats) where
  open fl use {F, lt, neg}

  abbrev pub quality : Text → F
  quality = quality_of lower is_alpha fl

  -- The language of an entry, if it has one and is not refused by its quality.
  abbrev pub language : Text → Option Text
  language part =
      if is_ranked lower is_alpha fl part
      then primary_subtag lower is_alpha (tag_of lower is_alpha fl part)
      else none

  abbrev pub IsBelow : F → Text → Type 0
  IsBelow q part = (language part ≡ none) ⊎ (lt (quality part) q ≡ true)

  abbrev pub IsNotAbove : F → Text → Type 0
  IsNotAbove q part = (language part ≡ none) ⊎ (lt q (quality part) ≡ false)

  -- The language of the first of the entries of the highest quality, of those that have a language.
  abbrev pub IsPreferred : List Text → Option Text → Type 0
  IsPreferred parts none = All (λ p. language p ≡ none) parts
  IsPreferred parts (some l) =
      (earlier : List Text) × (part : Text) × (later : List Text) × (parts
        ≡ earlier ++ part ∷ later)
      × (language part ≡ some l)
      × All (IsBelow (quality part)) earlier
      × All (IsNotAbove (quality part)) later

  module _ (o : IsOrdered fl) (signs : HasSigns fl) where
    abbrev pub entry : ℕ → Text → Ranked lower is_alpha fl o
    entry index part = record {
      rank = neg (quality part);
      index = index;
      tag = tag_of lower is_alpha fl part;
    }

    pub ranked-IsNumber :
        (part : Text) → is_ranked lower is_alpha fl part ≡ true → IsNumber fl (quality part)
    unfolding is_ranked
    ranked-IsNumber part h = signs.lt-IsNumber (quality part) (ground arith)

    pub ranked_from-HasRank :
        (i : ℕ) (parts : List Text)
        → All (HasRank lower is_alpha fl o) (ranked_from lower is_alpha fl i parts)
    unfolding ranked_from
    ranked_from-HasRank i [] = tt
    ranked_from-HasRank i (part ∷ parts) = elim (Bool-cases (is_ranked lower is_alpha fl part)) [
      | inl ranked ↦ rw ranked (
        signs.neg-IsNumber (quality part) (ranked-IsNumber part ranked),
        ranked_from-HasRank (suc i) parts,
      )
      | inr other ↦ rw other (ranked_from-HasRank (suc i) parts)
    ]

    -- The order of two ranks by that of the qualities.
    rank_eq :
        (x y : F)
        → IsNumber fl x
        → IsNumber fl y
        → fl.eq (neg x) (neg y) ≡ (not (lt y x) && not (lt x y))
    rank_eq x y p q =
        rw
          (
            o.eq_lem (neg x) (neg y) (signs.neg-IsNumber x p) (signs.neg-IsNumber y q),
            signs.lt-neg x y p q,
            signs.lt-neg y x q p,
          )
          refl

    -- An earlier entry that is behind has a lower quality.
    pub Behind-IsBelow :
        (i : ℕ) (part : Text) (e : Ranked lower is_alpha fl o) (q : F)
        → is_ranked lower is_alpha fl part ≡ true
        → e.rank ≡ neg q
        → IsNumber fl q
        → suc i ≤ e.index
        → Behind lower is_alpha fl o e (entry i part)
        → IsBelow q part
    unfolding entry_lt
    Behind-IsBelow i part e q ranked r n h (inl silent) = inl (rw ranked silent)
    Behind-IsBelow i part e q ranked r n h (inr behind) =
        let p = ranked-IsNumber part ranked in
        let same = rank_eq (quality part) q p n in
        let turned = signs.lt-neg (quality part) q p n in inr (ground (arith, r, same, turned))

    pub Behind-IsNotAbove :
        (i : ℕ) (part : Text) (e : Ranked lower is_alpha fl o) (q : F)
        → is_ranked lower is_alpha fl part ≡ true
        → e.rank ≡ neg q
        → IsNumber fl q
        → Behind lower is_alpha fl o e (entry i part)
        → IsNotAbove q part
    unfolding entry_lt
    Behind-IsNotAbove i part e q ranked r n (inl silent) = inl (rw ranked silent)
    Behind-IsNotAbove i part e q ranked r n (inr behind) =
        let p = ranked-IsNumber part ranked in
        let same = rank_eq (quality part) q p n in
        let turned = signs.lt-neg (quality part) q p n in inr (ground (arith, r, same, turned))
