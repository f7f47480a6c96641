-- ===== src/User/Places.antt =====
-- Where a ranked entry stands in the header.
use celine_grid.Prelude.{
  ℕ, suc, ◌≤◌, Text, Bool, true, false, Option, none, some, List, [], ◌∷◌, ◌++◌, inl, inr, ◌≡◌,
  refl, sym, ◌∙◌, ap, arith, All, In, if◌then◌else◌,
}
use celine_grid.Values.{Floats}
use celine_grid.Values.Order.{IsNumber, IsOrdered}
use celine_grid.User.{is_ranked, ranked_from, preferred}
use celine_grid.User.Ranking.{Ranked, Behind, IsFirst, primary, IsFirst-sorted}
use celine_grid.User.Locale
use celine_grid.User.Locale.{
  HasSigns, IsPreferred, ranked-IsNumber, ranked_from-HasRank, Behind-IsBelow, Behind-IsNotAbove,
}

module _ (lower : Text → Text) (is_alpha : ℕ → Bool) (fl : Floats) (o : IsOrdered fl)
    (signs : HasSigns fl) where
  open fl use {F, neg}

  abbrev quality : Text → F
  quality = Locale.quality lower is_alpha fl

  abbrev language : Text → Option Text
  language = Locale.language lower is_alpha fl

  abbrev IsBelow : F → Text → Type 0
  IsBelow = Locale.IsBelow lower is_alpha fl

  abbrev IsNotAbove : F → Text → Type 0
  IsNotAbove = Locale.IsNotAbove lower is_alpha fl

  abbrev entry : ℕ → Text → Ranked lower is_alpha fl o
  entry = Locale.entry lower is_alpha fl o signs

  -- `e` is the entry of a part with the language `l`, from the place `i` on.
  abbrev Located : ℕ → List Text → Ranked lower is_alpha fl o → Text → Type 0
  Located i parts e l =
      (earlier : List Text) × (part : Text) × (later : List Text) × (parts
        ≡ earlier ++ part ∷ later)
      × (language part ≡ some l)
      × (e.rank ≡ neg (quality part))
      × IsNumber fl (quality part)
      × (i ≤ e.index)
      × All (IsBelow (quality part)) earlier
      × All (IsNotAbove (quality part)) later

  -- A place is later than the one before it.
  Located-further :
      (i : ℕ) (part : Text) (parts : List Text) (e : Ranked lower is_alpha fl o) (l : Text)
      → ((q : F) → e.rank ≡ neg q → IsNumber fl q → suc i ≤ e.index → IsBelow q part)
      → Located (suc i) parts e l
      → Located i (part ∷ parts) e l
  Located-further i part parts e l below
        (earlier, found, later, whole, named, rank, n, place, before, after) =
      (
        part ∷ earlier,
        found,
        later,
        ap (◌∷◌ part) whole,
        named,
        rank,
        n,
        omega (arith, place),
        (below (quality found) rank n place, before),
        after,
      )

  -- The entries of `parts`, if the part before them is ranked.
  abbrev with_first : ℕ → Text → List Text → Bool → List (Ranked lower is_alpha fl o)
  with_first i part parts ranked =
      if ranked
      then entry i part ∷ ranked_from lower is_alpha fl (suc i) parts
      else ranked_from lower is_alpha fl (suc i) parts

  abbrev AllBehind : Ranked lower is_alpha fl o → List (Ranked lower is_alpha fl o) → Type 0
  AllBehind e = All (Behind lower is_alpha fl o e)

  All-later-first :
      (i : ℕ) (part : Text) (parts : List Text) (e : Ranked lower is_alpha fl o) (q : F)
      → e.rank ≡ neg q
      → IsNumber fl q
      → (AllBehind e (ranked_from lower is_alpha fl (suc i) parts) → All (IsNotAbove q) parts)
      → (ranked : Bool) → is_ranked lower is_alpha fl part ≡ ranked
      → AllBehind e (with_first i part parts ranked)
      → All (IsNotAbove q) (part ∷ parts)
  All-later-first i part parts e q r n rest true ranked h =
      (Behind-IsNotAbove lower is_alpha fl o signs i part e q ranked r n h.0, rest h.1)
  All-later-first i part parts e q r n rest false other h = (inl (rw other refl), rest h)

  All-later :
      (i : ℕ) (parts : List Text) (e : Ranked lower is_alpha fl o) (q : F)
      → e.rank ≡ neg q
      → IsNumber fl q
      → AllBehind e (ranked_from lower is_alpha fl i parts)
      → All (IsNotAbove q) parts
  unfolding ranked_from
  All-later i [] e q r n behind = tt
  All-later i (part ∷ parts) e q r n behind =
      All-later-first i part parts e q r n (All-later (suc i) parts e q r n)
        (is_ranked lower is_alpha fl part) refl behind

  locate_first :
      (i : ℕ) (part : Text) (parts : List Text) (e : Ranked lower is_alpha fl o) (l : Text)
      → primary lower is_alpha fl o e ≡ some l
      → (In e (ranked_from lower is_alpha fl (suc i) parts)
          → AllBehind e (ranked_from lower is_alpha fl (suc i) parts)
          → Located (suc i) parts e l)
      → (ranked : Bool) → is_ranked lower is_alpha fl part ≡ ranked
      → In e (with_first i part parts ranked)
      → AllBehind e (with_first i part parts ranked)
      → Located i (part ∷ parts) e l
  locate_first i part parts e l named rest false other m h =
      Located-further i part parts e l (λ q r n place. inl (rw other refl)) (rest m h)
  locate_first i part parts e l named rest true ranked (inr m) h =
      Located-further i part parts e l
        (λ q r n place. Behind-IsBelow lower is_alpha fl o signs i part e q ranked r n place h.0)
        (rest m h.1)
  locate_first i part parts e l named rest true ranked (inl same) h =
      let rank = ap (λ x. x.rank) same in
      let n = ranked-IsNumber lower is_alpha fl o signs part ranked in
      (
        [],
        part,
        parts,
        refl,
        rw ranked (sym (ap (primary lower is_alpha fl o) same) ∙ named),
        rank,
        n,
        omega (arith, ap (λ x. x.index) same),
        tt,
        All-later (suc i) parts e (quality part) rank n h.1,
      )

  locate :
      (i : ℕ) (parts : List Text) (e : Ranked lower is_alpha fl o) (l : Text)
      → primary lower is_alpha fl o e ≡ some l
      → In e (ranked_from lower is_alpha fl i parts)
      → AllBehind e (ranked_from lower is_alpha fl i parts)
      → Located i parts e l
  unfolding ranked_from
  locate i [] e l named m behind = absurd m.lower
  locate i (part ∷ parts) e l named m behind =
      locate_first i part parts e l named (locate (suc i) parts e l named)
        (is_ranked lower is_alpha fl part) refl m behind

  silent_parts :
      (i : ℕ) (parts : List Text)
      → All (λ e. primary lower is_alpha fl o e ≡ none) (ranked_from lower is_alpha fl i parts)
      → All (λ p. language p ≡ none) parts
  unfolding ranked_from
  silent_parts i [] h = tt
  silent_parts i (part ∷ parts) h =
      go (silent_parts (suc i) parts) (is_ranked lower is_alpha fl part) refl h
    where
      go :
          (All
              (λ e. primary lower is_alpha fl o e ≡ none)
              (ranked_from lower is_alpha fl (suc i) parts)
            → All (λ p. language p ≡ none) parts)
          → (ranked : Bool) → is_ranked lower is_alpha fl part ≡ ranked
          → All (λ e. primary lower is_alpha fl o e ≡ none) (with_first i part parts ranked)
          → All (λ p. language p ≡ none) (part ∷ parts)
      go rest true ranked k = (rw ranked k.0, rest k.1)
      go rest false other k = (rw other refl, rest k)

  IsFirst-IsPreferred :
      (parts : List Text) (p : Option Text)
      → IsFirst lower is_alpha fl o (ranked_from lower is_alpha fl 0 parts) p
      → IsPreferred lower is_alpha fl parts p
  IsFirst-IsPreferred parts none h = silent_parts 0 parts h
  IsFirst-IsPreferred parts (some l) (e, m, named, behind) =
      let (earlier, part, later, whole, lang, rank, n, place, before, after) =
        locate 0 parts e l named m behind in
      (earlier, part, later, whole, lang, before, after)

  pub preferred-IsPreferred :
      (parts : List Text) → IsPreferred lower is_alpha fl parts (preferred lower is_alpha fl parts)
  unfolding preferred
  preferred-IsPreferred parts = IsFirst-IsPreferred parts _ (
      IsFirst-sorted lower is_alpha fl o (ranked_from lower is_alpha fl 0 parts)
        (ranked_from-HasRank lower is_alpha fl o signs 0 parts))
