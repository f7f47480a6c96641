-- ===== src/RiskSummary/Order.antt =====
-- The order of the summaries.
use celine_grid.Prelude.{
  Text, text_eq, ◌≡◌, refl, sym, false, Option, none, some, ◌&&◌, List, [], ◌∷◌, arith,
  sorted-IsSorted_on, All-of_sorted, IsStrictOrderOn, IsSorted, text_lt, text_lt-IsStrictOrder, All,
}
use celine_grid.Values.{Floats, Value, Row}
use celine_grid.Values.Order.{IsNumber, IsOrdered, by_field, pair_lt-IsStrictOrderOn}
use celine_grid.RiskSummary.{sort_index}
use celine_grid.RiskSummary.Summarise.{Summary, summary_lt, summarise}

-- What negation does to `<` and `==`.
pub record IsNegation (fl : Floats) : Type 0 where
  pub lt_neg : (x y : fl.F) → fl.lt (fl.neg x) (fl.neg y) ≡ fl.lt y x
  pub eq_neg : (x y : fl.F) → fl.eq (fl.neg x) (fl.neg y) ≡ fl.eq x y

module _ (fl : Floats) (o : IsOrdered fl) (neg_laws : IsNegation fl)
    (repr : Value fl.F → Text) where
  open fl use {F, one, neg, lt, eq}

  abbrev index : Summary fl repr → F
  index u = sort_index fl repr u.risk_index

  -- The risk index; a missing one counts as -1.
  abbrev pub rank_of : Option F → F
  rank_of none = neg one
  rank_of (some x) = x

  abbrev pub rank : Summary fl repr → F
  rank u = rank_of u.risk_index

  -- The index is no NaN.
  abbrev pub HasNumber : Summary fl repr → Type 0
  HasNumber u = IsNumber fl (rank u)

  sort_index-rank_of : (i : Option F) → sort_index fl repr i ≡ neg (rank_of i)
  unfolding sort_index
  sort_index-rank_of none = refl
  sort_index-rank_of (some x) = refl

  index-IsNumber : (u : Summary fl repr) → HasNumber u → IsNumber fl (index u)
  index-IsNumber u h = rw (sort_index-rank_of u.risk_index, neg_laws.eq_neg) h

  lt-index : (u v : Summary fl repr) → lt (index u) (index v) ≡ lt (rank v) (rank u)
  lt-index u v =
      rw (sort_index-rank_of u.risk_index, sort_index-rank_of v.risk_index)
        (neg_laws.lt_neg (rank u) (rank v))

  eq-index : (u v : Summary fl repr) → eq (index u) (index v) ≡ eq (rank u) (rank v)
  eq-index u v =
      rw (sort_index-rank_of u.risk_index, sort_index-rank_of v.risk_index)
        (neg_laws.eq_neg (rank u) (rank v))

  abbrev HasKey : Summary fl repr → Type 0
  HasKey u = IsNumber fl (index u)

  summary_lt-IsStrictOrderOn : IsStrictOrderOn HasKey (summary_lt fl repr)
  unfolding summary_lt
  summary_lt-IsStrictOrderOn =
      pair_lt-IsStrictOrderOn fl o index (λ u v. text_lt u.key v.key)
        (by_field (λ u. u.key) text_lt-IsStrictOrder)

  -- `v` may stand after `u`: its index is not the higher one, and on equal indices its key is not
  -- the smaller one.
  abbrev pub After : Summary fl repr → Summary fl repr → Type 0
  After u v =
      (lt (rank u) (rank v) ≡ false) × ((eq (rank v) (rank u) && text_lt v.key u.key) ≡ false)

  abbrev pub InOrder : List (Summary fl repr) → Type 0
  InOrder [] = Unit
  InOrder (u ∷ us) = All (After u) us × InOrder us

  lt-After :
      (u v : Summary fl repr) → HasKey u → HasKey v → summary_lt fl repr v u ≡ false → After u v
  unfolding summary_lt
  lt-After u v p q h =
      rw (sym (lt-index v u), sym (eq-index v u)) ground (arith, o.eq_lem (index v) (index u) q p)

  All-After :
      (u : Summary fl repr) (us : List (Summary fl repr))
      → HasKey u
      → All HasKey us
      → All (λ v. summary_lt fl repr v u ≡ false) us
      → All (After u) us
  All-After u [] p ps h = tt
  All-After u (v ∷ us) p ps h = (lt-After u v p ps.0 h.0, All-After u us p ps.1 h.1)

  IsSorted-InOrder :
      (us : List (Summary fl repr)) → All HasKey us → IsSorted (summary_lt fl repr) us → InOrder us
  IsSorted-InOrder [] ps s = tt
  IsSorted-InOrder (u ∷ us) ps s = (All-After u us ps.0 ps.1 s.0, IsSorted-InOrder us ps.1 s.1)

  HasNumber-HasKey : (us : List (Summary fl repr)) → All HasNumber us → All HasKey us
  HasNumber-HasKey [] h = tt
  HasNumber-HasKey (u ∷ us) h = (index-IsNumber u h.0, HasNumber-HasKey us h.1)

  -- Where no index is NaN, and negation turns the order of the floats around, the summaries come by
  -- falling risk index, those of equal index by rising key, and those without an index as if it were
  -- -1.
  pub summarise-InOrder :
      (rows : List (Row F)) (key : Text)
      → All HasNumber (summarise fl repr rows key)
      → InOrder (summarise fl repr rows key)
  unfolding summarise
  summarise-InOrder rows key ps =
      let qs = HasNumber-HasKey _ ps in
      IsSorted-InOrder _ qs (
        sorted-IsSorted_on (summary_lt fl repr) HasKey summary_lt-IsStrictOrderOn _
          (All-of_sorted (summary_lt fl repr) HasKey _ qs))
