-- ===== src/Values/Order.antt =====
-- The order of the floats other than NaN, and of tuples that start with one.
use celine_grid.Prelude.{
  ◌≡◌, Bool, true, false, not, ◌&&◌, arith, IsStrictOrder, IsStrictOrderOn, if◌then◌else◌,
}
use celine_grid.Values.{Floats}

-- NaN is the float that is not equal to itself.
abbrev pub IsNumber : (fl : Floats) → fl.F → Type 0
IsNumber fl x = fl.eq x x ≡ true

-- `<` and `==` of the floats other than NaN.
pub record IsOrdered (fl : Floats) : Type 0 where
  pub order : IsStrictOrderOn (IsNumber fl) fl.lt
  pub eq_lem :
      (x y : fl.F)
      → IsNumber fl x
      → IsNumber fl y
      → fl.eq x y ≡ (not (fl.lt x y) && not (fl.lt y x))

pub by_field {ℓ κ} :
    {A : Type ℓ} {B : Type κ} {lt : B → B → Bool} (field : A → B)
    → IsStrictOrder lt
    → IsStrictOrder (λ a b. lt (field a) (field b))
by_field field o = record {
  asym = λ a b. o.asym (field a) (field b);
  neg_trans = λ a b c. o.neg_trans (field a) (field b) (field c);
}

-- Tuples compare at the first place where they differ.
abbrev pub first_of_pair : Bool → Bool → Bool → Bool
first_of_pair same smaller rest = if same then rest else smaller

module _ (fl : Floats) (o : IsOrdered fl) where
  open fl use {F, lt, eq}

  lt-asym : (x y : F) → IsNumber fl x → IsNumber fl y → lt x y ≡ true → lt y x ≡ false
  lt-asym = let p = o.order in p.asym_on

  lt-neg_trans :
      (x y z : F)
      → IsNumber fl x
      → IsNumber fl y
      → IsNumber fl z
      → lt y x ≡ false
      → lt z y ≡ false
      → lt z x ≡ false
  lt-neg_trans = let p = o.order in p.neg_trans_on

  module _ {ℓ} {A : Type ℓ} (key : A → F) (rest : A → A → Bool) (r : IsStrictOrder rest) where
    abbrev pub pair_lt : A → A → Bool
    pair_lt a b = first_of_pair (eq (key a) (key b)) (lt (key a) (key b)) (rest a b)

    pair_lt-asym :
        (a b : A)
        → IsNumber fl (key a)
        → IsNumber fl (key b)
        → pair_lt a b ≡ true
        → pair_lt b a ≡ false
    pair_lt-asym a b p q h = ground (
      arith,
      o.eq_lem (key a) (key b) p q,
      o.eq_lem (key b) (key a) q p,
      lt-asym (key a) (key b) p q,
      r.asym a b,
    )

    pair_lt-neg_trans :
        (a b c : A)
        → IsNumber fl (key a)
        → IsNumber fl (key b)
        → IsNumber fl (key c)
        → pair_lt b a ≡ false
        → pair_lt c b ≡ false
        → pair_lt c a ≡ false
    pair_lt-neg_trans a b c p q n h k = ground (
      arith,
      o.eq_lem (key b) (key a) q p,
      o.eq_lem (key c) (key b) n q,
      o.eq_lem (key c) (key a) n p,
      lt-asym (key a) (key b) p q,
      lt-asym (key b) (key c) q n,
      lt-asym (key c) (key a) n p,
      lt-neg_trans (key a) (key b) (key c) p q n,
      lt-neg_trans (key b) (key a) (key c) q p n,
      lt-neg_trans (key a) (key c) (key b) p n q,
      lt-neg_trans (key c) (key b) (key a) n q p,
      lt-neg_trans (key b) (key c) (key a) q n p,
      lt-neg_trans (key c) (key a) (key b) n p q,
      r.neg_trans a b c,
    )

    pub pair_lt-IsStrictOrderOn : IsStrictOrderOn (λ a. IsNumber fl (key a)) pair_lt
    pair_lt-IsStrictOrderOn = record { asym_on = pair_lt-asym; neg_trans_on = pair_lt-neg_trans }
