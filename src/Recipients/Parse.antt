-- ===== src/Recipients/Parse.antt =====
-- What `parse_recipients` returns.
use mathlib.Core.List.{reverse-reverse, reverse-append}
use celine_grid.Prelude.{
  ℕ, Text, text_eq, ◌≡◌, refl, ◌∙◌, ap, Bool, true, false, not, ◌&&◌, [], ◌∷◌, ◌++◌, all, All,
  arith, eqb, Bool-cases, inl, inr, reverse,
}
use celine_grid.Prelude.Strings.{is_space, drop_while, strip, pieces}
use celine_grid.Recipients.{separator, chomp}

-- No comma, no semicolon and no white space.
abbrev pub clean : Text → Bool
clean = all (λ c. not (separator c))

abbrev no_space : Text → Bool
no_space = all (λ c. not (is_space c))

pub clean→no_space : (s : Text) → clean s ≡ true → no_space s ≡ true
unfolding separator
clean→no_space [] h = refl
clean→no_space (c ∷ s) h = ground (arith, clean→no_space s)

pub all-snoc : (p : ℕ → Bool) (s : Text) (c : ℕ) → all p (s ++ (c ∷ [])) ≡ (all p s && p c)
all-snoc p [] c = ground arith
all-snoc p (d ∷ s) c = ground (arith, all-snoc p s c)

all-reverse : (p : ℕ → Bool) (s : Text) → all p (reverse s) ≡ all p s
all-reverse p [] = refl
all-reverse p (c ∷ s) =
    ap (all p) (reverse-append (c ∷ []) s)
    ∙ all-snoc p (reverse s) c
    ∙ ground (arith, all-reverse p s)

drop_while_of_none : (s : Text) → no_space s ≡ true → drop_while is_space s ≡ s
unfolding drop_while
drop_while_of_none [] h = refl
drop_while_of_none (c ∷ s) h = ground arith

pub strip_of_no_space : (s : Text) → no_space s ≡ true → strip s ≡ s
unfolding strip
strip_of_no_space s h =
    rw (drop_while_of_none s h, drop_while_of_none (reverse s) (all-reverse _ s ∙ h))
      (reverse-reverse s)

not-newline : (c : ℕ) → not (is_space c) ≡ true → eqb c 10 ≡ false
unfolding is_space
not-newline c h = ground arith

pub chomp_of_no_space : (s : Text) → no_space s ≡ true → chomp s ≡ s
unfolding chomp
chomp_of_no_space [] h = refl
chomp_of_no_space (c ∷ []) h = ground (arith, not-newline c)
chomp_of_no_space (c ∷ d ∷ s) h = ap (◌∷◌ c) (chomp_of_no_space (d ∷ s) (ground arith))

pub pieces-clean :
    (cur : Text) (skipping : Bool) (s : Text)
    → clean cur ≡ true
    → All (λ p. clean p ≡ true) (pieces separator cur skipping s)
unfolding pieces
pieces-clean cur skipping [] h = (h, tt)
pieces-clean cur true (c ∷ s) h = elim (Bool-cases (separator c)) [
  | inl sep ↦ rw (sep, pieces, All) (pieces-clean [] true s refl)
  | inr other ↦ rw (other, pieces, All) (pieces-clean (c ∷ []) false s (ground arith))
]
pieces-clean cur false (c ∷ s) h = elim (Bool-cases (separator c)) [
  | inl sep ↦ rw (sep, pieces, All) (h, pieces-clean [] true s refl)
  | inr other ↦
      rw (other, pieces, All) (pieces-clean (cur ++ (c ∷ [])) false s (rw all-snoc (ground arith)))
]
