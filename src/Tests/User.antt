-- ===== src/Tests/User.antt =====
-- The caller's own identity, with tenths for qualities.
use celine_grid.Prelude.{
  ℕ, ◌-◌, ◌+◌, Text, text, text_eq, text_lt, ◌==◌, ◌≡◌, ◌∙◌, refl, leb, ltb, Bool, ◌&&◌, Option,
  none, some, [], ◌∷◌, sorted, insert_sorted, if◌then◌else◌, arith,
}
use celine_grid.Prelude.Strings.{
  strip, drop_while, is_space, before_first, after_first, split, starts_with,
}
use celine_grid.Values.{Floats}
use celine_grid.Values.Order.{IsOrdered}
use celine_grid.Access.{Request}
use celine_grid.User.{
  from_accept_language, first_primary, preferred, ranked_from, is_ranked, tag_of, quality_of,
  entry_lt, primary_subtag, me,
}
use celine_grid.User.Locale.{HasSigns}
use celine_grid.User.Answers.{IsAnswer, me-IsAnswer}
use celine_grid.Tests.Data.{
  wholes, wholes-IsOrdered, whole-IsNumber, whole, neg_part, pos_part, whole_lt, Whole, natural,
  ascii_lower,
}
use celine_grid.Tests.Access.{member_of_a}

abbrev tenth : Text → Option Whole
tenth (a ∷ p ∷ d ∷ []) = some (natural (d - b'0'))
tenth s = none

abbrev tenths : Floats
tenths = record wholes { one = natural 10; parse = tenth }

abbrev ascii_alpha : ℕ → Bool
ascii_alpha c = leb b'a' c && leb c b'z'

abbrev wanted : Text
wanted = text "de;q=0.0, *, en;q=0.8,it-IT;q=0.9, fr;q=0.9, 42"

-- The tag without a quality names no language; of the two of 0.9 the first counts.
it_is_preferred :
    from_accept_language ascii_lower ascii_alpha tenths (some wanted) ≡ some (text "it")
unfolding from_accept_language first_primary preferred ranked_from is_ranked tag_of quality_of
    entry_lt primary_subtag strip drop_while is_space before_first after_first split starts_with
    sorted insert_sorted text_eq text_lt
it_is_preferred = refl

tenths-IsOrdered : IsOrdered tenths
tenths-IsOrdered = record { order = wholes-IsOrdered.order; eq_lem = wholes-IsOrdered.eq_lem }

-- A change of sign swaps the two parts.
negated_lt : (a b c d : ℕ) → whole_lt (whole a b) (whole c d) ≡ ltb (a + d) (c + b)
negated_lt a b c d = ground arith

whole_neg-lt :
    (x y : Whole)
    → whole_lt (whole (neg_part x) (pos_part x)) (whole (neg_part y) (pos_part y)) ≡ whole_lt y x
whole_neg-lt x y = negated_lt (neg_part x) (pos_part x) (neg_part y) (pos_part y) ∙ ground arith

tenths-HasSigns : HasSigns tenths
tenths-HasSigns = record {
  neg-IsNumber = λ x h. whole-IsNumber (whole (neg_part x) (pos_part x));
  lt-neg = λ x y h k. whole_neg-lt x y;
  lt-IsNumber = λ x h. whole-IsNumber x;
}

abbrev asking : Request
asking = record {
  path = text "/api/me";
  headers = λ name. if name == text "accept-language" then some wanted else none;
}

me-IsAnswer_example :
    IsAnswer ascii_lower ascii_alpha tenths tenths-IsOrdered tenths-HasSigns member_of_a
      (asking.headers (text "accept-language"))
      (me ascii_lower ascii_alpha tenths asking member_of_a)
me-IsAnswer_example =
    me-IsAnswer ascii_lower ascii_alpha tenths tenths-IsOrdered tenths-HasSigns asking member_of_a
