-- ===== src/User.antt =====
-- The routes of the caller's own identity (src/celine/grid/api/user.py).
pub mod Ranking
pub mod Locale
pub mod Places
pub mod Answers
use celine_grid.Prelude.{
  ℕ, suc, Text, text, ◌==◌, text_eq, ltb, eqb, Bool, true, false, ◌||◌, ◌&&◌, not, Option, none,
  some, List, [], ◌∷◌, ◌++◌, all, sorted, text_lt, if◌then◌else◌,
}
use celine_grid.Prelude.Strings.{strip, before_first, after_first, split, starts_with}
use celine_grid.Values.{Floats}
use celine_grid.Models.{Result, ok, ◌>>=◌}
use celine_grid.Identity.{JwtUser}
use celine_grid.Access.{Request, resolve_dso_network}
use celine_grid.Values.Order.{first_of_pair}

-- `params.strip()[2:]` of parameters that start with `q=`
abbrev pub after_two : Text → Text
after_two (_ ∷ _ ∷ s) = s
after_two _ = []

-- `MeUser`
pub record MeUser : Type 0 where
  pub sub : Text
  pub email : Option Text
  pub name : Option Text
  pub preferred_username : Option Text
  pub locale : Option Text
  pub network_id : Text
  pub organization : Text

-- `lower` is str.lower, and `is_alpha` the class of letters of str.isalpha.
module _ (lower : Text → Text) (is_alpha : ℕ → Bool) where
  abbrev pub if_word : Text → Option Text
  if_word [] = none
  if_word (c ∷ s) = if all is_alpha (c ∷ s) then some (c ∷ s) else none

  unfoldable pub primary_subtag : Text → Option Text
  primary_subtag tag = if_word (lower (before_first b'-' (strip tag)))

  module _ (fl : Floats) where
    open fl use {F, zero, one, neg, lt, eq, parse}

    -- The tuple that is sorted: the quality with its sign changed, the place, and the tag.
    pub record Entry : Type 0 where
      pub rank : F
      pub index : ℕ
      pub tag : Text

    abbrev pub or_one : Option F → F
    or_one none = one
    or_one (some quality) = quality

    -- The tag and the quality of an entry of the header.
    unfoldable pub tag_of : Text → Text
    tag_of part = strip (before_first b';' (strip part))

    unfoldable pub quality_of : Text → F
    quality_of part =
        let params = strip (after_first b';' (strip part)) in
        if starts_with params (text "q=") then or_one (parse (after_two params)) else one

    -- Whether an entry is ranked: no wildcard, and not of quality zero.
    unfoldable pub is_ranked : Text → Bool
    is_ranked part = not (tag_of part == [] || tag_of part == text "*") && lt zero (quality_of part)

    unfoldable pub ranked_from : ℕ → List Text → List Entry
    ranked_from index [] = []
    ranked_from index (part ∷ parts) =
        let rest = ranked_from (suc index) parts in
        if is_ranked part
        then record { rank = neg (quality_of part); index = index; tag = tag_of part } ∷ rest
        else rest

    -- Tuples compare at the first place where they differ.
    unfoldable pub entry_lt : Entry → Entry → Bool
    entry_lt a b =
        first_of_pair (eq a.rank b.rank) (lt a.rank b.rank)
          (first_of_pair (eqb a.index b.index) (ltb a.index b.index) (text_lt a.tag b.tag))

    unfoldable pub first_primary : List Entry → Option Text
    first_primary [] = none
    first_primary (e ∷ entries) =
        let rest = first_primary entries in
        elim (primary_subtag e.tag) [ none ↦ rest | some primary ↦ some primary ]

    unfoldable pub preferred : List Text → Option Text
    preferred parts = first_primary (sorted entry_lt (ranked_from 0 parts))

    unfoldable pub from_accept_language : Option Text → Option Text
    from_accept_language none = none
    from_accept_language (some []) = none
    from_accept_language (some (c ∷ header)) = preferred (split b',' (c ∷ header))

    -- The language of the claim: none if it is empty, or if it does not start with letters.
    unfoldable pub claimed : Option Text → Option Text
    claimed none = none
    claimed (some claim) = if strip claim == [] then none else primary_subtag claim

    unfoldable pub resolve_locale : JwtUser → Request → Option Text
    resolve_locale user r = elim (claimed user.locale) [
      | none ↦ from_accept_language (r.headers (text "accept-language"))
      | some primary ↦ some primary
    ]

    unfoldable pub me : Request → JwtUser → Result MeUser
    me r user = resolve_dso_network user >>= λ network_id. ok (record {
      sub = user.sub;
      email = user.email;
      name = user.name;
      preferred_username = user.preferred_username;
      locale = resolve_locale user r;
      network_id = network_id;
      organization = network_id;
    })
