-- ===== src/User/Answers.antt =====
-- What the caller is told of the own identity.
use celine_grid.Prelude.{
  ℕ, Text, text, all, true, Bool-cases, subst, sym, ◌∙◌, if◌then◌else◌, false, ◌==◌, text_eq, Bool,
  Option, none, some, List, [], ◌∷◌, ◌⊎◌, inl, inr, ◌≡◌, ◌≢◌, refl,
}
use celine_grid.Prelude.Strings.{split, strip, before_first, drop_while}
use celine_grid.Values.{Floats}
use celine_grid.Values.Order.{IsOrdered}
use celine_grid.Models.{http, Result, ok, raise, ◌>>=◌}
use celine_grid.Identity.{JwtUser, dso_networks}
use celine_grid.Access.{Request, resolve_networks, resolve_dso_network}
use celine_grid.User.{
  MeUser, tag_of, is_ranked, from_accept_language, claimed, if_word, primary_subtag, resolve_locale,
  me,
}
use celine_grid.User.Locale.{HasSigns, IsPreferred, language}
use celine_grid.User.Places.{preferred-IsPreferred}

module _ (lower : Text → Text) (is_alpha : ℕ → Bool) (fl : Floats) (o : IsOrdered fl)
    (signs : HasSigns fl) where
  empty-silent : language lower is_alpha fl [] ≡ none
  unfolding is_ranked tag_of strip before_first drop_while text_eq
  empty-silent = refl

  pub from_accept_language-IsPreferred :
      (header : Text)
      → IsPreferred lower is_alpha fl
          (split b',' header)
          (from_accept_language lower is_alpha fl (some header))
  unfolding from_accept_language split
  from_accept_language-IsPreferred [] = (empty-silent, tt)
  from_accept_language-IsPreferred (c ∷ header) =
      preferred-IsPreferred lower is_alpha fl o signs (split b',' (c ∷ header))

  -- What the header asks for; a missing one asks for nothing.
  abbrev pub IsAsked : Option Text → Option Text → Type 0
  IsAsked none p = p ≡ none
  IsAsked (some header) p = IsPreferred lower is_alpha fl (split b',' header) p

  -- The language of the token, else what the header asks for.
  abbrev pub IsLocale : JwtUser → Option Text → Option Text → Type 0
  IsLocale user header p =
      ((l : Text) × (claimed lower is_alpha fl user.locale ≡ some l) × (p ≡ some l))
      ⊎ (claimed lower is_alpha fl user.locale ≡ none) × IsAsked header p

  asked : (header : Option Text) → IsAsked header (from_accept_language lower is_alpha fl header)
  unfolding from_accept_language
  asked none = refl
  asked (some header) = from_accept_language-IsPreferred header

  pub resolve_locale-IsLocale :
      (user : JwtUser) (r : Request)
      → IsLocale user (r.headers (text "accept-language")) (resolve_locale lower is_alpha fl user r)
  unfolding resolve_locale
  resolve_locale-IsLocale user r = go (claimed lower is_alpha fl user.locale) refl
    where
      go :
          (p : Option Text)
          → claimed lower is_alpha fl user.locale ≡ p
          → IsLocale user (r.headers (text "accept-language")) (elim p [
            | none ↦ from_accept_language lower is_alpha fl (r.headers (text "accept-language"))
            | some primary ↦ some primary
          ])
      go none e = inr (e, asked (r.headers (text "accept-language")))
      go (some l) e = inl (l, e, refl)

  -- No language, or a word of letters.
  abbrev pub IsWord : Option Text → Type 0
  IsWord none = Unit
  IsWord (some l) = (l ≢ []) × (all is_alpha l ≡ true)

  if_word-IsWord : (s : Text) → IsWord (if_word lower is_alpha s)
  if_word-IsWord [] = tt
  if_word-IsWord (c ∷ s) = elim (Bool-cases (all is_alpha (c ∷ s))) [
    | inl letters ↦ rw letters ((λ e. cc), letters)
    | inr other ↦ rw other tt
  ]

  primary_subtag-IsWord : (tag : Text) → IsWord (primary_subtag lower is_alpha tag)
  unfolding primary_subtag
  primary_subtag-IsWord tag = if_word-IsWord _

  IsWord-if : (b : Bool) (p q : Option Text) → IsWord p → IsWord q → IsWord (if b then p else q)
  IsWord-if true p q h k = h
  IsWord-if false p q h k = k

  language-IsWord : (part : Text) → IsWord (language lower is_alpha fl part)
  language-IsWord part =
      IsWord-if (is_ranked lower is_alpha fl part) _ none
        (primary_subtag-IsWord (tag_of lower is_alpha fl part)) tt

  claimed-IsWord : (claim : Option Text) → IsWord (claimed lower is_alpha fl claim)
  unfolding claimed
  claimed-IsWord none = tt
  claimed-IsWord (some claim) =
      IsWord-if (strip claim == []) none _ tt (primary_subtag-IsWord claim)

  IsLocale-IsWord : (user : JwtUser) (header p : Option Text) → IsLocale user header p → IsWord p
  IsLocale-IsWord user header none h = tt
  IsLocale-IsWord user header (some l) (inl (k, e, f)) =
      subst IsWord (e ∙ sym f) (claimed-IsWord user.locale)
  IsLocale-IsWord user none (some l) (inr (e, f)) = cc
  IsLocale-IsWord user (some header) (some l) (inr (e, (_, part, _, _, f, _, _))) =
      subst IsWord f (language-IsWord part)

  -- The answer to a member of one DSO, and the refusal of everybody else.
  abbrev pub IsAnswer : JwtUser → Option Text → Result MeUser → Type 0
  IsAnswer user header (ok u) =
      (dso_networks user ≡ u.network_id ∷ [])
      × (u.organization ≡ u.network_id)
      × (u.sub ≡ user.sub)
      × (u.email ≡ user.email)
      × IsWord u.locale
      × IsLocale user header u.locale
  IsAnswer user header (raise e) =
      ((detail : Text) × (e ≡ http 403 detail)) × ((n : Text) → dso_networks user ≢ n ∷ [])

  -- Where `<` orders the floats but NaN and a change of sign turns it around, every caller is either
  -- refused with 403, not being a member of exactly one DSO, or is told this network, the own id and
  -- address, and a language that is a word of letters or missing: that of the token, else that of the
  -- header, which is the language of the first of the entries of the highest quality, of those that
  -- are not refused by their quality and start with a word of letters, if there is any.
  pub me-IsAnswer :
      (r : Request) (user : JwtUser)
      → IsAnswer user (r.headers (text "accept-language")) (me lower is_alpha fl r user)
  unfolding me resolve_dso_network resolve_networks
  me-IsAnswer r user = go (dso_networks user) refl
    where
      go :
          (networks : List Text)
          → dso_networks user ≡ networks
          → IsAnswer user (r.headers (text "accept-language")) (
              resolve_networks networks >>= λ network_id. ok (record {
                sub = user.sub;
                email = user.email;
                name = user.name;
                preferred_username = user.preferred_username;
                locale = resolve_locale lower is_alpha fl user r;
                network_id = network_id;
                organization = network_id;
              }))
      go [] e = ((_, refl), λ n f. cc)
      go (n ∷ []) e = (
        e,
        refl,
        refl,
        refl,
        IsLocale-IsWord user (r.headers (text "accept-language")) _
            (resolve_locale-IsLocale user r),
        resolve_locale-IsLocale user r,
      )
      go (n ∷ m ∷ ns) e = ((_, refl), λ k f. cc)
