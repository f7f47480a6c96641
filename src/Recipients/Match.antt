-- ===== src/Recipients/Match.antt =====
-- What `_EMAIL_RE` matches.
use celine_grid.Prelude.{
  Text, ◌≡◌, refl, ◌≢◌, ◌↔◌, Bool, true, ◌&&◌, [], ◌∷◌, ◌++◌, all, arith, eqb, Bool-cases, inl, inr,
  ap, ℕ, ◌∙◌,
}
use celine_grid.Recipients.{plain, inner_stop, host, after_local, full_match}

-- One or more characters of the class `[^@\s]`.
abbrev pub IsWord : Text → Type 0
IsWord w = (w ≢ []) × (all plain w ≡ true)

-- `[^@\s]+@[^@\s]+\.[^@\s]+`, part by part.
pub record IsEmail (s : Text) : Type 0 where
  pub user : Text
  pub domain : Text
  pub zone : Text
  pub user_word : IsWord user
  pub domain_word : IsWord domain
  pub zone_word : IsWord zone
  pub parts : s ≡ user ++ b'@' ∷ (domain ++ b'.' ∷ zone)

all-append : (p : ℕ → Bool) (s t : Text) → all p (s ++ t) ≡ (all p s && all p t)
all-append p [] t = refl
all-append p (c ∷ s) t = ground (arith, all-append p s t)

cons-ne-nil : (c : ℕ) (s : Text) → c ∷ s ≢ []
cons-ne-nil c s e = cc

both-true : {a b : Bool} → a ≡ true → b ≡ true → (a && b) ≡ true
both-true h k = ground arith

conjuncts : (a b c : Bool) → (a && b && c) ≡ true → (a ≡ true) × (b ≡ true) × (c ≡ true)
conjuncts a b c h = ground arith

both : (a b : Bool) → (a && b) ≡ true → (a ≡ true) × (b ≡ true)
both a b h = ground arith

-- Where the full stop is.
inner_stop-split : (s : Text) → inner_stop s ≡ true → (a b : Text) × (s ≡ a ++ b'.' ∷ b) × (b ≢ [])
unfolding inner_stop
inner_stop-split [] h = cc
inner_stop-split (c ∷ []) h = cc
inner_stop-split (c ∷ d ∷ s) h = elim (Bool-cases (eqb c b'.')) [
  | inl stop ↦ ([], d ∷ s, ground arith, λ e. cc)
  | inr other ↦ let (a, b, e, ne) = inner_stop-split (d ∷ s) (ground arith) in (c ∷ a, b, cc, ne)
]

inner_stop-append : (a b : Text) → b ≢ [] → inner_stop (a ++ b'.' ∷ b) ≡ true
unfolding inner_stop
inner_stop-append [] [] ne = absurd (ne refl)
inner_stop-append [] (d ∷ b) ne = refl
inner_stop-append (c ∷ []) b ne = ground (arith, inner_stop-append [] b ne)
inner_stop-append (c ∷ d ∷ a) b ne = ground (arith, inner_stop-append (d ∷ a) b ne)

-- A host is two words with a full stop between them.
record IsHost (s : Text) : Type 0 where
  domain : Text
  zone : Text
  domain_word : IsWord domain
  zone_word : IsWord zone
  parts : s ≡ domain ++ b'.' ∷ zone

IsHost-of_split :
    (c : ℕ) (s a b : Text)
    → s ≡ a ++ b'.' ∷ b
    → b ≢ []
    → plain c ≡ true
    → all plain s ≡ true
    → IsHost (c ∷ s)
IsHost-of_split c s a b e ne first rest = record {
  domain = c ∷ a;
  zone = b;
  domain_word = (cons-ne-nil c a, ground (arith, halves.0));
  zone_word = (ne, halves.1);
  parts = ap (◌∷◌ c) e;
}
  where
    halves : (all plain a ≡ true) × (all plain b ≡ true)
    halves = ground (arith, all-append plain a (b'.' ∷ b), ap (all plain) e)

IsHost-of_found :
    (c : ℕ) (s : Text)
    → (a b : Text) × (s ≡ a ++ b'.' ∷ b) × (b ≢ [])
    → plain c ≡ true
    → all plain s ≡ true
    → IsHost (c ∷ s)
IsHost-of_found c s (a, b, e, ne) = IsHost-of_split c s a b e ne

host-IsHost : (s : Text) → host s ≡ true → IsHost s
unfolding host
host-IsHost [] h = cc
host-IsHost (c ∷ s) h = IsHost-of_found c s (inner_stop-split s tests.2) tests.0 tests.1
  where
    tests : (plain c ≡ true) × (all plain s ≡ true) × (inner_stop s ≡ true)
    tests = conjuncts (plain c) (all plain s) (inner_stop s) h

IsHost-host : (d z : Text) → IsWord d → IsWord z → host (d ++ b'.' ∷ z) ≡ true
unfolding host
IsHost-host [] z hd hz = absurd (hd.0 refl)
IsHost-host (c ∷ d) z hd hz =
    ground (arith, all-append plain d (b'.' ∷ z), inner_stop-append d z hz.0)

after_local-split :
    (s : Text)
    → after_local s ≡ true
    → (u r : Text) × (s ≡ u ++ b'@' ∷ r) × (all plain u ≡ true) × (host r ≡ true)
unfolding after_local
after_local-split [] h = cc
after_local-split (c ∷ s) h = elim (Bool-cases (eqb c b'@')) [
  | inl at_sign ↦ ([], s, ground arith, refl, ground arith)
  | inr other ↦
      let first : plain c ≡ true = ground arith in
      let (u, r, e, pl, ho) = after_local-split s (ground arith) in
      (c ∷ u, r, ap (◌∷◌ c) e, both-true first pl, ho)
]

after_local-append : (u r : Text) → all plain u ≡ true → after_local (u ++ b'@' ∷ r) ≡ host r
unfolding after_local plain
after_local-append [] r h = refl
after_local-append (c ∷ u) r h = ground (arith, after_local-append u r)

IsEmail-of_split :
    (c : ℕ) (s u r : Text)
    → s ≡ u ++ b'@' ∷ r
    → plain c ≡ true
    → all plain u ≡ true
    → IsHost r
    → IsEmail (c ∷ s)
IsEmail-of_split c s u r e first rest w = record {
  user = c ∷ u;
  domain = w.domain;
  zone = w.zone;
  user_word = (cons-ne-nil c u, both-true first rest);
  domain_word = w.domain_word;
  zone_word = w.zone_word;
  parts = ap (◌∷◌ c) (e ∙ ap (λ t. u ++ b'@' ∷ t) w.parts);
}

IsEmail-of_found :
    (c : ℕ) (s : Text)
    → plain c ≡ true
    → (u r : Text) × (s ≡ u ++ b'@' ∷ r) × (all plain u ≡ true) × (host r ≡ true)
    → IsEmail (c ∷ s)
IsEmail-of_found c s first (u, r, e, pl, ho) =
    IsEmail-of_split c s u r e first pl (host-IsHost r ho)

full_match-IsEmail : (s : Text) → full_match s ≡ true → IsEmail s
unfolding full_match
full_match-IsEmail [] h = cc
full_match-IsEmail (c ∷ s) h = IsEmail-of_found c s tests.0 (after_local-split s tests.1)
  where
    tests : (plain c ≡ true) × (after_local s ≡ true)
    tests = both (plain c) (after_local s) h

IsEmail-full_match :
    (u d z : Text)
    → IsWord u
    → IsWord d
    → IsWord z
    → full_match (u ++ b'@' ∷ (d ++ b'.' ∷ z)) ≡ true
unfolding full_match
IsEmail-full_match [] d z hu hd hz = absurd (hu.0 refl)
IsEmail-full_match (c ∷ u) d z hu hd hz =
    ground (arith, after_local-append u (d ++ b'.' ∷ z), IsHost-host d z hd hz)

-- The matcher accepts exactly the texts that the pattern between `^` and `$` describes: three
-- non-empty words without `@` and white space, with an `@` and a full stop between them.
pub full_match_iff : (s : Text) → (full_match s ≡ true) ↔ IsEmail s
full_match_iff s = (
  full_match-IsEmail s,
  λ m. rw m.parts (IsEmail-full_match m.user m.domain m.zone m.user_word m.domain_word m.zone_word),
)
