-- ===== src/Recipients.antt =====
-- The recipients of a notification (src/celine/grid/services/notification_recipients.py):
-- splitting a free text into addresses, and the id of a list of addresses.
pub mod Match
pub mod Parse
pub mod Dedupe
pub mod Results
use celine_grid.Prelude.{
  ℕ, Text, text, ◌==◌, text_eq, contains, if◌then◌else◌, eqb, take, Bool, true, false, not, ◌&&◌,
  ◌||◌, Option, none, some, List, [], ◌∷◌, ◌++◌, map, sorted, text_lt, any, all, insert_sorted,
}
use celine_grid.Prelude.Strings.{is_space, strip, split_runs, join}

-- The class `[^@\s]`.
unfoldable pub plain : ℕ → Bool
unfolding is_space
plain c = not (eqb c b'@') && not (is_space c)

-- The rest of a host, of which a character is read, matches `[^@\s]*\.[^@\s]+$` if it is plain and
-- has a full stop before its last character.
unfoldable pub inner_stop : Text → Bool
inner_stop [] = false
inner_stop (c ∷ []) = false
inner_stop (c ∷ d ∷ s) = eqb c b'.' || inner_stop (d ∷ s)

unfoldable pub host : Text → Bool
unfolding plain inner_stop
host [] = false
host (c ∷ s) = plain c && all plain s && inner_stop s

unfoldable pub after_local : Text → Bool
unfolding host
after_local [] = false
after_local (c ∷ s) = let rest = after_local s in if eqb c b'@' then host s else plain c && rest

-- The pattern between `^` and the end.
unfoldable pub full_match : Text → Bool
unfolding after_local
full_match [] = false
full_match (c ∷ s) = plain c && after_local s

-- `$` also matches before a final newline, which no class of the pattern takes.
unfoldable pub chomp : Text → Text
chomp [] = []
chomp (c ∷ []) = if eqb c 10 then [] else c ∷ []
chomp (c ∷ d ∷ s) = c ∷ chomp (d ∷ s)

-- `_EMAIL_RE.match(s)`
unfoldable pub email_match : Text → Bool
email_match s = full_match (chomp s)

-- The class `[,;\s]`.
unfoldable pub separator : ℕ → Bool
unfolding is_space
separator c = eqb c b',' || eqb c b';' || is_space c

-- `lower` is `str.lower`.
module _ (lower : Text → Text) where
  -- The loop of `_dedupe_emails`, on the keys that it has seen.
  unfoldable pub dedupe_loop : List Text → List Text → List Text
  dedupe_loop seen [] = []
  dedupe_loop seen (item ∷ values) =
      let email = strip item in
      elim (email == [] || not (email_match email)) [
        | true ↦ dedupe_loop seen values
        | false ↦ elim (contains seen (lower email)) [
          | true ↦ dedupe_loop seen values
          | false ↦ email ∷ dedupe_loop (lower email ∷ seen) values
        ]
      ]

  unfoldable pub dedupe_emails : List Text → List Text
  dedupe_emails = dedupe_loop []

  -- An empty text is as falsy as `None`.
  unfoldable pub parse_recipients : Option Text → List Text
  parse_recipients none = []
  parse_recipients (some []) = []
  parse_recipients (some (c ∷ s)) = dedupe_emails (split_runs separator (c ∷ s))

  -- `hexdigest` is the hexadecimal SHA-256 of the UTF-8 bytes of a text.
  module _ (hexdigest : Text → Text) where
    unfoldable pub synthetic_email_user_id : List Text → Text
    unfolding join sorted text_lt
    synthetic_email_user_id email_recipients =
        text "email-ingest:"
        ++ take 16 (hexdigest (join (text "|") (sorted text_lt (map lower email_recipients))))
