-- ===== src/Tests/Recipients.antt =====
-- Recipients at concrete texts.
use celine_grid.Prelude.{
  Text, text, text_eq, ◌≡◌, refl, ◌↔◌, contains, true, false, some, List, [], ◌∷◌, map, All,
}
use celine_grid.Prelude.Strings.{strip, drop_while, is_space, pieces, split_runs}
use celine_grid.Prelude.Perms.{Distinct}
use celine_grid.Recipients.{
  plain, inner_stop, host, after_local, full_match, chomp, email_match, separator, dedupe_loop,
  dedupe_emails, parse_recipients,
}
use celine_grid.Recipients.Match.{IsEmail, full_match_iff}
use celine_grid.Recipients.Parse.{clean}
use celine_grid.Recipients.Results.{parse_recipients_valid, parse_recipients_complete}
use celine_grid.Tests.Data.{ascii_lower}

abbrev typed : Text
typed = text " ops@dso.it; Ops@DSO.it,\nno-at.it night@dso.example.it "

-- The second spelling of an address is dropped, and what is no address is skipped.
parsed :
    parse_recipients ascii_lower (some typed) ≡ text "ops@dso.it" ∷ text "night@dso.example.it" ∷ []
unfolding parse_recipients dedupe_emails dedupe_loop split_runs pieces separator is_space strip
    drop_while email_match full_match after_local host inner_stop plain chomp text_eq
parsed = refl

trailing_newline : (email_match (text "a@b.c\n") ≡ true) × (email_match (text "a@b.") ≡ false)
unfolding email_match full_match after_local host inner_stop plain chomp
trailing_newline = (refl, refl)

abbrev recipients : List Text
recipients = text "ops@dso.it" ∷ text "night@dso.example.it" ∷ []

full_match_iff_example : (full_match (text "ops@dso.it") ≡ true) ↔ IsEmail (text "ops@dso.it")
full_match_iff_example = full_match_iff (text "ops@dso.it")

parse_recipients_valid_example :
    All (λ e. IsEmail e × (clean e ≡ true)) (parse_recipients ascii_lower (some typed))
    × Distinct (map ascii_lower (parse_recipients ascii_lower (some typed)))
parse_recipients_valid_example = parse_recipients_valid ascii_lower (some typed)

parse_recipients_complete_example :
    contains
      (map ascii_lower (parse_recipients ascii_lower (some typed)))
      (ascii_lower (text "Ops@DSO.it"))
    ≡ true
unfolding split_runs pieces separator is_space text_eq full_match after_local host inner_stop plain
parse_recipients_complete_example =
    parse_recipients_complete ascii_lower typed (text "Ops@DSO.it") refl refl
