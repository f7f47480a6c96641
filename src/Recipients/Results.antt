-- ===== src/Recipients/Results.antt =====
-- The lists of addresses that `parse_recipients` returns, and the id of such a list.
use mathlib.Core.List.{Perm, append-nil, append_assoc}
use celine_grid.Prelude.{
  ℕ, Text, text, text_eq, contains, ◌≡◌, refl, ◌∙◌, ap, sym, Bool, true, false, Option, none, some,
  List, [], ◌∷◌, ◌++◌, map, All, arith, sorted-eq_of_perm,
}
use celine_grid.Prelude.Strings.{pieces, split_runs, join}
use celine_grid.Recipients.{
  separator, full_match, dedupe_emails, parse_recipients, synthetic_email_user_id,
}
use celine_grid.Recipients.Match.{IsEmail, full_match_iff}
use celine_grid.Recipients.Parse.{clean, pieces-clean}
use celine_grid.Prelude.Perms.{Distinct}
use celine_grid.Recipients.Dedupe.{
  loop-All, loop-Distinct, loop_complete, loop-nodup, full_match-nil,
}

split_runs-clean : (s : Text) → All (λ p. clean p ≡ true) (split_runs separator s)
unfolding split_runs
split_runs-clean s = pieces-clean [] false s refl

emails :
    (es : List Text)
    → All (λ e. (full_match e ≡ true) × (clean e ≡ true)) es
    → All (λ e. IsEmail e × (clean e ≡ true)) es
emails [] h = tt
emails (e ∷ es) h = (((full_match_iff e).0 h.0.0, h.0.1), emails es h.1)

-- What follows the first word of a list that is joined by commas.
abbrev rest_of : List Text → Text
rest_of [] = []
rest_of (w ∷ ws) = b',' ∷ (w ++ rest_of ws)

join-nil : join (text ",") [] ≡ []
unfolding join
join-nil = refl

join-cons : (w : Text) (ws : List Text) → join (text ",") (w ∷ ws) ≡ w ++ rest_of ws
unfolding join
join-cons w [] = sym (append-nil w)
join-cons w (v ∷ ws) = ap (λ t. w ++ b',' ∷ t) (join-cons v ws)

pieces-nil : (cur : Text) (skipping : Bool) → pieces separator cur skipping [] ≡ cur ∷ []
unfolding pieces
pieces-nil cur skipping = refl

pieces_of_word :
    (cur w rest : Text)
    → clean w ≡ true
    → pieces separator cur false (w ++ rest) ≡ pieces separator (cur ++ w) false rest
unfolding pieces
pieces_of_word cur [] rest h = rw append-nil
pieces_of_word cur (c ∷ w) rest h =
    rw (other, pieces) (pieces_of_word (cur ++ (c ∷ [])) w rest (ground arith) ∙ rw append_assoc)
  where
    other : separator c ≡ false
    other = ground arith

pieces_of_first :
    (c : ℕ) (w rest : Text)
    → clean (c ∷ w) ≡ true
    → pieces separator [] true (c ∷ (w ++ rest)) ≡ pieces separator (c ∷ w) false rest
unfolding pieces
pieces_of_first c w rest h = rw (other, pieces) (pieces_of_word (c ∷ []) w rest (ground arith))
  where
    other : separator c ≡ false
    other = ground arith

comma : separator b',' ≡ true
unfolding separator
comma = refl

pieces_of_comma :
    (cur rest : Text)
    → pieces separator cur false (b',' ∷ rest) ≡ cur ∷ pieces separator [] true rest
unfolding pieces
pieces_of_comma cur rest = rw (comma, pieces)

pieces_of_rest :
    (cur : Text) (ws : List Text)
    → All (λ w. (full_match w ≡ true) × (clean w ≡ true)) ws
    → pieces separator cur false (rest_of ws) ≡ cur ∷ ws
pieces_of_rest cur [] h = pieces-nil cur false
pieces_of_rest cur ([] ∷ ws) h = cc (h.0.0, full_match-nil)
pieces_of_rest cur ((c ∷ w) ∷ ws) h =
    pieces_of_comma cur ((c ∷ w) ++ rest_of ws)
    ∙ ap (◌∷◌ cur) (pieces_of_first c w (rest_of ws) h.0.1 ∙ pieces_of_rest (c ∷ w) ws h.1)

split_runs-join :
    (c : ℕ) (w : Text) (ws : List Text)
    → All (λ v. (full_match v ≡ true) × (clean v ≡ true)) ((c ∷ w) ∷ ws)
    → split_runs separator ((c ∷ w) ++ rest_of ws) ≡ (c ∷ w) ∷ ws
unfolding split_runs
split_runs-join c w ws h =
    pieces_of_word [] (c ∷ w) (rest_of ws) h.0.1 ∙ pieces_of_rest (c ∷ w) ws h.1

All-unseen : (ks : List Text) → All (λ k. contains [] k ≡ false) ks
All-unseen [] = tt
All-unseen (k ∷ ks) = (refl, All-unseen ks)

module _ (lower : Text → Text) where
  good :
      (value : Option Text)
      → All (λ e. (full_match e ≡ true) × (clean e ≡ true)) (parse_recipients lower value)
  unfolding parse_recipients dedupe_emails
  good none = tt
  good (some []) = tt
  good (some (c ∷ s)) = loop-All lower [] _ (split_runs-clean (c ∷ s))

  distinct : (value : Option Text) → Distinct (map lower (parse_recipients lower value))
  unfolding parse_recipients dedupe_emails
  distinct none = tt
  distinct (some []) = tt
  distinct (some (c ∷ s)) = loop-Distinct lower [] _ (split_runs-clean (c ∷ s))

  reparse :
      (es : List Text)
      → All (λ e. (full_match e ≡ true) × (clean e ≡ true)) es
      → Distinct (map lower es)
      → parse_recipients lower (some (join (text ",") es)) ≡ es
  unfolding parse_recipients dedupe_emails
  reparse [] h d = rw join-nil
  reparse ([] ∷ ws) h d = cc (h.0.0, full_match-nil)
  reparse ((c ∷ w) ∷ ws) h d =
      rw (join-cons (c ∷ w) ws, split_runs-join c w ws h)
        (loop-nodup lower [] ((c ∷ w) ∷ ws) h (All-unseen (map lower ((c ∷ w) ∷ ws))) d)

  -- Every recipient is matched by the pattern of an address and holds no separator, and no two
  -- recipients are the same in lower case.
  pub parse_recipients_valid :
      (value : Option Text)
      → All (λ e. IsEmail e × (clean e ≡ true)) (parse_recipients lower value)
        × Distinct (map lower (parse_recipients lower value))
  parse_recipients_valid value = (emails _ (good value), distinct value)

  -- No address of the text is lost: each piece between separators that the pattern matches is among
  -- the recipients, up to lower case.
  pub parse_recipients_complete :
      (value p : Text)
      → contains (split_runs separator value) p ≡ true
      → full_match p ≡ true
      → contains (map lower (parse_recipients lower (some value))) (lower p) ≡ true
  unfolding parse_recipients dedupe_emails split_runs pieces
  parse_recipients_complete [] p h m = ground (arith, full_match-nil)
  parse_recipients_complete (c ∷ s) p h m =
      loop_complete lower [] (split_runs separator (c ∷ s)) p (split_runs-clean (c ∷ s)) h m

  -- Joined by commas, the recipients are read back unchanged, in the same order.
  pub parse_recipients-join :
      (value : Option Text)
      → let es = parse_recipients lower value in
        parse_recipients lower (some (join (text ",") es)) ≡ es
  parse_recipients-join value = reparse (parse_recipients lower value) (good value) (distinct value)

  module _ (hexdigest : Text → Text) where
    -- The id of a list of recipients forgets their order and their case.
    pub synthetic_email_user_id-perm :
        (xs ys : List Text)
        → Perm (map lower xs) (map lower ys)
        → synthetic_email_user_id lower hexdigest xs ≡ synthetic_email_user_id lower hexdigest ys
    unfolding synthetic_email_user_id
    synthetic_email_user_id-perm xs ys p = rw (sorted-eq_of_perm p)
