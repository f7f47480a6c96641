-- ===== src/Recipients/Dedupe.antt =====
-- What the loop of `_dedupe_emails` keeps of pieces without separators.
use celine_grid.Prelude.{
  Text, ◌==◌, text_eq, contains, ◌≡◌, refl, true, false, not, ◌||◌, List, [], ◌∷◌, map, All, arith,
  if◌then◌else◌,
}
use celine_grid.Prelude.Perms.{Distinct}
use celine_grid.Prelude.Strings.{strip}
use celine_grid.Recipients.{full_match, email_match, dedupe_loop}
use celine_grid.Recipients.Parse.{clean, clean→no_space, strip_of_no_space, chomp_of_no_space}

pub full_match-nil : full_match [] ≡ false
unfolding full_match
full_match-nil = refl

-- Such a piece is kept as it stands, if the pattern matches it.
test-clean :
    (item : Text)
    → clean item ≡ true
    → (strip item == [] || not (email_match (strip item))) ≡ not (full_match item)
unfolding email_match
test-clean item h =
    rw
      (
        strip_of_no_space item (clean→no_space item h),
        chomp_of_no_space item (clean→no_space item h),
      )
      (empty-or item)
  where
    empty-or : (s : Text) → (s == [] || not (full_match s)) ≡ not (full_match s)
    empty-or s = ground (arith, full_match-nil)

fresh-cons :
    (k : Text) (seen ks : List Text)
    → All (λ j. contains seen j ≡ false) ks
    → contains ks k ≡ false
    → All (λ j. contains (k ∷ seen) j ≡ false) ks
fresh-cons k seen [] fresh new = tt
fresh-cons k seen (j ∷ ks) fresh new = (ground arith, fresh-cons k seen ks fresh.1 (ground arith))

module _ (lower : Text → Text) where
  pub dedupe_loop-cons :
      (seen : List Text) (item : Text) (values : List Text)
      → clean item ≡ true
      → dedupe_loop lower seen (item ∷ values) ≡ (
          if full_match item
          then if contains seen (lower item)
            then dedupe_loop lower seen values
            else item ∷ dedupe_loop lower (lower item ∷ seen) values
          else dedupe_loop lower seen values)
  unfolding dedupe_loop
  dedupe_loop-cons seen item values h =
      ground (arith, test-clean item h, strip_of_no_space item (clean→no_space item h))

  pub dedupe_loop-nil : (seen : List Text) → dedupe_loop lower seen [] ≡ []
  unfolding dedupe_loop
  dedupe_loop-nil seen = refl

  abbrev pub keys : List Text → List Text
  keys = map lower

  pub loop-All :
      (seen values : List Text)
      → All (λ v. clean v ≡ true) values
      → All (λ e. (full_match e ≡ true) × (clean e ≡ true)) (dedupe_loop lower seen values)
  loop-All seen [] h = rw dedupe_loop-nil tt
  loop-All seen (v ∷ values) h =
      rw (dedupe_loop-cons seen v values h.0)
        (ground (arith, loop-All seen values h.1, loop-All (lower v ∷ seen) values h.1))

  -- What was seen before is not kept again.
  loop-unseen :
      (seen values : List Text) (k : Text)
      → All (λ v. clean v ≡ true) values
      → contains (keys (dedupe_loop lower seen values)) k ≡ true
      → contains seen k ≡ false
  loop-unseen seen [] k h c = cc (dedupe_loop-nil seen, c)
  loop-unseen seen (v ∷ values) k h c = ground (
    arith,
    dedupe_loop-cons seen v values h.0,
    loop-unseen seen values k h.1,
    loop-unseen (lower v ∷ seen) values k h.1,
  )

  pub loop-Distinct :
      (seen values : List Text)
      → All (λ v. clean v ≡ true) values
      → Distinct (keys (dedupe_loop lower seen values))
  loop-Distinct seen [] h = rw dedupe_loop-nil tt
  loop-Distinct seen (v ∷ values) h = rw (dedupe_loop-cons seen v values h.0) (
      ground (
        arith,
        loop-Distinct seen values h.1,
        loop-Distinct (lower v ∷ seen) values h.1,
        loop-unseen (lower v ∷ seen) values (lower v) h.1,
      ))

  -- Every piece that the pattern matches is kept, or its key is there already.
  pub loop_complete :
      (seen values : List Text) (p : Text)
      → All (λ v. clean v ≡ true) values
      → contains values p ≡ true
      → full_match p ≡ true
      → (contains seen (lower p) || contains (keys (dedupe_loop lower seen values)) (lower p))
        ≡ true
  loop_complete seen [] p h c m = cc
  loop_complete seen (v ∷ values) p h c m = ground (
    arith,
    dedupe_loop-cons seen v values h.0,
    loop_complete seen values p h.1,
    loop_complete (lower v ∷ seen) values p h.1,
  )

  -- A list of such addresses comes back as it is.
  pub loop-nodup :
      (seen values : List Text)
      → All (λ e. (full_match e ≡ true) × (clean e ≡ true)) values
      → All (λ k. contains seen k ≡ false) (keys values)
      → Distinct (keys values)
      → dedupe_loop lower seen values ≡ values
  loop-nodup seen [] h fresh d = dedupe_loop-nil seen
  loop-nodup seen (v ∷ values) h fresh d = ground (
    arith,
    dedupe_loop-cons seen v values h.0.1,
    loop-nodup (lower v ∷ seen) values h.1 (fresh-cons (lower v) seen (keys values) fresh.1 d.0)
        d.1,
  )
