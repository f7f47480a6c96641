-- ===== src/Prelude/Strings.antt =====
-- The operations of Python's `str`, and its regular expressions' `\s` and `re.split`.
-- Lowercasing and the class of letters need the Unicode tables: they are parameters.
use mathlib.Core.List.{reverse}
use celine_grid.Prelude.Equality.{Text}
use celine_grid.Prelude.Tests.{leb, eqb, if◌then◌else◌}
use Prim.Native.Nat.{ℕ}
use mathlib.Core.Bool.{Bool, true, false, ◌&&◌, ◌||◌}
use mathlib.Core.List.{List, [], ◌∷◌, ◌++◌}

-- What `\s` matches in a `str` pattern and `str.strip` removes.
unfoldable pub is_space : ℕ → Bool
is_space c =
    leb 9 c && leb c 13
    || leb 28 c && leb c 32
    || eqb c 133
    || eqb c 160
    || eqb c 5760
    || leb 8192 c && leb c 8202
    || eqb c 8232
    || eqb c 8233
    || eqb c 8239
    || eqb c 8287
    || eqb c 12288

unfoldable pub drop_while : (ℕ → Bool) → Text → Text
drop_while p [] = []
drop_while p (c ∷ s) = let rest = drop_while p s in if p c then rest else c ∷ s

-- `s.strip()`
unfoldable pub strip : Text → Text
unfolding is_space drop_while
strip s = reverse (drop_while is_space (reverse (drop_while is_space s)))

unfoldable pub starts_with : Text → Text → Bool
starts_with s [] = true
starts_with [] (d ∷ t) = false
starts_with (c ∷ s) (d ∷ t) = eqb c d && starts_with s t

unfoldable pub ends_with : Text → Text → Bool
unfolding starts_with
ends_with s t = starts_with (reverse s) (reverse t)

-- `re.split` by runs of a class of characters: `cur` is the piece that is being read, and the
-- flag says whether the last character was a separator.
unfoldable pub pieces : (ℕ → Bool) → Text → Bool → Text → List Text
pieces sep cur skipping [] = cur ∷ []
pieces sep cur true (c ∷ s) = elim (sep c) [
  | true ↦ pieces sep [] true s
  | false ↦ pieces sep (c ∷ []) false s
]
pieces sep cur false (c ∷ s) = elim (sep c) [
  | true ↦ cur ∷ pieces sep [] true s
  | false ↦ pieces sep (cur ++ (c ∷ [])) false s
]

unfoldable pub split_runs : (ℕ → Bool) → Text → List Text
unfolding pieces
split_runs sep s = pieces sep [] false s

-- `sep.join(words)`
unfoldable pub join : Text → List Text → Text
join sep [] = []
join sep (w ∷ []) = w
join sep (w ∷ v ∷ ws) = w ++ (sep ++ join sep (v ∷ ws))

-- `s.partition(c)` of one character: what stands before the first, and after it.
unfoldable pub before_first : ℕ → Text → Text
before_first c [] = []
before_first c (d ∷ s) = let rest = before_first c s in if eqb d c then [] else d ∷ rest

unfoldable pub after_first : ℕ → Text → Text
after_first c [] = []
after_first c (d ∷ s) = let rest = after_first c s in if eqb d c then s else rest

-- `s.split(c)` by one character; there is at least one piece.
abbrev pub onto_first : ℕ → List Text → List Text
onto_first d [] = (d ∷ []) ∷ []
onto_first d (piece ∷ rest) = (d ∷ piece) ∷ rest

unfoldable pub split : ℕ → Text → List Text
split c [] = [] ∷ []
split c (d ∷ s) = let rest = split c s in if eqb d c then [] ∷ rest else onto_first d rest
