-- ===== src/Values.antt =====
-- Python's values as the program meets them: JSON documents and numbers.
-- A float and what Python computes with it are parameters: `Floats` has the operations that the
-- program uses, with no laws. The integers of a document have no bound.
pub mod Order
use celine_grid.Prelude.Int.{ℤ}
use celine_grid.Prelude.{ℕ, Text, ◌==◌, text_eq, Bool, Option, List, [], ◌∷◌, if◌then◌else◌}

pub record Floats : Type 1 where
  pub F : Type 0
  -- the literals 0.0, 1.0, 0.5 and 100.0
  pub zero : F
  pub one : F
  pub half : F
  pub hundred : F
  pub add : F → F → F
  pub mul : F → F → F
  pub div : F → F → F
  pub neg : F → F
  -- `sum` and `round(x, n)`
  pub sum : List F → F
  pub round : F → ℕ → F
  pub lt : F → F → Bool
  pub eq : F → F → Bool
  -- the truth value
  pub nonzero : F → Bool
  -- `float(s)` of a text; `none` is a `ValueError`
  pub parse : Text → Option F
  -- `float(n)` of an integer; `none` is an `OverflowError`
  pub of_int : ℤ → Option F

mutual
  pub data Value (F : Type 0) : Type 0 where
    null : Value F
    boolean : Bool → Value F
    number : F → Value F
    integer : ℤ → Value F
    string : Text → Value F
    array : Items F → Value F
    object : Fields F → Value F

  pub data Items (F : Type 0) : Type 0 where
    nil : Items F
    cons : Value F → Items F → Items F

  pub data Fields (F : Type 0) : Type 0 where
    end : Fields F
    field : Text → Value F → Fields F → Fields F

-- A `dict` with text keys.
abbrev pub Row : Type 0 → Type 0
Row F = List (Text × Value F)

-- `row.get(key)`: a missing key reads as `None`.
unfoldable pub get : {F : Type 0} → Row F → Text → Value F
get [] k = null
get ((j, v) ∷ row) k = if j == k then v else get row k
