-- ===== src/Policy/Loading.antt =====
-- The engine that the policy is made with: `GridAccessPolicy` of src/celine/grid/security/policy.py.
use celine_grid.Prelude.{
  Text, text, ◌==◌, text_eq, Bool, true, false, ◌||◌, Option, none, some, if◌then◌else◌,
}
use celine_grid.Models.{Error, exception, Result, ok, raise}
use celine_grid.Policy.{Engine}
use celine_grid.Startup.{Done}

-- An engine of the SDK: what loading it gives, and how it decides without and with its bundle.
pub record PolicyEngine : Type 0 where
  pub load : Result Done
  pub unloaded : Engine
  pub loaded : Engine

-- `except ImportError`, which takes its subclass too.
abbrev pub is_import_error : Error → Bool
is_import_error (exception name) = name == text "ImportError" || name == text "ModuleNotFoundError"
is_import_error e = false

-- An engine that was made stays, also if loading it is an import that fails.
unfoldable pub after_load : PolicyEngine → Result Done → Result (Option Engine)
after_load engine (ok u) = ok (some engine.loaded)
after_load engine (raise e) = if is_import_error e then ok (some engine.unloaded) else raise e

unfoldable pub after_making : Result PolicyEngine → Result (Option Engine)
after_making (ok engine) = after_load engine engine.load
after_making (raise e) = if is_import_error e then ok none else raise e

-- `importable` tells whether the SDK has policies, `exists` whether there is a directory, and
-- `engine_of` is `PolicyEngine(policies_dir=…)`.
unfoldable pub make_policy :
    Bool → (Text → Bool) → (Text → Result PolicyEngine) → Text → Result (Option Engine)
make_policy importable exists engine_of policies_dir =
    if importable
    then (if exists policies_dir then after_making (engine_of policies_dir) else ok none)
    else ok none

-- `loaded`
unfoldable pub is_loaded : Option Engine → Bool
is_loaded none = false
is_loaded (some engine) = true
