-- ===== src/Startup.antt =====
-- The start and the stop of the service: src/celine/grid/security/posture.py, and `lifespan` of
-- src/celine/grid/main.py.
pub mod Order
use celine_grid.Prelude.{Text, text, Bool, true, false, Option, none, if◌then◌else◌}
use celine_grid.Models.{Result, ok, raise}

-- What a call gives that returns nothing.
pub data Done : Type 0 where
  done : Done

-- The guard of the SDK: what it registers, and `enforce`, which returns or raises. `Oidc` is the
-- SDK's settings of the identity provider.
pub record PostureGuard : Type 1 where
  pub Guard : Type 0
  pub Oidc : Type 0
  pub client_id : Oidc → Option Text
  pub client_secret : Oidc → Option Text
  -- `PostureGuard(service, env=env)`
  pub guard_of : Text → Option Text → Guard
  pub forbid_dev_database_url : Text → Text → Guard → Guard
  pub forbid_secret_equal_to_client_id : Text → Option Text → Option Text → Guard → Guard
  pub require_explicit_oidc : Oidc → Guard → Guard
  -- the name of a setting, its problem and what mends it
  pub add : Text → Text → Text → Guard → Guard
  pub enforce : Guard → Result Done

-- What the startup uses of the database, the broker and its clients. A call that takes longer than
-- its timeout raises.
pub record Services : Type 1 where
  pub World : Type 0
  pub init_db : World → Result Done × World
  pub create_broker : World → Result Done × World
  pub connect : World → Result Done × World
  pub subscribe : World → Result Done × World
  pub disconnect : World → Result Done × World

module _ (sdk : PostureGuard) where
  open sdk use {
    Guard, Oidc, client_id, client_secret, guard_of, forbid_dev_database_url,
    forbid_secret_equal_to_client_id, require_explicit_oidc, add, enforce,
  }

  -- What the checks read of the settings; `no_bundle` is the text about a directory of policies
  -- without a bundle.
  pub record PostureSettings : Type 0 where
    pub database_url : Text
    pub oidc : Oidc
    pub no_bundle : Text

  unfoldable pub build_guard : PostureSettings → Bool → Option Text → Guard
  build_guard cfg policy_loaded env =
      let guard = require_explicit_oidc cfg.oidc (
        forbid_secret_equal_to_client_id (text "CELINE_OIDC_CLIENT_SECRET") (client_id cfg.oidc)
          (client_secret cfg.oidc)
          (forbid_dev_database_url (text "DATABASE_URL") cfg.database_url
            (guard_of (text "celine-grid") env))) in
      if policy_loaded
      then guard
      else add (text "CELINE_POLICIES_DIR") cfg.no_bundle
          (text "Ship policies/ with the service, or point CELINE_POLICIES_DIR at it.") guard

  unfoldable pub enforce_posture : PostureSettings → Bool → Result Done
  enforce_posture cfg policy_loaded = enforce (build_guard cfg policy_loaded none)

  module _ (services : Services) where
    open services use {World, init_db, create_broker, connect, subscribe, disconnect}

    -- One statement after another; an exception ends the block.
    unfoldable pub and_then :
        Result Done × World → (World → Result Done × World) → Result Done × World
    and_then (ok u, w) rest = rest w
    and_then (raise e, w) rest = (raise e, w)

    -- Both handlers disconnect: they differ in what they log.
    unfoldable pub or_disconnect : Result Done × World → Result Done × World
    or_disconnect (ok u, w) = (ok u, w)
    or_disconnect (raise e, w) = disconnect w

    abbrev pub listen : World → Result Done × World
    listen w = or_disconnect (and_then (connect w) subscribe)

    abbrev pub open_broker : World → Result Done × World
    open_broker w = and_then (create_broker w) listen

    abbrev pub open_database : World → Result Done × World
    open_database w = and_then (init_db w) open_broker

    -- `lifespan` up to the `yield`.
    unfoldable pub start : PostureSettings → Bool → World → Result Done × World
    start cfg policy_loaded w = and_then (enforce_posture cfg policy_loaded, w) open_database

    -- From the `yield` on: an exception is passed over.
    unfoldable pub passed : Result Done × World → Result Done × World
    passed (r, w) = (ok done, w)

    unfoldable pub stop : World → Result Done × World
    stop w = passed (disconnect w)

    -- The whole of it, with what happens while the service runs.
    unfoldable pub lifespan : PostureSettings → Bool → (World → World) → World → Result Done × World
    lifespan cfg policy_loaded run w = and_then (start cfg policy_loaded w) (λ w'. stop (run w'))
