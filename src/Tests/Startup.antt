-- ===== src/Tests/Startup.antt =====
-- A startup in development whose broker cannot be reached.
use celine_grid.Prelude.{ℕ, Text, text, Bool, true, false, Option, none, [], ◌∷◌, ◌≡◌, refl}
use celine_grid.Models.{ok, raise, exception}
use celine_grid.Startup.{
  done, PostureGuard, Services, PostureSettings, build_guard, enforce_posture, and_then,
  or_disconnect, start, passed, stop, lifespan,
}
use celine_grid.Startup.Order.{
  initialises, creates, connects, disconnects, logged, IsStart, IsLife, lifespan-IsLife, World,
}

-- A guard that counts nothing but refuses once something is added.
abbrev guard : PostureGuard
guard = record {
  Guard = Bool;
  Oidc = Option Text;
  client_id = λ oidc. oidc;
  client_secret = λ oidc. oidc;
  guard_of = λ service env. true;
  forbid_dev_database_url = λ name url g. g;
  forbid_secret_equal_to_client_id = λ name id secret g. g;
  require_explicit_oidc = λ oidc g. g;
  add = λ name what fix g. false;
  enforce =
      λ g. elim g [ true ↦ ok done | false ↦ raise (exception (text "InsecureConfiguration")) ];
}

abbrev pub unreachable : Services
unreachable = record {
  World = ℕ;
  init_db = λ w. (ok done, w);
  create_broker = λ w. (ok done, w);
  connect = λ w. (raise (exception (text "TimeoutError")), w);
  subscribe = λ w. (ok done, w);
  disconnect = λ w. (ok done, w);
}

abbrev cfg : PostureSettings guard
cfg = record { database_url = text "postgresql://db"; oidc = none; no_bundle = text "no bundle" }

abbrev serves : World guard unreachable → World guard unreachable
serves w = w

calls_made :
    (lifespan guard (logged unreachable) cfg true serves (0, []) ≡ (
      ok done,
      (
        0,
        (initialises, ok done)
            ∷ (creates, ok done)
            ∷ (connects, raise (exception (text "TimeoutError")))
            ∷ (disconnects, ok done)
            ∷ (disconnects, ok done)
            ∷ [],
      ),
    ))
    × (lifespan guard (logged unreachable) cfg false serves (0, [])
        ≡ (raise (exception (text "InsecureConfiguration")), (0, [])))
unfolding lifespan start stop passed and_then or_disconnect enforce_posture build_guard
calls_made = (refl, refl)

lifespan-IsLife_example :
    let started = start guard (logged unreachable) cfg true (0, []) in
    IsStart guard unreachable (enforce_posture guard cfg true) 0 started
    × IsLife guard unreachable serves started
        (lifespan guard (logged unreachable) cfg true serves (0, []))
lifespan-IsLife_example = lifespan-IsLife guard unreachable cfg true serves 0
