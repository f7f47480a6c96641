-- ===== src/Configuration/Refusal.antt =====
-- Which configurations the service refuses to start with.
use celine_grid.Prelude.{
  Text, text, text_eq, ◌≡◌, refl, sym, ◌∙◌, subst, ap, Bool, true, false, Option, none, some, [],
  ◌⊎◌, inl, inr,
}
use celine_grid.Models.{Error, Result, ok, raise, ◌>>=◌}
use celine_grid.Policy.{Engine}
use celine_grid.Policy.Loading.{PolicyEngine, make_policy, is_loaded}
use celine_grid.Startup.{
  PostureGuard, Services, PostureSettings, build_guard, enforce_posture, and_then, start, lifespan,
}
use celine_grid.Startup.Order.{logged, World}
use celine_grid.Configuration.{
  getenv, Source, Settings, posture_settings, service_settings, pipeline_settings, oidc_default,
  settings,
}

-- The SDK outside development: a guard that has a violation refuses, and later checks keep it.
pub record IsHardened (sdk : PostureGuard) : Type 0 where
  pub has_violation : sdk.Guard → Bool
  pub same_secret :
      (name id : Text) (g : sdk.Guard)
      → has_violation (sdk.forbid_secret_equal_to_client_id name (some id) (some id) g) ≡ true
  pub added :
      (name what fix : Text) (g : sdk.Guard) → has_violation (sdk.add name what fix g) ≡ true
  pub kept :
      (oidc : sdk.Oidc) (g : sdk.Guard)
      → has_violation g ≡ true
      → has_violation (sdk.require_explicit_oidc oidc g) ≡ true
  pub refuses : (g : sdk.Guard) → has_violation g ≡ true → (e : Error) × (sdk.enforce g ≡ raise e)

module _ (sdk : PostureGuard) (hardened : IsHardened sdk) where
  open hardened use {has_violation, same_secret, added, kept, refuses}

  -- The secret of the client is its id.
  abbrev pub IsDefaultClient : sdk.Oidc → Type 0
  IsDefaultClient oidc =
      (id : Text) × (sdk.client_id oidc ≡ some id) × (sdk.client_secret oidc ≡ some id)

  build_guard-default_client :
      (cfg : PostureSettings sdk) (policy_loaded : Bool) (env : Option Text)
      → IsDefaultClient cfg.oidc
      → has_violation (build_guard sdk cfg policy_loaded env) ≡ true
  unfolding build_guard
  build_guard-default_client cfg true env (id, p, q) =
      rw (p, q) (kept cfg.oidc _ (same_secret _ id _))
  build_guard-default_client cfg false env h = added _ _ _ _

  build_guard-no_bundle :
      (cfg : PostureSettings sdk) (policy_loaded : Bool) (env : Option Text)
      → policy_loaded ≡ false
      → has_violation (build_guard sdk cfg policy_loaded env) ≡ true
  unfolding build_guard
  build_guard-no_bundle cfg policy_loaded env e = rw e (added _ _ _ _)

  module _ (services : Services) where
    -- The startup raises, and no service was called.
    abbrev pub IsRefused : PostureSettings sdk → Bool → services.World → Type 0
    IsRefused cfg policy_loaded w =
        (run : World sdk services → World sdk services)
        → (e : Error) × (lifespan sdk (logged services) cfg policy_loaded run (w, [])
            ≡ (raise e, (w, [])))

    violation-IsRefused :
        (cfg : PostureSettings sdk) (policy_loaded : Bool) (w : services.World)
        → has_violation (build_guard sdk cfg policy_loaded none) ≡ true
        → IsRefused cfg policy_loaded w
    unfolding lifespan start enforce_posture and_then
    violation-IsRefused cfg policy_loaded w h run = let (e, q) = refuses _ h in (e, rw q refl)

-- Without a directory of policies or the SDK's part for them there is no engine.
make_policy-none :
    (importable : Bool) (exists : Text → Bool) (engine_of : Text → Result PolicyEngine)
    (policies_dir : Text)
    → (importable ≡ false) ⊎ (exists policies_dir ≡ false)
    → make_policy importable exists engine_of policies_dir ≡ ok none
unfolding make_policy
make_policy-none false exists engine_of policies_dir h = refl
make_policy-none true exists engine_of policies_dir (inl h) = cc
make_policy-none true exists engine_of policies_dir (inr h) = rw h refl

is_loaded-none : (engine : Option Engine) → ok none ≡ ok engine → is_loaded engine ≡ false
unfolding is_loaded
is_loaded-none none e = refl
is_loaded-none (some engine) e = cc

module _ (sdk : PostureGuard) where
  -- The settings, if they can be read, have this provider.
  data HasOidc (oidc : sdk.Oidc) : Result (Settings sdk) → Type 0 where
    readable : (cfg : Settings sdk) → cfg.oidc ≡ oidc → HasOidc oidc (ok cfg)
    refused : (e : Error) → HasOidc oidc (raise e)

  oidc_of : {oidc : sdk.Oidc} {cfg : Settings sdk} → HasOidc oidc (ok cfg) → cfg.oidc ≡ oidc
  oidc_of (readable cfg e) = e

  >>=-HasOidc :
      {A : Type 0} (oidc : sdk.Oidc) (m : Result A) (f : A → Result (Settings sdk))
      → ((a : A) → HasOidc oidc (f a))
      → HasOidc oidc (m >>= f)
  >>=-HasOidc oidc (ok a) f h = h a
  >>=-HasOidc oidc (raise e) f h = refused e

  module _ (oidc_settings : Text → Text → Text → sdk.Oidc) (policies_default : Text) where
    settings-HasOidc :
        (source : Source) (env : Text → Option Text)
        → let oidc = oidc_default sdk oidc_settings policies_default env in
          source.field (text "oidc") oidc ≡ ok oidc
          → HasOidc oidc (settings sdk oidc_settings policies_default source env)
    unfolding settings
    settings-HasOidc source env e = rw e (
        >>=-HasOidc _ (service_settings source policies_default) _
          (λ service. >>=-HasOidc _ (pipeline_settings source) _ (λ pipeline. readable _ refl)))

-- The SDK's settings of the provider keep the client that they are made for.
pub record KeepsClient (sdk : PostureGuard) (oidc_settings : Text → Text → Text → sdk.Oidc)
    : Type 0 where
  pub id_lem :
      (audience id secret : Text) → sdk.client_id (oidc_settings audience id secret) ≡ some id
  pub secret_lem :
      (audience id secret : Text)
      → sdk.client_secret (oidc_settings audience id secret) ≡ some secret

module _ (sdk : PostureGuard) (hardened : IsHardened sdk) (services : Services)
    (oidc_settings : Text → Text → Text → sdk.Oidc) (keeps : KeepsClient sdk oidc_settings)
    (policies_default : Text) where
  default_client :
      (source : Source) (env : Text → Option Text) (cfg : Settings sdk)
      → let oidc = oidc_default sdk oidc_settings policies_default env in
        source.field (text "oidc") oidc ≡ ok oidc
        → settings sdk oidc_settings policies_default source env ≡ ok cfg
        → getenv env (text "CELINE_OIDC_CLIENT_ID") (text "svc-grid")
          ≡ getenv env (text "CELINE_OIDC_CLIENT_SECRET") (text "svc-grid")
        → IsDefaultClient sdk hardened cfg.oidc
  unfolding oidc_default
  default_client source env cfg e read same =
      let default =
        subst (HasOidc sdk (oidc_default sdk oidc_settings policies_default env)) read
          (settings-HasOidc sdk oidc_settings policies_default source env e) in
      rw (oidc_of sdk default) (
        getenv env (text "CELINE_OIDC_CLIENT_ID") (text "svc-grid"),
        keeps.id_lem _ _ _,
        keeps.secret_lem _ _ _ ∙ ap some (sym same),
      )

  -- Outside development, where the settings can be read, none of them replaces the default provider and
  -- the policy is made: with a client secret that equals the client id, both unset included, without
  -- the SDK's policies or without a directory for them, the service does not start: it raises and
  -- calls no service.
  pub settings-IsRefused :
      (source : Source) (env : Text → Option Text) (cfg : Settings sdk) (importable : Bool)
      (exists : Text → Bool) (engine_of : Text → Result PolicyEngine) (engine : Option Engine)
      (w : services.World)
      → let oidc = oidc_default sdk oidc_settings policies_default env in
        source.field (text "oidc") oidc ≡ ok oidc
        → settings sdk oidc_settings policies_default source env ≡ ok cfg
        → make_policy importable exists engine_of cfg.service.policies_dir ≡ ok engine
        → (getenv env (text "CELINE_OIDC_CLIENT_ID") (text "svc-grid")
            ≡ getenv env (text "CELINE_OIDC_CLIENT_SECRET") (text "svc-grid"))
          ⊎ (importable ≡ false)
          ⊎ (exists cfg.service.policies_dir ≡ false)
        → IsRefused sdk hardened services (posture_settings sdk cfg) (is_loaded engine) w
  unfolding posture_settings
  settings-IsRefused source env cfg importable exists engine_of engine w e read made (inl same) =
      violation-IsRefused sdk hardened services (posture_settings sdk cfg) (is_loaded engine) w (
        build_guard-default_client sdk hardened (posture_settings sdk cfg) (is_loaded engine) none
          (default_client source env cfg e read same))
  settings-IsRefused source env cfg importable exists engine_of engine w e read made (inr missing) =
      violation-IsRefused sdk hardened services (posture_settings sdk cfg) (is_loaded engine) w (
        build_guard-no_bundle sdk hardened (posture_settings sdk cfg) (is_loaded engine) none (
          is_loaded-none engine (
            sym (make_policy-none importable exists engine_of cfg.service.policies_dir missing)
            ∙ made)))
