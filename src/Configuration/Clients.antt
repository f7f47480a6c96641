-- ===== src/Configuration/Clients.antt =====
-- The clients of other services: `get_dt_client` of src/celine/grid/api/deps.py and `create_broker` of
-- src/celine/grid/services/pipeline_listener.py.
use celine_grid.Prelude.{Text, text, Bool, true, false, ◌&&◌, Option, none, some, [], ◌∷◌}
use celine_grid.Models.{http, Result, ok, raise}
use celine_grid.Startup.{PostureGuard}
use celine_grid.Configuration.{Settings}

-- The arguments of the SDK's `OidcClientCredentialsProvider`, and of a client.
pub record OidcProvider : Type 0 where
  pub base_url : Text
  pub client_id : Text
  pub client_secret : Text
  pub scope : Option Text

pub record ServiceClient : Type 0 where
  pub base_url : Text
  pub token_provider : OidcProvider

-- The clients that the module of the listener keeps, and what the broker signs in with.
pub record Clients : Type 0 where
  pub dt_client : Option ServiceClient
  pub nudging_client : Option ServiceClient
  pub mqtt_token_provider : Option OidcProvider

-- Before the service is started.
abbrev pub no_clients : Clients
no_clients = record { dt_client = none; nudging_client = none; mqtt_token_provider = none }

abbrev pub is_some {ℓ} : {A : Type ℓ} → Option A → Bool
is_some none = false
is_some (some a) = true

abbrev pub or_empty : Option Text → Text
or_empty none = []
or_empty (some t) = t

module _ (sdk : PostureGuard) (oidc_url : sdk.Oidc → Text) where
  unfoldable pub make_oidc_provider : Settings sdk → Option Text → OidcProvider
  make_oidc_provider settings scope = record {
    base_url = oidc_url settings.oidc;
    client_id = or_empty (sdk.client_id settings.oidc);
    client_secret = or_empty (sdk.client_secret settings.oidc);
    scope = scope;
  }

  -- The same of the listener's module.
  unfoldable pub make_listener_provider : Settings sdk → Option Text → OidcProvider
  make_listener_provider settings scope = record {
    base_url = oidc_url settings.oidc;
    client_id = or_empty (sdk.client_id settings.oidc);
    client_secret = or_empty (sdk.client_secret settings.oidc);
    scope = scope;
  }

  -- A missing URL and an empty one are the same.
  unfoldable pub client_for : Settings sdk → Option Text → Result ServiceClient
  client_for settings none = raise (http 503 (text "Digital Twin API not configured"))
  client_for settings (some []) = raise (http 503 (text "Digital Twin API not configured"))
  client_for settings (some (c ∷ url)) = ok (record {
    base_url = c ∷ url;
    token_provider = make_oidc_provider settings settings.service.dt_client_scope;
  })

  unfoldable pub get_dt_client : Settings sdk → Result ServiceClient
  get_dt_client settings = client_for settings settings.service.digital_twin_api_url

  -- Without a URL the client is left as it was.
  unfoldable pub dt_client_for :
      Settings sdk → Option Text → Option ServiceClient → Option ServiceClient
  dt_client_for settings none before = before
  dt_client_for settings (some []) before = before
  dt_client_for settings (some (c ∷ url)) before = some (record {
    base_url = c ∷ url;
    token_provider = make_listener_provider settings settings.service.dt_client_scope;
  })

  unfoldable pub create_broker : Settings sdk → Clients → Clients
  create_broker settings before = record {
    dt_client = dt_client_for settings settings.service.digital_twin_api_url before.dt_client;
    nudging_client = some (record {
      base_url = settings.service.nudging_api_url;
      token_provider = make_listener_provider settings settings.service.nudging_scope;
    });
    mqtt_token_provider = some (make_listener_provider settings none);
  }

-- Whether the listener has the clients that a dispatch needs.
abbrev pub initialised : Clients → Bool
initialised clients = is_some clients.dt_client && is_some clients.nudging_client
