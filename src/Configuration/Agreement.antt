-- ===== src/Configuration/Agreement.antt =====
-- The proxy and the listener have a client of the Digital Twin for the same settings.
use celine_grid.Prelude.{
  ℕ, Text, text, Bool, true, false, Option, none, some, List, [], ◌∷◌, ◌≡◌, refl, ◌⊎◌, inl, inr,
  Bool-cases,
}
use celine_grid.Models.{Db, http, Result, ok, raise}
use celine_grid.Dates.{Date}
use celine_grid.Startup.{PostureGuard}
use celine_grid.Listener.{
  PipelineSettings, PipelineRunEvent, is_relevant, on_dates, on_pipeline_run,
}
use celine_grid.Configuration.{Settings}
use celine_grid.Configuration.Clients.{
  ServiceClient, no_clients, initialised, make_oidc_provider, make_listener_provider, client_for,
  get_dt_client, dt_client_for, create_broker,
}

-- Without clients the handler changes nothing, whatever the message.
module _ {W : Type 0} (dispatch : Text → List Text → W → Result ℕ × W) (is_digit : ℕ → Bool)
    (datetime_fromisoformat : Text → Option Date) (today : W → Date) where
  on_dates-silent :
      (settings : PipelineSettings) (db : Db) (event : PipelineRunEvent) (h : Result (List Text))
      (w : W)
      → (on_dates dispatch settings false db event h w).1 ≡ w
  unfolding on_dates
  on_dates-silent settings db event (ok dates) w = refl
  on_dates-silent settings db event (raise e) w = refl

  on_pipeline_run-silent :
      (settings : PipelineSettings) (db : Db) (event : Option PipelineRunEvent) (w : W)
      → (on_pipeline_run dispatch is_digit datetime_fromisoformat today settings false db event w).1
        ≡ w
  unfolding on_pipeline_run
  on_pipeline_run-silent settings db none w = refl
  on_pipeline_run-silent settings db (some event) w =
      elim (Bool-cases (is_relevant settings event)) [
        | inl counts ↦ rw counts (on_dates-silent settings db event _ w)
        | inr other ↦ rw other refl
      ]

  module _ (sdk : PostureGuard) (oidc_url : sdk.Oidc → Text) (settings : Settings sdk) where
    -- Both have the same client.
    abbrev pub HasClients : Result ServiceClient → Option ServiceClient → Bool → Type 0
    HasClients requested listening ready =
        (c : ServiceClient) × (requested ≡ ok c) × (listening ≡ some c) × (ready ≡ true)

    -- Neither has one: a request is answered with 503, and the handler does nothing.
    abbrev pub HasNoClients : Result ServiceClient → Bool → Type 0
    HasNoClients requested ready =
        (requested ≡ raise (http 503 (text "Digital Twin API not configured")))
        × ((db : Db) (event : Option PipelineRunEvent) (w : W)
            → (on_pipeline_run dispatch is_digit datetime_fromisoformat today settings.pipeline
                ready db event w).1
              ≡ w)

    abbrev ready_for : Option Text → Bool
    ready_for url = initialised (record {
      dt_client = dt_client_for sdk oidc_url settings url none;
      nudging_client = (create_broker sdk oidc_url settings no_clients).nudging_client;
      mqtt_token_provider = none;
    })

    for_url :
        (url : Option Text)
        → HasClients
            (client_for sdk oidc_url settings url)
            (dt_client_for sdk oidc_url settings url none)
            (ready_for url)
          ⊎ HasNoClients (client_for sdk oidc_url settings url) (ready_for url)
    unfolding client_for dt_client_for create_broker make_oidc_provider make_listener_provider
    for_url none = inr (refl, λ db event w. on_pipeline_run-silent settings.pipeline db event w)
    for_url (some []) =
        inr (refl, λ db event w. on_pipeline_run-silent settings.pipeline db event w)
    for_url (some (c ∷ url)) = inl (_, refl, refl, refl)

    -- Once the broker is created, the listener can dispatch and has the client, with the same URL and
    -- credentials, that a request to the proxy gets; or a request is answered with 503, and the handler
    -- of the listener makes no call and changes nothing, whatever the message.
    pub clients_agree :
        let clients = create_broker sdk oidc_url settings no_clients in
        HasClients (get_dt_client sdk oidc_url settings) clients.dt_client (initialised clients)
        ⊎ HasNoClients (get_dt_client sdk oidc_url settings) (initialised clients)
    unfolding get_dt_client create_broker
    clients_agree = for_url settings.service.digital_twin_api_url
