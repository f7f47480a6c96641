-- ===== src/Startup/Order.antt =====
-- The order in which the startup calls the services.
use celine_grid.Prelude.{Bool, List, [], ◌∷◌, ◌++◌, ◌≡◌, refl}
use celine_grid.Models.{Error, Result, ok, raise}
use celine_grid.Startup.{
  Done, done, PostureGuard, Services, PostureSettings, enforce_posture, and_then, or_disconnect,
  listen, open_broker, open_database, start, passed, stop, lifespan,
}

pub data ServiceCall : Type 0 where
  initialises creates connects subscribes disconnects : ServiceCall

-- A call and what came of it.
abbrev pub Entry : Type 0
Entry = ServiceCall × Result Done

-- The services, with the list of the calls.
abbrev logging :
    {W : Type 0}
    → ServiceCall
    → (W → Result Done × W)
    → W × List Entry
    → Result Done × (W × List Entry)
logging call f w = let (r, w') = f w.0 in (r, (w', w.1 ++ ((call, r) ∷ [])))

abbrev pub logged : Services → Services
logged services = record {
  World = services.World × List Entry;
  init_db = logging initialises services.init_db;
  create_broker = logging creates services.create_broker;
  connect = logging connects services.connect;
  subscribe = logging subscribes services.subscribe;
  disconnect = logging disconnects services.disconnect;
}

-- What a startup that is not refused calls, by its result. The exception of a broker that cannot be
-- connected or subscribed to is lost: the result is that of disconnecting.
pub data IsTrace : Result Done → List Entry → Type 0 where
  no_database : (e : Error) → IsTrace (raise e) ((initialises, raise e) ∷ [])
  no_broker : (e : Error) → IsTrace (raise e) ((initialises, ok done) ∷ (creates, raise e) ∷ [])
  unconnected :
      (e : Error) (r : Result Done)
      → IsTrace r (
          (initialises, ok done) ∷ (creates, ok done) ∷ (connects, raise e) ∷ (disconnects, r) ∷ [])
  unsubscribed :
      (e : Error) (r : Result Done)
      → IsTrace r (
          (initialises, ok done)
          ∷ (creates, ok done)
          ∷ (connects, ok done)
          ∷ (subscribes, raise e)
          ∷ (disconnects, r)
          ∷ [])
  listening : IsTrace (ok done) (
      (initialises, ok done)
      ∷ (creates, ok done)
      ∷ (connects, ok done)
      ∷ (subscribes, ok done)
      ∷ [])

module _ (sdk : PostureGuard) (services : Services) where
  abbrev pub World : Type 0
  World = services.World × List Entry

  -- From no calls: a refused startup touches nothing, and any other one makes the calls of a trace.
  abbrev pub IsStart : Result Done → services.World → Result Done × World → Type 0
  IsStart (raise e) w out = out ≡ (raise e, (w, []))
  IsStart (ok u) w out = IsTrace out.0 out.1.1

  subscribed-IsTrace :
      (r : Result Done) (w : services.World)
      → let out = or_disconnect sdk (logged services) (
        r,
        (
          w,
          (initialises, ok done) ∷ (creates, ok done) ∷ (connects, ok done) ∷ (subscribes, r) ∷ [],
        ),
      ) in
        IsTrace out.0 out.1.1
  unfolding or_disconnect
  subscribed-IsTrace (ok done) w = listening
  subscribed-IsTrace (raise e) w = unsubscribed e _

  connected-IsTrace :
      (r : Result Done) (w : services.World)
      → let out = or_disconnect sdk (logged services) (
          and_then sdk
            (logged services)
            (r, (w, (initialises, ok done) ∷ (creates, ok done) ∷ (connects, r) ∷ []))
            (logging subscribes services.subscribe)) in
        IsTrace out.0 out.1.1
  unfolding and_then or_disconnect
  connected-IsTrace (ok done) w =
      subscribed-IsTrace (services.subscribe w).0 (services.subscribe w).1
  connected-IsTrace (raise e) w = unconnected e _

  created-IsTrace :
      (r : Result Done) (w : services.World)
      → let out =
          and_then sdk
            (logged services)
            (r, (w, (initialises, ok done) ∷ (creates, r) ∷ []))
            (listen sdk (logged services)) in
        IsTrace out.0 out.1.1
  unfolding and_then
  created-IsTrace (ok done) w = connected-IsTrace (services.connect w).0 (services.connect w).1
  created-IsTrace (raise e) w = no_broker e

  initialised-IsTrace :
      (r : Result Done) (w : services.World)
      → let out =
          and_then sdk
            (logged services)
            (r, (w, (initialises, r) ∷ []))
            (open_broker sdk (logged services)) in
        IsTrace out.0 out.1.1
  unfolding and_then
  initialised-IsTrace (ok done) w =
      created-IsTrace (services.create_broker w).0 (services.create_broker w).1
  initialised-IsTrace (raise e) w = no_database e

  enforced-IsStart :
      (r : Result Done) (w : services.World)
      → IsStart r w
          (and_then sdk (logged services) (r, (w, [])) (open_database sdk (logged services)))
  unfolding and_then
  enforced-IsStart (ok u) w = initialised-IsTrace (services.init_db w).0 (services.init_db w).1
  enforced-IsStart (raise e) w = refl

  start-IsStart :
      (cfg : PostureSettings sdk) (policy_loaded : Bool) (w : services.World)
      → IsStart
          (enforce_posture sdk cfg policy_loaded)
          w
          (start sdk (logged services) cfg policy_loaded (w, []))
  unfolding start
  start-IsStart cfg policy_loaded w = enforced-IsStart (enforce_posture sdk cfg policy_loaded) w

  -- The service runs only after a startup that returns, and then it stops without an exception, by
  -- one more disconnection.
  abbrev pub IsLife : (World → World) → Result Done × World → Result Done × World → Type 0
  IsLife run (raise e, w) out = out ≡ (raise e, w)
  IsLife run (ok u, w) out =
      (out.0 ≡ ok done)
      × (out.1.1 ≡ (run w).1 ++ ((disconnects, (services.disconnect (run w).0).0) ∷ []))

  lived :
      (run : World → World) (started : Result Done × World)
      → IsLife run started
          (and_then sdk (logged services) started (λ w'. stop sdk (logged services) (run w')))
  unfolding and_then stop passed
  lived run (raise e, w) = refl
  lived run (ok u, w) = (refl, refl)

  -- A startup that the guard refuses raises what the guard raises and calls nothing. Any other one
  -- initialises the database, creates the broker, connects it and subscribes, in this order and up to
  -- the first that raises. An exception of the database or the creation ends the startup. One of the
  -- connection or the subscription is passed over: the broker is disconnected, and the result of the
  -- startup is the result of that. The service runs only after a startup that returns, and then stops
  -- without an exception, by a disconnection.
  pub lifespan-IsLife :
      (cfg : PostureSettings sdk) (policy_loaded : Bool) (run : World → World) (w : services.World)
      → let started = start sdk (logged services) cfg policy_loaded (w, []) in
        IsStart (enforce_posture sdk cfg policy_loaded) w started
        × IsLife run started (lifespan sdk (logged services) cfg policy_loaded run (w, []))
  unfolding lifespan
  lifespan-IsLife cfg policy_loaded run w = (
    start-IsStart cfg policy_loaded w,
    lived run (start sdk (logged services) cfg policy_loaded (w, [])),
  )
