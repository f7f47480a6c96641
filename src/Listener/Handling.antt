-- ===== src/Listener/Handling.antt =====
-- What the handler of a run does, with any dispatcher.
use celine_grid.Prelude.{
  ℕ, Text, text, text_eq, Bool, true, false, Option, some, List, [], ◌∷◌, ◌≡◌, refl, ◌⊎◌, inl, inr,
  Bool-cases, arith,
}
use celine_grid.Models.{Db, Error, Result, ok, raise}
use celine_grid.Dates.{Date}
use celine_grid.Listener.{
  PipelineSettings, PipelineRunEvent, networks_of, Handled, handled, is_relevant, then_rest,
  dispatch_each, on_dates, horizon_of, on_pipeline_run,
}

-- A completed run of the flow of the settings, with alerts on.
abbrev pub Counts : PipelineSettings → PipelineRunEvent → Type 0
Counts settings event =
    (event.status ≡ text "completed")
    × (event.flow ≡ settings.grid_pipeline_flow)
    × (settings.grid_alerts_enabled ≡ true)

is_relevant-Counts :
    (settings : PipelineSettings) (event : PipelineRunEvent)
    → is_relevant settings event ≡ true
    → Counts settings event
unfolding is_relevant
is_relevant-Counts settings event h = ground arith

Counts-is_relevant :
    (settings : PipelineSettings) (event : PipelineRunEvent)
    → is_relevant settings event ≡ false
    → ¬ Counts settings event
unfolding is_relevant
Counts-is_relevant settings event h (status, flow, enabled) = ground arith

module _ {W : Type 0} (dispatch : Text → List Text → W → Result ℕ × W) where
  -- The networks are dispatched one after the other, each in the world that the one before left; the
  -- first that raises is the last, and its exception the handler's.
  pub data Runs (dates : List Text) : List Text → W → Result Handled × W → Type 0 where
    all_done : (w : W) → Runs dates [] w (ok handled, w)
    raised :
        (n : Text) (networks : List Text) (w w' : W) (e : Error)
        → dispatch n dates w ≡ (raise e, w')
        → Runs dates (n ∷ networks) w (raise e, w')
    then_others :
        (n : Text) (networks : List Text) (w w' : W) (count : ℕ) (out : Result Handled × W)
        → dispatch n dates w ≡ (ok count, w')
        → Runs dates networks w' out
        → Runs dates (n ∷ networks) w out

  then_rest-Runs :
      (n : Text) (networks dates : List Text) (w : W) (sent : Result ℕ × W)
      → dispatch n dates w ≡ sent
      → ((w' : W) → Runs dates networks w' (dispatch_each dispatch networks dates w'))
      → Runs dates
          (n ∷ networks)
          w
          (then_rest dispatch sent (λ w'. dispatch_each dispatch networks dates w'))
  unfolding then_rest
  then_rest-Runs n networks dates w (raise x, w') e rest = raised n networks w w' x e
  then_rest-Runs n networks dates w (ok count, w') e rest =
      then_others n networks w w' count _ e (rest w')

  dispatch_each-Runs :
      (networks dates : List Text) (w : W)
      → Runs dates networks w (dispatch_each dispatch networks dates w)
  unfolding dispatch_each
  dispatch_each-Runs [] dates w = all_done w
  dispatch_each-Runs (n ∷ networks) dates w =
      then_rest-Runs n networks dates w (dispatch n dates w) refl
        (λ w'. dispatch_each-Runs networks dates w')

  -- What became of a run that counts: its horizon raises, there are no clients, or its networks are
  -- dispatched.
  abbrev pub IsDone :
      PipelineSettings
      → Bool
      → Db
      → PipelineRunEvent
      → W
      → Result (List Text)
      → Result Handled × W
      → Type 0
  IsDone settings initialised db event w (raise x) out = out ≡ (raise x, w)
  IsDone settings initialised db event w (ok dates) out =
      (initialised ≡ false) × (out ≡ (ok handled, w))
      ⊎ (initialised ≡ true) × Runs dates (networks_of settings event db) w out

  on_dates-IsDone :
      (settings : PipelineSettings) (initialised : Bool) (db : Db) (event : PipelineRunEvent)
      (h : Result (List Text)) (w : W)
      → IsDone settings initialised db event w h
          (on_dates dispatch settings initialised db event h w)
  unfolding on_dates
  on_dates-IsDone settings initialised db event (raise x) w = refl
  on_dates-IsDone settings false db event (ok dates) w = inl (refl, refl)
  on_dates-IsDone settings true db event (ok dates) w =
      inr (refl, dispatch_each-Runs (networks_of settings event db) dates w)

  module _ (is_digit : ℕ → Bool) (datetime_fromisoformat : Text → Option Date)
      (today : W → Date) where
    -- What became of an event.
    abbrev pub IsHandled :
        PipelineSettings → Bool → Db → PipelineRunEvent → W → Result Handled × W → Type 0
    IsHandled settings initialised db event w out =
        (¬ Counts settings event) × (out ≡ (ok handled, w))
        ⊎ Counts settings event
          × IsDone settings initialised db event w
              (horizon_of dispatch is_digit datetime_fromisoformat today settings event w) out

    -- Whatever the dispatches do, the handler of an event ends. Where it is a completed run of the
    -- flow with alerts on: if its horizon raises, so does the handler, and calls nothing; if there are
    -- no clients, it calls nothing; and otherwise it dispatches the networks of the run for the dates
    -- of the horizon, one after the other, until one raises, whose exception it raises, or else to the
    -- last, and returns. For any other event it returns and calls nothing.
    pub on_pipeline_run-IsHandled :
        (settings : PipelineSettings) (initialised : Bool) (db : Db) (event : PipelineRunEvent)
        (w : W)
        → IsHandled settings initialised db event w (
            on_pipeline_run dispatch is_digit datetime_fromisoformat today settings initialised db
              (some event)
              w)
    unfolding on_pipeline_run
    on_pipeline_run-IsHandled settings initialised db event w =
        elim (Bool-cases (is_relevant settings event)) [
          | inl yes_ ↦ rw yes_ (
              inr (
                is_relevant-Counts settings event yes_,
                on_dates-IsDone settings initialised db event
                    (horizon_of dispatch is_digit datetime_fromisoformat today settings event w) w,
              ))
          | inr no_ ↦ rw no_ (inl (Counts-is_relevant settings event no_, refl))
        ]
