-- ===== src/Input/Calls.antt =====
-- Histories of calls on one input session, in the order in which they take its lock.
use jackstay.Base.{ℕ, ◌≡◌, List, [], ◌∷◌}
use jackstay.Base.Result.{ok}
use jackstay.Input.Model.{Mode, Event, Geometry, Config, ExecutorOutcome}
use jackstay.Input.State.{State}
use jackstay.Input.Target.{
  Ticket, new, admit, next, complete, set_geometry, tick, resolve_failed_cleanup,
}
use jackstay.Input.Controller.{heartbeat, submit, reset_input, close, poll}
use jackstay.Input.Invariant.{IsValid}
use jackstay.Input.Executing.{new-IsValid, admit-IsValid, next-IsValid}
use jackstay.Input.Completing.{
  complete-IsValid, set_geometry-IsValid, tick-IsValid, resolve_failed_cleanup-IsValid,
}
use jackstay.Input.Submitting.{
  submit-IsValid, heartbeat-IsValid, reset_input-IsValid, close-IsValid, poll-IsValid,
}

-- The methods of `Target` and `Controller` that change the state, with the time where they read it:
-- `submits ticket now epoch sequence event`.
pub data Call : Type 0 where
  admits : Mode → ℕ → Call
  takes ticks : ℕ → Call
  answers : ℕ → ExecutorOutcome → Call
  moves : Geometry → Call
  resolves : Call
  beats : Ticket → ℕ → Call
  submits : Ticket → ℕ → ℕ → ℕ → Event → Call
  resets closes polls : Ticket → Call

unfoldable pub step : State → Call → State
step s (admits mode now) = (admit s mode now).0
step s (takes now) = (next s now).0
step s (ticks now) = tick s now
step s (answers id outcome) = (complete s id outcome).0
step s (moves g) = (set_geometry s g).0
step s resolves = (resolve_failed_cleanup s).0
step s (beats t now) = (heartbeat s t now).0
step s (submits t now epoch sequence e) = (submit s t now epoch sequence e).0
step s (resets t) = (reset_input s t).0
step s (closes t) = close s t
step s (polls t) = (poll s t).0

unfoldable pub run : State → List Call → State
run s [] = s
run s (c ∷ cs) = run (step s c) cs

step-IsValid : (s : State) (c : Call) → IsValid s → IsValid (step s c)
unfolding step
step-IsValid s (admits mode now) v = admit-IsValid s mode now v
step-IsValid s (takes now) v = next-IsValid s now v
step-IsValid s (ticks now) v = tick-IsValid s now v
step-IsValid s (answers id outcome) v = complete-IsValid s id outcome v
step-IsValid s (moves g) v = set_geometry-IsValid s g v
step-IsValid s resolves v = resolve_failed_cleanup-IsValid s v
step-IsValid s (beats t now) v = heartbeat-IsValid s t now v
step-IsValid s (submits t now epoch sequence e) v = submit-IsValid s t now epoch sequence e v
step-IsValid s (resets t) v = reset_input-IsValid s t v
step-IsValid s (closes t) v = close-IsValid s t v
step-IsValid s (polls t) v = poll-IsValid s t v

pub run-IsValid : (s : State) (cs : List Call) → IsValid s → IsValid (run s cs)
unfolding run
run-IsValid s [] v = v
run-IsValid s (c ∷ cs) v = run-IsValid (step s c) cs (step-IsValid s c v)

-- Whatever controllers, executor and host call, a session that starts from an accepted configuration
-- keeps its invariant: all queued work is the active controller's, of its current epoch and in rising
-- order of submission, after the work in flight; queue, bytes and held keys stay within the
-- configured limits, a press in flight included; a session without a controller has no work; and
-- after a failed cleanup no controller is active.
pub run-input-IsValid :
    (c : Config) (s : State) (cs : List Call) → new c ≡ ok s → IsValid (run s cs)
run-input-IsValid c s cs h = run-IsValid s cs (new-IsValid c h)
