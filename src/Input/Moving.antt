-- ===== src/Input/Moving.antt =====
-- What a change of geometry does to the queue.
use jackstay.Base.{ℕ, ◌≢◌, Option, none, some, ◌≡◌, true, false, ◌||◌, List, [], ◌∷◌, is_some}
use jackstay.Base.Result.{Result, ok}
use jackstay.Input.Model.{Scope, pointer, Work, Event, Reason, cleanup, executed, ExecutorOutcome}
use jackstay.Input.State.{Active, State, dropped_by}
use jackstay.Input.Target.{Ticket, next, complete, is_executed}
use jackstay.Input.Controller.{submit, cleaning}

-- No pointer event is among the work.
abbrev pub Keyboard : List Work → Type 0
Keyboard [] = Unit {0}
Keyboard (w ∷ ws) = (dropped_by pointer w.operation ≡ false) × Keyboard ws

-- No pointer event is queued, and there is a barrier.
abbrev Barred : State → Type 0
Barred s = Keyboard s.queue × (is_some s.barrier ≡ true)

-- No submission is accepted, whoever makes it, whatever it says and whenever.
abbrev pub Refuses : State → Type 0
Refuses s =
    (t : Ticket) (now epoch sequence : ℕ) (e : Event) → (submit s t now epoch sequence e).1 ≢ ok tt

-- Nothing that was pointed at is still held: no button, no scroll gesture.
abbrev pub Released : Option Active → Type 0
Released none = Unit {0}
Released (some a) = (a.buttons ≡ []) × (a.scroll_open ≡ false)

-- The work that is handed out is a cleanup. While it is in flight no submission is accepted; when it
-- has been executed nothing pointed at is held, and any other outcome takes the controller off.
pub record LetsGo (o : State × Option Work) : Type 0 where
  pub work : Work
  pub handed : o.1 ≡ some work
  pub cleans : (scope : Scope) × (reason : Reason) × (work.operation ≡ cleanup scope reason)
  pub refuses : Refuses o.0
  pub executes : Released (complete o.0 work.id executed).0.active
  pub failing :
      (outcome : ExecutorOutcome)
      → is_executed outcome ≡ false
      → (complete o.0 work.id outcome).0.active ≡ none

-- No pointer event is queued; no submission is accepted; and once nothing is in flight the work that
-- is handed out next lets go of everything pointed at.
pub record Cleared (s : State) : Type 0 where
  pub keyboard : Keyboard s.queue
  pub refuses : Refuses s
  pub lets_go : (now : ℕ) → s.flight ≡ none → LetsGo (next s now)

-- A barrier, or a cleanup in flight.
Shut : State → Type 0
Shut s = (is_some s.barrier || cleaning s.flight) ≡ true
