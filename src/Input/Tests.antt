-- ===== src/Input/Tests.antt =====
-- Tests of the input session, and the instances at which its theorems are applied.
use jackstay.Base.{
  ℕ, leb, ◌*◌, ◌+◌, ◌≡◌, ◌≤◌, ◌<◌, refl, true, false, none, some, List, [], ◌∷◌, arith, length,
}
use jackstay.Base.Float.{finite, pos}
use jackstay.Base.Result.{ok, err}
use jackstay.Input.Model.{
  source_text, Event, event_bytes, motion, text, Geometry, Config, closed, executed, partial,
  disconnect, all, event, cleanup, Work,
}
use jackstay.Input.State.{Active, Flight, State, fold_last}
use jackstay.Input.Validate.{validate}
use jackstay.Input.Target.{Ticket, new, admit, next, complete, resolve_failed_cleanup}
use jackstay.Input.Controller.{epoch, submit, close, orphan_scroll, ends_in_motion, queue_bytes}
use jackstay.Input.Invariant.{IsValid}
use jackstay.Input.Executing.{new-IsValid}
use jackstay.Input.Calls.{
  Call, admits, takes, answers, submits, closes, step, run, run-IsValid, run-input-IsValid,
}
use jackstay.Input.Sequence.{submit-rising, epoch-closed}
use jackstay.Input.Sending.{next-rising}
use jackstay.Input.Ending.{EndsWith, close-next}
use jackstay.Input.Leftover.{restart, complete-leftover}

abbrev screen : Geometry
screen = record { revision = 1; width = finite (pos 100); height = finite (pos 50) }

abbrev small : Config
small = record {
  modes = 7;
  capabilities = 31;
  max_events = 1;
  max_bytes = 1000;
  max_text_bytes = 100;
  idle_timeout = 1000000000;
  geometry = screen;
  independent_contributions = false;
  interaction_cancel = false;
}

abbrev start : State
start = record {
  config = small;
  next_controller = 0;
  next_work = 0;
  active = none;
  queue = [];
  flight = none;
  barrier = none;
  failed = false;
  mailboxes = λ _. [];
}

start_lem : new small ≡ ok start
unfolding new
start_lem = refl

abbrev ticket : Ticket
ticket = record { id = 1; mode = source_text }

abbrev letter : Event
letter = text (65 ∷ [])

abbrev admission : List Call
admission = admits source_text 0 ∷ []

-- One event through the queue and the executor.
abbrev round : ℕ → List Call → List Call
round n rest = submits ticket 0 1 n letter ∷ takes 0 ∷ answers n executed ∷ rest

abbrev history : List Call
history = admits source_text 0 ∷ round 1 (submits ticket 0 1 2 letter ∷ [])

history_lem : length (run start history).queue ≡ 1
unfolding run step admit submit next complete validate orphan_scroll ends_in_motion queue_bytes
    event_bytes fold_last
history_lem = refl

run-input-IsValid_example : IsValid (run start history)
run-input-IsValid_example = run-input-IsValid small start history start_lem

admitted-IsValid : IsValid (run start admission)
admitted-IsValid = run-input-IsValid small start admission start_lem

-- The second submission comes after the first has been executed.
first_lem : (submit (run start admission) ticket 0 1 1 letter).1 ≡ ok tt
unfolding run step admit submit validate orphan_scroll ends_in_motion queue_bytes event_bytes
first_lem = refl

second_lem :
    (submit
      (run (submit (run start admission) ticket 0 1 1 letter).0 (takes 0 ∷ answers 1 executed ∷ []))
      ticket
      0
      1
      2
      letter).1
    ≡ ok tt
unfolding run step admit submit next complete validate orphan_scroll ends_in_motion queue_bytes
    event_bytes fold_last
second_lem = refl

submit-rising_example : 1 < 2
submit-rising_example =
    submit-rising (run start admission) ticket 0 1 1 letter (takes 0 ∷ answers 1 executed ∷ []) 0 1
      2 letter admitted-IsValid first_lem second_lem

-- The session of the first controller is over, and another one is admitted.
abbrev ended : List Call
ended = admits source_text 0 ∷ closes ticket ∷ takes 0 ∷ answers 1 executed ∷ []

ended_lem : epoch (run start ended) ticket ≡ err closed
unfolding run step admit close next complete epoch fold_last
ended_lem = refl

known_lem : 1 ≤ (run start ended).next_controller
unfolding run step admit close next complete fold_last
known_lem = omega arith

epoch-closed_example :
    (epoch (run (run start ended) (admits source_text 5 ∷ [])) ticket ≡ err closed)
    × ((submit (run (run start ended) (admits source_text 5 ∷ [])) ticket 6 1 9 letter).1
        ≡ err closed)
epoch-closed_example =
    epoch-closed (run start ended) ticket (admits source_text 5 ∷ []) 6 1 9 letter known_lem
      ended_lem

abbrev sent : ℕ → Work
sent n = record {
  mode = source_text;
  id = n;
  controller = 1;
  epoch = 1;
  sequence = n;
  operation = event letter;
}

abbrev queued : State
queued = run start (admits source_text 0 ∷ submits ticket 0 1 1 letter ∷ [])

queued_lem : (next queued 0).1 ≡ some (sent 1)
unfolding run step admit submit next validate orphan_scroll ends_in_motion queue_bytes event_bytes
queued_lem = refl

resent_lem :
    (next (run (next queued 0).0 (answers 1 executed ∷ submits ticket 0 1 2 letter ∷ [])) 0).1
    ≡ some (sent 2)
unfolding run step admit submit next complete validate orphan_scroll ends_in_motion queue_bytes
    event_bytes fold_last
resent_lem = refl

next-rising_example : 1 < 2
next-rising_example =
    next-rising queued 0 (sent 1) (answers 1 executed ∷ submits ticket 0 1 2 letter ∷ []) 0 (sent 2)
      (run-IsValid start (admits source_text 0 ∷ submits ticket 0 1 1 letter ∷ [])
        (new-IsValid small start_lem))
      queued_lem resent_lem refl refl

abbrev controller : ℕ → Active
controller n = record {
  id = 1;
  mode = source_text;
  epoch = 1;
  last_sequence = n;
  last_seen = 0;
  keys = [];
  buttons = [];
  scroll_open = false;
}

close-next_example :
    (w : Work) × ((next (close (run start admission) ticket) 3).1 ≡ some w)
    × EndsWith (next (close (run start admission) ticket) 3).0 w
unfolding run step admit
close-next_example = close-next (run start admission) ticket 3 (controller 0) refl refl refl refl

-- Six answers fill the mailbox of a session with room for one event; then the controller closes, and
-- its cleanup fails.
abbrev crowded : State
crowded = run start (
    admits source_text 0
    ∷ round 1 (round 2 (round 3 (round 4 (round 5 (round 6 (closes ticket ∷ takes 0 ∷ [])))))))

abbrev last_flight : Flight
last_flight = record {
  work = record {
    mode = source_text;
    id = 7;
    controller = 1;
    epoch = 1;
    sequence = 0;
    operation = cleanup all disconnect;
  };
  ends = true;
}

crowded_lem : (crowded.active ≡ some (controller 6)) × (crowded.flight ≡ some last_flight)
unfolding run step admit submit next complete close validate orphan_scroll ends_in_motion
    queue_bytes event_bytes fold_last
crowded_lem = (refl, refl)

abbrev heir : Ticket
heir = record { id = 2; mode = source_text }

restart_lem : (restart crowded 7 partial source_text 1).1 ≡ ok heir
unfolding run step admit submit next complete close resolve_failed_cleanup validate orphan_scroll
    ends_in_motion queue_bytes event_bytes fold_last
restart_lem = refl

full_lem : leb (crowded.config.max_events * 2 + 4) (length (crowded.mailboxes 1)) ≡ true
unfolding run step admit submit next complete close validate orphan_scroll ends_in_motion
    queue_bytes event_bytes fold_last
full_lem = refl

complete-leftover_example :
    (w : Work) × ((next (restart crowded 7 partial source_text 1).0 2).1 ≡ some w)
    × EndsWith (next (restart crowded 7 partial source_text 1).0 2).0 w
complete-leftover_example =
    complete-leftover crowded (controller 6) last_flight all disconnect partial source_text 1 2 heir
      crowded_lem.0 crowded_lem.1 refl refl full_lem restart_lem

abbrev wider : Geometry
wider = record screen { revision = 2; width = finite (pos 200) }

-- A motion and a text are queued when the geometry changes.
abbrev pointing : State
pointing = record start {
  active = some (controller 2);
  queue =
      record (sent 1) {
        operation =
            event (motion (record { revision = 1; x = finite (pos 3); y = finite (pos 4) }));
      }
      ∷ sent 2
      ∷ [];
}
