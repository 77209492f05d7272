-- ===== src/Input/Controller.antt =====
-- `impl Controller` of crates/jackstay/src/input/session.rs: what one admitted controller can do.
use jackstay.Base.{
  ℕ, ◌+◌, Bool, true, false, not, ◌&&◌, ◌||◌, Option, none, some, List, [], ◌∷◌, ◌++◌, ◌==◌, ltb,
  leb, length, if◌then◌else◌, is_some, add64,
}
use jackstay.Base.Result.{Result, ok, err, Outcome}
use jackstay.Input.Model.{
  Event, key, text, motion, button, scroll, event_bytes, ScrollPhase, no_phase, may_begin, began,
  stationary, changed, ended, cancelled, MomentumPhase, no_momentum, momentum_began,
  momentum_changed, momentum_ended, Error, invalid, busy, closed, stale, overflow, all, focus,
  disconnect, overflowed, Operation, event, cleanup, Work, Status, coalesced,
}
use jackstay.Input.Validate.{validate}
use jackstay.Input.State.{Active, Flight, State, write_mailbox, report, cancel, expire, work_bytes}
use jackstay.Input.Target.{Ticket}

-- `s.active.as_ref().filter(|a| a.id == self.id)`.
abbrev pub mine : Ticket → Option Active → Option Active
mine t none = none
mine t (some a) = if a.id == t.id then some a else none

unfoldable pub epoch : State → Ticket → Result Error ℕ
epoch s t = elim (mine t s.active) [ none ↦ err closed | some a ↦ ok a.epoch ]

unfoldable pub heartbeat : State → Ticket → ℕ → Outcome State Error (Unit {0})
unfolding expire
heartbeat s₀ t now =
    let s = expire s₀ now in
    elim (mine t s.active) [
      | none ↦ (s, err closed)
      | some a ↦ (record s { active = some (record a { last_seen = now }) }, ok tt)
    ]

abbrev pub starts_gesture : Option ScrollPhase → Bool
starts_gesture (some may_begin) = true
starts_gesture (some began) = true
starts_gesture none = false
starts_gesture (some no_phase) = false
starts_gesture (some stationary) = false
starts_gesture (some changed) = false
starts_gesture (some ended) = false
starts_gesture (some cancelled) = false

abbrev pub continues_gesture : Option ScrollPhase → Bool
continues_gesture (some stationary) = true
continues_gesture (some changed) = true
continues_gesture (some ended) = true
continues_gesture (some cancelled) = true
continues_gesture none = false
continues_gesture (some no_phase) = false
continues_gesture (some may_begin) = false
continues_gesture (some began) = false

abbrev pub continues_momentum : Option MomentumPhase → Bool
continues_momentum (some momentum_began) = true
continues_momentum (some momentum_changed) = true
continues_momentum (some momentum_ended) = true
continues_momentum none = false
continues_momentum (some no_momentum) = false

-- A scroll that continues a gesture which is not open.
unfoldable pub orphan_scroll : Active → Event → Bool
orphan_scroll a (scroll e) =
    not a.scroll_open
    && (not (starts_gesture e.phase)
        && (continues_gesture e.phase || continues_momentum e.momentum_phase))
orphan_scroll a (key press action k modifiers) = false
orphan_scroll a (text t) = false
orphan_scroll a (motion p) = false
orphan_scroll a (button b action p) = false

abbrev pub is_motion : Event → Bool
is_motion (motion p) = true
is_motion (key press action k modifiers) = false
is_motion (text t) = false
is_motion (button b action p) = false
is_motion (scroll e) = false

abbrev pub is_motion_work : Operation → Bool
is_motion_work (event e) = is_motion e
is_motion_work (cleanup sc r) = false

abbrev pub opens_scroll : Event → Bool
opens_scroll (scroll e) = starts_gesture e.phase
opens_scroll (key press action k modifiers) = false
opens_scroll (text t) = false
opens_scroll (motion p) = false
opens_scroll (button b action p) = false

abbrev pub cleaning : Option Flight → Bool
cleaning none = false
cleaning (some f) = elim f.work.operation [ event e ↦ false | cleanup sc r ↦ true ]

-- `queue.back()` is a motion.
unfoldable pub ends_in_motion : List Work → Bool
ends_in_motion [] = false
ends_in_motion (w ∷ []) = is_motion_work w.operation
ends_in_motion (w ∷ (v ∷ vs)) = ends_in_motion (v ∷ vs)

-- The queued tail takes a newer sequence and event.
unfoldable pub supersede_tail : List Work → ℕ → Event → List Work
supersede_tail [] sequence e = []
supersede_tail (w ∷ []) sequence e = record w { sequence = sequence; operation = event e } ∷ []
supersede_tail (w ∷ (v ∷ vs)) sequence e = w ∷ supersede_tail (v ∷ vs) sequence e

unfoldable pub queue_bytes : List Work → ℕ
queue_bytes [] = 0
queue_bytes (w ∷ ws) = work_bytes w + queue_bytes ws

abbrev pub flight_bytes : Option Flight → ℕ
flight_bytes none = 0
flight_bytes (some f) = work_bytes f.work

abbrev pub flight_count : Option Flight → ℕ
flight_count none = 0
flight_count (some f) = 1

abbrev pub full : State → Event → Bool
full s e =
    leb s.config.max_events (length s.queue + flight_count s.flight)
    || ltb s.config.max_bytes (queue_bytes s.queue + flight_bytes s.flight + event_bytes e)

-- The event goes to the back of the queue.
unfoldable pub enqueue : State → Active → Ticket → ℕ → ℕ → Event → State
enqueue s a t epoch sequence e = record s {
  active = some (record a { scroll_open = a.scroll_open || opens_scroll e });
  next_work = add64 s.next_work 1;
  queue =
      s.queue
      ++ (record {
        mode = t.mode;
        id = add64 s.next_work 1;
        controller = t.id;
        epoch = epoch;
        sequence = sequence;
        operation = event e;
      }
          ∷ []);
}

-- What `submit` does with a valid event.
unfoldable pub accept : State → Active → Ticket → ℕ → ℕ → Event → Outcome State Error (Unit {0})
unfolding enqueue report cancel
accept s a t epoch sequence e =
    if orphan_scroll a e
    then (s, err stale)
    else if is_motion e && ends_in_motion s.queue
    then (report (record s { queue = supersede_tail s.queue sequence e }) (coalesced 1), ok tt)
    else if full s e
    then (cancel s all overflowed true, err overflow)
    else (enqueue s a t epoch sequence e, ok tt)

unfoldable pub submit : State → Ticket → ℕ → ℕ → ℕ → Event → Outcome State Error (Unit {0})
unfolding expire accept
submit s₀ t now epoch sequence e =
    let s = expire s₀ now in
    elim (mine t s.active) [
      | none ↦ (s, err closed)
      | some a ↦
          let a' : Active = record a { last_sequence = sequence } in
          let s' : State = record s { active = some a' } in
          if sequence == 0 || leb sequence a.last_sequence
          then (s, err invalid)
          else if not (epoch == a.epoch)
          then (s', err stale)
          else if is_some s.barrier || cleaning s.flight
          then (s', err busy)
          else elim (validate s.config a.mode e) [
            | err f ↦ (s', err f)
            | ok _ ↦ accept s' a' t epoch sequence e
          ]
    ]

unfoldable pub reset_input : State → Ticket → Outcome State Error (Unit {0})
unfolding cancel
reset_input s t = elim (mine t s.active) [
  | none ↦ (s, err closed)
  | some a ↦ (cancel s all focus false, ok tt)
]

-- `close`, and the same in `Drop`.
unfoldable pub close : State → Ticket → State
unfolding cancel
close s t = elim (mine t s.active) [ none ↦ s | some a ↦ cancel s all disconnect true ]

-- `mailbox.pop_front()`.
unfoldable pub poll : State → Ticket → State × Option Status
poll s t = elim (s.mailboxes t.id) [
  | [] ↦ (s, none)
  | status ∷ rest ↦ (record s { mailboxes = write_mailbox s.mailboxes t.id rest }, some status)
]
