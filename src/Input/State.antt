-- ===== src/Input/State.antt =====
-- The shared state of an input session and the helpers of `impl State` in
-- crates/jackstay/src/input/session.rs.
use jackstay.Base.{
  ℕ, ◌+◌, ◌-◌, ◌*◌, Bool, true, false, not, ◌||◌, Option, none, some, List, [], ◌∷◌, ◌++◌, ◌==◌,
  leb, length, if◌then◌else◌, is_some,
}
use jackstay.Base.Result.{Result, ok, err}
use jackstay.Base.Dict.{Dict, lookup, insert, remove}
use jackstay.Input.Model.{
  Mode, Action, down, up, repeat, Key, Event, key, text, motion, button, scroll, event_bytes,
  is_pointer, Config, Error, invalid, stale, closed, Scope, all, pointer, Reason, expired,
  overflowed, Operation, event, cleanup, Work, Status, rejected, closed_for, merge_coalesced,
}
use jackstay.Input.Validate.{is_empty}

pub record Active : Type 0 where
  pub id : ℕ
  pub mode : Mode
  pub epoch : ℕ
  pub last_sequence : ℕ
  pub last_seen : ℕ
  pub keys : Dict Key
  pub buttons : Dict (Unit {0})
  pub scroll_open : Bool

pub record Barrier : Type 0 where
  pub scope : Scope
  pub reason : Reason
  pub ends : Bool

pub record Flight : Type 0 where
  pub work : Work
  pub ends : Bool

-- A controller and its `Active` share one mailbox: `mailboxes` holds it under the controller's id.
pub record State : Type 0 where
  pub config : Config
  pub next_controller : ℕ
  pub next_work : ℕ
  pub active : Option Active
  pub queue : List Work
  pub flight : Option Flight
  pub barrier : Option Barrier
  pub failed : Bool
  pub mailboxes : ℕ → List Status

abbrev pub is_all : Scope → Bool
is_all all = true
is_all pointer = false

abbrev pub write_mailbox : (ℕ → List Status) → ℕ → List Status → ℕ → List Status
write_mailbox boxes id box j = if j == id then box else boxes j

-- The mailbox with the status folded into its last entry, where `merge_coalesced` allows.
unfoldable pub fold_last : List Status → Status → Option (List Status)
fold_last [] s = none
fold_last (x ∷ []) s = elim (merge_coalesced x s) [ none ↦ none | some y ↦ some (y ∷ []) ]
fold_last (x ∷ (y ∷ ys)) s = elim (fold_last (y ∷ ys) s) [ none ↦ none | some zs ↦ some (x ∷ zs) ]

abbrev pub overflow_barrier : Barrier
overflow_barrier = record { scope = all; reason = overflowed; ends = true }

unfoldable pub status_for : State → ℕ → Status → State
status_for s id status = elim (fold_last (s.mailboxes id) status) [
  | some box ↦ record s { mailboxes = write_mailbox s.mailboxes id box }
  | none ↦
      if leb (s.config.max_events * 2 + 4) (length (s.mailboxes id))
      then record s {
        mailboxes = write_mailbox s.mailboxes id (closed_for overflowed false ∷ []);
        queue = [];
        barrier = some overflow_barrier;
      }
      else record s { mailboxes = write_mailbox s.mailboxes id (s.mailboxes id ++ (status ∷ [])) }
]

unfoldable pub report : State → Status → State
unfolding status_for
report s status = elim s.active [ none ↦ s | some a ↦ status_for s a.id status ]

-- Which queued work a cancellation drops.
abbrev pub dropped_by : Scope → Operation → Bool
dropped_by all o = true
dropped_by pointer (event e) = is_pointer e
dropped_by pointer (cleanup sc r) = false

-- The `while let Some(w) = self.queue.pop_front()` loop of `cancel`: `keep` has been kept so far. A
-- status that overflows the mailbox empties the queue, and so ends the loop.
unfoldable pub drop_queued : Scope → List Work → List Work → State → State
unfolding report
drop_queued scope [] keep s = record s { queue = keep }
drop_queued scope (w ∷ ws) keep s =
    let s' = report (record s { queue = ws }) (rejected w.sequence stale) in
    let dropped = drop_queued scope ws keep s' in
    let kept = drop_queued scope ws (keep ++ (w ∷ [])) (record s { queue = ws }) in
    if dropped_by scope w.operation
    then if is_empty s'.queue then record s' { queue = keep } else dropped
    else kept

abbrev pub barrier_ends : Option Barrier → Bool
barrier_ends none = false
barrier_ends (some b) = b.ends

abbrev pub barrier_all : Option Barrier → Bool
barrier_all none = false
barrier_all (some b) = is_all b.scope

abbrev pub flight_ends : Option Flight → Bool
flight_ends none = false
flight_ends (some f) = f.ends

-- `old.filter(|b| b.end).map_or(reason, |b| b.reason)`.
abbrev pub first_reason : Option Barrier → Reason → Reason
first_reason none reason = reason
first_reason (some b) reason = if b.ends then b.reason else reason

unfoldable pub cancel : State → Scope → Reason → Bool → State
unfolding drop_queued
cancel s scope reason ends =
    let scope' : Scope = if barrier_all s.barrier || ends then all else scope in
    let ends' = ends || (barrier_ends s.barrier || flight_ends s.flight) in
    let barrier : Barrier = record {
      scope = scope';
      reason = first_reason s.barrier reason;
      ends = ends';
    } in
    if not (is_some s.active)
    then s
    else if flight_ends s.flight
    then s
    else drop_queued scope' s.queue [] (record s { barrier = some barrier })

-- `last_seen.elapsed()`, which stops at zero.
abbrev pub elapsed : ℕ → Active → ℕ
elapsed now a = now - a.last_seen

unfoldable pub expire : State → ℕ → State
unfolding cancel
expire s now = elim s.active [
  | none ↦ s
  | some a ↦ if leb s.config.idle_timeout (elapsed now a) then cancel s all expired true else s
]

-- `bind` returns the work with its key replaced by the one bound at the press, and whether it still
-- has to be executed.
unfoldable pub bind_key : State → Active → ℕ → Action → Key → Result Error (Bool × Key)
bind_key s a press down k =
    if is_some (lookup press a.keys) || leb s.config.max_events (length a.keys)
    then err invalid
    else ok (true, k)
bind_key s a press up k = elim (lookup press a.keys) [
  | none ↦ ok (false, k)
  | some b ↦ ok (true, b)
]
bind_key s a press repeat k = elim (lookup press a.keys) [
  | none ↦ err invalid
  | some b ↦ ok (true, b)
]

unfoldable pub bind_button : Active → ℕ → Action → Result Error Bool
bind_button a b up = ok (is_some (lookup b a.buttons))
bind_button a b down = if is_some (lookup b a.buttons) then err invalid else ok true
bind_button a b repeat = if is_some (lookup b a.buttons) then ok true else err invalid

abbrev pub rebound : Work → ℕ → Action → Key → ℕ → Work
rebound w press action k modifiers = record w { operation = event (key press action k modifiers) }

unfoldable pub bind_operation : State → Active → Work → Operation → Result Error (Bool × Work)
unfolding bind_key bind_button
bind_operation s a w (event (key press action k modifiers)) = elim (bind_key s a press action k) [
  | err e ↦ err e
  | ok (due, k') ↦ ok (due, rebound w press action k' modifiers)
]
bind_operation s a w (event (button b action p)) = elim (bind_button a b action) [
  | err e ↦ err e
  | ok due ↦ ok (due, w)
]
bind_operation s a w (event (text t)) = ok (true, w)
bind_operation s a w (event (motion p)) = ok (true, w)
bind_operation s a w (event (scroll e)) = ok (true, w)
bind_operation s a w (cleanup sc r) = ok (true, w)

unfoldable pub bind : State → Work → Result Error (Bool × Work)
unfolding bind_operation
bind s w = elim s.active [ none ↦ err closed | some a ↦ bind_operation s a w w.operation ]

unfoldable pub apply_to : Active → Event → Active
apply_to a (key press down k modifiers) = record a { keys = insert press k a.keys }
apply_to a (key press up k modifiers) = record a { keys = remove press a.keys }
apply_to a (key press repeat k modifiers) = a
apply_to a (button b down p) = record a { buttons = insert b tt a.buttons }
apply_to a (button b up p) = record a { buttons = remove b a.buttons }
apply_to a (button b repeat p) = a
apply_to a (text t) = a
apply_to a (motion p) = a
apply_to a (scroll e) = a

unfoldable pub apply : State → Event → State
unfolding apply_to
apply s e = elim s.active [ none ↦ s | some a ↦ record s { active = some (apply_to a e) } ]

unfoldable pub operation_bytes : Operation → ℕ
operation_bytes (event e) = event_bytes e
operation_bytes (cleanup sc r) = 0

abbrev pub work_bytes : Work → ℕ
work_bytes w = operation_bytes w.operation
