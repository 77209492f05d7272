-- ===== src/Input/Target.antt =====
-- `impl Target` of crates/jackstay/src/input/session.rs: the executor's and the host's side. `now` is
-- the time at which a method runs.
use jackstay.Base.{
  ℕ, ◌*◌, ◌/◌, Bool, true, false, not, ◌&&◌, ◌||◌, Option, none, some, List, [], ◌∷◌, ◌==◌, ltb,
  leb, map, if◌then◌else◌, is_some, add64, checked_add64,
}
use jackstay.Base.Result.{Result, ok, err, Outcome}
use jackstay.Input.Model.{
  Mode, mode_bit, has_bit, Event, Geometry, is_valid_geometry, Config, Error, invalid, unsupported,
  busy, closed, cleanup_failed, ExecutorOutcome, executed, rejected_by_executor,
  unsupported_by_executor, partial, uncertain, Scope, all, pointer, Reason, geometry_changed,
  execution, Operation, event, cleanup, Work, completed, rejected, reset, closed_for,
}
use jackstay.Input.State.{
  Active, Barrier, Flight, State, write_mailbox, report, cancel, expire, bind, apply, is_all,
}

-- `Controller` is its target and its id; its mailbox is `mailboxes id`.
pub record Ticket : Type 0 where
  pub id : ℕ
  pub mode : Mode

abbrev pub refused_config : Config → Bool
refused_config c =
    c.modes == 0
    || (not (c.modes / 8 == 0)
        || (not (c.capabilities / 32 == 0)
            || (c.max_events == 0
                || (ltb 65536 c.max_events
                    || (ltb c.max_bytes 112
                        || (ltb (16 * 1024 * 1024) c.max_bytes
                            || (c.max_text_bytes == 0
                                || (ltb 16384 c.max_text_bytes
                                    || (ltb (c.idle_timeout / 1000000) 100
                                        || (ltb 3600 (c.idle_timeout / 1000000000)
                                            || not (is_valid_geometry c.geometry)))))))))))

unfoldable pub new : Config → Result Error State
new config =
    if refused_config config
    then err invalid
    else ok (record {
      config = config;
      next_controller = 0;
      next_work = 0;
      active = none;
      queue = [];
      flight = none;
      barrier = none;
      failed = false;
      mailboxes = λ _. [];
    })

abbrev pub fresh_active : ℕ → Mode → ℕ → Active
fresh_active id mode now = record {
  id = id;
  mode = mode;
  epoch = 1;
  last_sequence = 0;
  last_seen = now;
  keys = [];
  buttons = [];
  scroll_open = false;
}

unfoldable pub admit : State → Mode → ℕ → Outcome State Error Ticket
admit s mode now =
    if s.failed
    then (s, err cleanup_failed)
    else if is_some s.active
    then (s, err busy)
    else if not (has_bit s.config.modes (mode_bit mode))
    then (s, err unsupported)
    else elim (checked_add64 s.next_controller 1) [
      | none ↦ (s, err closed)
      | some id ↦ (
        record s {
          next_controller = id;
          active = some (fresh_active id mode now);
          mailboxes = write_mailbox s.mailboxes id [];
        },
        ok (record { id = id; mode = mode }),
      )
    ]

abbrev pub cleanup_work : Active → Barrier → ℕ → Work
cleanup_work a b id = record {
  mode = a.mode;
  id = id;
  controller = a.id;
  epoch = a.epoch;
  sequence = 0;
  operation = cleanup b.scope b.reason;
}

-- The loop that binds queued work. A status that overflows the mailbox sets a barrier and so ends it.
unfoldable pub dispatch : List Work → State → State × Option Work
unfolding bind report
dispatch [] s = (record s { queue = [] }, none)
dispatch (w ∷ ws) s =
    let popped : State = record s { queue = ws } in
    elim (bind popped w) [
      | ok (true, w') ↦
          (record popped { flight = some (record { work = w'; ends = false }) }, some w')
      | ok (false, w') ↦
          let s' = report popped (completed w'.sequence executed) in
          let rest = dispatch ws s' in if is_some s'.barrier then (s', none) else rest
      | err e ↦
          let s' = report popped (rejected w.sequence e) in
          let rest = dispatch ws s' in if is_some s'.barrier then (s', none) else rest
    ]

unfoldable pub take_barrier : State → Barrier → State × Option Work
take_barrier s b =
    let taken : State = record s { barrier = none } in
    elim s.active [
      | none ↦ (taken, none)
      | some a ↦
          let w : Work = cleanup_work a b (add64 s.next_work 1) in
          (
            record taken {
              next_work = add64 s.next_work 1;
              flight = some (record { work = w; ends = b.ends });
            },
            some w,
          )
    ]

unfoldable pub next : State → ℕ → State × Option Work
unfolding expire take_barrier dispatch
next s₀ now =
    let s = expire s₀ now in
    if is_some s.flight
    then (s, none)
    else elim s.barrier [ some b ↦ take_barrier s b | none ↦ dispatch s.queue s ]

abbrev pub is_executed : ExecutorOutcome → Bool
is_executed executed = true
is_executed rejected_by_executor = false
is_executed unsupported_by_executor = false
is_executed partial = false
is_executed uncertain = false

abbrev pub is_doubtful : ExecutorOutcome → Bool
is_doubtful partial = true
is_doubtful uncertain = true
is_doubtful executed = false
is_doubtful rejected_by_executor = false
is_doubtful unsupported_by_executor = false

unfoldable pub complete_event : State → Work → Event → ExecutorOutcome → State
unfolding apply report cancel
complete_event s w e outcome =
    let applied = if is_executed outcome then apply s e else s in
    let reported = report applied (completed w.sequence outcome) in
    if is_doubtful outcome then cancel reported all execution true else reported

-- The session ends: its last status, and nothing left for the next controller.
unfoldable pub end_session : State → Reason → Bool → State
unfolding report
end_session s reason clean = record (report s (closed_for reason clean)) {
  active = none;
  barrier = none;
  queue = [];
}

-- `failed` is set, and queue and barrier are emptied, before the last status.
unfoldable pub fail_session : State → Reason → State
unfolding report
fail_session s reason =
    record (report (record s { failed = true; queue = []; barrier = none })
      (closed_for reason false)) { active = none }

-- What the executed cleanup has let go.
abbrev pub let_go : Scope → Active → Active
let_go scope a = record a {
  buttons = [];
  scroll_open = false;
  keys = if is_all scope then [] else a.keys;
}

abbrev pub let_go_active : Scope → Option Active → Option Active
let_go_active scope none = none
let_go_active scope (some a) = some (let_go scope a)

abbrev pub with_epoch : ℕ → Work → Work
with_epoch epoch w = record w { epoch = epoch }

-- The next interaction epoch, for kept keyboard work too.
unfoldable pub advance_epoch : State → State
unfolding report
advance_epoch s = elim s.active [
  | none ↦ s
  | some a ↦
      let epoch = add64 a.epoch 1 in
      report
        (record s {
          active = some (record a { epoch = epoch });
          queue = map (with_epoch epoch) s.queue;
        })
        (reset epoch s.config.geometry)
]

unfoldable pub complete_cleanup : State → Bool → Scope → Reason → State
unfolding end_session advance_epoch
complete_cleanup s ends scope reason =
    let s' : State = record s { active = let_go_active scope s.active } in
    if ends then end_session s' reason true else if is_some s'.barrier then s' else advance_epoch s'

unfoldable pub complete_flight :
    State → Flight → ExecutorOutcome → Operation → Outcome State Error (Unit {0})
unfolding complete_event complete_cleanup fail_session
complete_flight s f outcome (event e) = (complete_event s f.work e outcome, ok tt)
complete_flight s f outcome (cleanup scope reason) =
    if is_executed outcome
    then (complete_cleanup s f.ends scope reason, ok tt)
    else (fail_session s reason, err cleanup_failed)

unfoldable pub complete : State → ℕ → ExecutorOutcome → Outcome State Error (Unit {0})
unfolding complete_flight
complete s id outcome = elim s.flight [
  | none ↦ (s, err invalid)
  | some f ↦
      if f.work.id == id
      then complete_flight (record s { flight = none }) f outcome f.work.operation
      else (s, err invalid)
]

unfoldable pub set_geometry : State → Geometry → Outcome State Error (Unit {0})
unfolding cancel
set_geometry s g =
    let s' : State = record s { config = record (s.config) { geometry = g } } in
    if not (is_valid_geometry g) || leb g.revision s.config.geometry.revision
    then (s, err invalid)
    else (if is_some s.active then cancel s' pointer geometry_changed false else s', ok tt)

unfoldable pub tick : State → ℕ → State
unfolding expire
tick s now = expire s now

unfoldable pub is_idle : State → Bool
is_idle s = not (is_some s.active) && (not (is_some s.flight) && not s.failed)

unfoldable pub resolve_failed_cleanup : State → Outcome State Error (Unit {0})
resolve_failed_cleanup s =
    if not s.failed || is_some s.flight
    then (s, err invalid)
    else (record s { failed = false }, ok tt)
