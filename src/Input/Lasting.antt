-- ===== src/Input/Lasting.antt =====
-- No history of calls on an input session takes an identity or a sequence back.
use jackstay.Base.{
  ℕ, map, ◌<◌, ◌≡◌, inl, inr, refl, sym, Bool, true, false, none, some, List, [], ◌∷◌, arith,
  Bool-cases, is_some, add64,
}
use jackstay.Input.Model.{
  Event, Geometry, ExecutorOutcome, executed, rejected_by_executor, unsupported_by_executor,
  partial, uncertain, Scope, all, overflowed, coalesced, execution, focus, disconnect, pointer,
  geometry_changed, closed_for, Reason, Status, Work, Operation, event, cleanup,
}
use jackstay.Input.State.{Active, Flight, State, expire, apply, apply_to}
use jackstay.Input.Target.{
  Ticket, complete, complete_flight, complete_event, complete_cleanup, end_session, fail_session,
  advance_epoch, let_go, let_go_active, is_executed, with_epoch, set_geometry, tick,
  resolve_failed_cleanup,
}
use jackstay.Input.Controller.{
  epoch, heartbeat, accept, enqueue, supersede_tail, submit, reset_input, close, poll,
}
use jackstay.Input.Frame.{report-Trimmed}
use jackstay.Input.Landing.{apply_to-Same, apply_cases}
use jackstay.Input.Completing.{complete_cases, let_go_cases, advance_epoch_cases}
use jackstay.Input.Submitting.{mine_cases, submit_cases}
use jackstay.Input.Calls.{
  Call, admits, takes, ticks, answers, moves, resolves, beats, submits, resets, closes, polls, step,
  run,
}
use jackstay.Input.Onward.{
  Onward, Onward-refl, Onward-trans, kept, gone, remade, report-Onward, cancel-Onward,
  expire-Onward, admit-Onward, next-Onward,
}

apply-Onward : (s : State) (e : Event) → Onward s (apply s e)
apply-Onward s e =
    apply_cases (Onward s) s e (λ n. Onward-refl s)
      (λ a n.
        remade s (record s { active = some (apply_to a e) }) a (apply_to a e) refl n refl
          (sym (apply_to-Same a e).id_kept) (omega (arith, (apply_to-Same a e).last_kept)))

complete_event-Onward :
    (s : State) (w : Work) (e : Event) (outcome : ExecutorOutcome)
    → Onward s (complete_event s w e outcome)
unfolding complete_event
complete_event-Onward s w e executed = Onward-trans (apply-Onward s e) (report-Onward _ _)
complete_event-Onward s w e rejected_by_executor = report-Onward _ _
complete_event-Onward s w e unsupported_by_executor = report-Onward _ _
complete_event-Onward s w e partial =
    Onward-trans (report-Onward s _) (cancel-Onward _ all execution true)
complete_event-Onward s w e uncertain =
    Onward-trans (report-Onward s _) (cancel-Onward _ all execution true)

advance_epoch-Onward : (s : State) → Onward s (advance_epoch s)
advance_epoch-Onward s =
    advance_epoch_cases (Onward s) s (λ n. Onward-refl s)
      (λ a n.
        Onward-trans
          (remade s
            (record s {
              active = some (record a { epoch = add64 a.epoch 1 });
              queue = map (with_epoch (add64 a.epoch 1)) s.queue;
            })
            a (record a { epoch = add64 a.epoch 1 }) refl n refl refl (omega arith))
          (report-Onward _ _))

complete_cleanup-Onward :
    (s : State) (ends : Bool) (scope : Scope) (reason : Reason)
    → Onward s (complete_cleanup s ends scope reason)
unfolding complete_cleanup end_session
complete_cleanup-Onward s true scope reason =
    gone s _
      ((report-Trimmed (record s { active = let_go_active scope s.active })
        (closed_for reason true)).controller_kept)
      refl
complete_cleanup-Onward s false scope reason = elim (Bool-cases (is_some s.barrier)) [
  | inl e ↦ rw e freed
  | inr e ↦ rw e (Onward-trans freed (advance_epoch-Onward _))
]
  where
    freed : Onward s (record s { active = let_go_active scope s.active })
    freed =
        let_go_cases (Onward s) s scope (λ n. gone s (record s { active = none }) refl refl)
          (λ a n.
            remade s (record s { active = some (let_go scope a) }) a (let_go scope a) refl n refl
              refl (omega arith))

complete-Onward :
    (s : State) (id : ℕ) (outcome : ExecutorOutcome) → Onward s (complete s id outcome).0
unfolding complete_flight fail_session
complete-Onward s id outcome =
    complete_cases (λ o. Onward s o.0) s id outcome (Onward-refl s)
      (λ f e g.
        Onward-trans (kept s (record s { flight = none }) refl refl) (landed f f.work.operation))
  where
    landed :
        (f : Flight) (o : Operation)
        → Onward
            (record s { flight = none })
            (complete_flight (record s { flight = none }) f outcome o).0
    landed f (event e) = complete_event-Onward _ f.work e outcome
    landed f (cleanup scope reason) = elim (Bool-cases (is_executed outcome)) [
      | inl g ↦ rw g (complete_cleanup-Onward _ f.ends scope reason)
      | inr g ↦ rw g (gone _ _ (report-Trimmed _ (closed_for reason false)).controller_kept refl)
    ]

set_geometry-Onward : (s : State) (g : Geometry) → Onward s (set_geometry s g).0
unfolding set_geometry
set_geometry-Onward s g = ground (
  arith,
  Onward-refl s,
  kept s (record s { config = record (s.config) { geometry = g } }) refl refl,
  Onward-trans (kept s (record s { config = record (s.config) { geometry = g } }) refl refl) (
      cancel-Onward (record s { config = record (s.config) { geometry = g } }) pointer
        geometry_changed false),
)

heartbeat-Onward : (s : State) (t : Ticket) (now : ℕ) → Onward s (heartbeat s t now).0
unfolding heartbeat
heartbeat-Onward s t now = elim (mine_cases t (expire s now).active) [
  | inl m ↦ rw (m, heartbeat) (expire-Onward s now)
  | inr (a, m, here, own) ↦
      rw (m, heartbeat)
        (Onward-trans (expire-Onward s now) (
          remade (expire s now)
            (record (expire s now) { active = some (record a { last_seen = now }) }) a
            (record a { last_seen = now }) refl here refl refl (omega arith)))
]

accept-Onward :
    (s : State) (a : Active) (t : Ticket) (epoch sequence : ℕ) (e : Event)
    → s.active ≡ some a
    → Onward s (accept s a t epoch sequence e).0
unfolding accept
accept-Onward s a t epoch sequence e here = ground (
  arith,
  Onward-refl s,
  Onward-trans (kept s (record s { queue = supersede_tail s.queue sequence e }) refl refl)
      (report-Onward (record s { queue = supersede_tail s.queue sequence e }) (coalesced 1)),
  cancel-Onward s all overflowed true,
  enqueued,
)
  where
    enqueued : Onward s (enqueue s a t epoch sequence e)
    enqueued = remade s (enqueue s a t epoch sequence e) a _ refl here refl refl (omega arith)

submit-Onward :
    (s : State) (t : Ticket) (now epoch sequence : ℕ) (e : Event)
    → Onward s (submit s t now epoch sequence e).0
submit-Onward s t now epoch sequence e =
    submit_cases (λ o. Onward s o.0) s t now epoch sequence e (λ f. expire-Onward s now)
      (λ a here later f. raised a here later)
      (λ a here own same later clear q.
        Onward-trans (raised a here later) (accept-Onward _ _ t epoch sequence e refl))
  where
    raised :
        (a : Active)
        → (expire s now).active ≡ some a
        → a.last_sequence < sequence
        → Onward s (record (expire s now) { active = some (record a { last_sequence = sequence }) })
    raised a here later = Onward-trans (expire-Onward s now) (
        remade (expire s now)
          (record (expire s now) { active = some (record a { last_sequence = sequence }) }) a
          (record a { last_sequence = sequence }) refl here refl refl (omega arith))

step-Onward : (s : State) (c : Call) → Onward s (step s c)
unfolding step tick resolve_failed_cleanup reset_input close poll
step-Onward s (admits mode now) = admit-Onward s mode now
step-Onward s (takes now) = next-Onward s now
step-Onward s (ticks now) = expire-Onward s now
step-Onward s (answers id outcome) = complete-Onward s id outcome
step-Onward s (moves g) = set_geometry-Onward s g
step-Onward s resolves =
    ground (arith, kept s (record s { failed = false }) refl refl, Onward-refl s)
step-Onward s (beats t now) = heartbeat-Onward s t now
step-Onward s (submits t now epoch sequence e) = submit-Onward s t now epoch sequence e
step-Onward s (resets t) = ground (arith, cancel-Onward s all focus false, Onward-refl s)
step-Onward s (closes t) = ground (arith, cancel-Onward s all disconnect true, Onward-refl s)
step-Onward s (polls t) = ground (arith, read, Onward-refl s)
  where
    read : (boxes : ℕ → List Status) → Onward s (record s { mailboxes = boxes })
    read boxes = kept s (record s { mailboxes = boxes }) refl refl

pub run-Onward : (s : State) (cs : List Call) → Onward s (run s cs)
unfolding run
run-Onward s [] = Onward-refl s
run-Onward s (c ∷ cs) = Onward-trans (step-Onward s c) (run-Onward (step s c) cs)
