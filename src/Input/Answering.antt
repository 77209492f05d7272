-- ===== src/Input/Answering.antt =====
-- Completions and submissions keep the order of the queue.
use jackstay.Base.{
  ℕ, map, ◌≤◌, ◌<◌, ◌≡◌, inl, inr, refl, Bool, true, false, none, some, List, arith, Bool-cases,
  is_some, add64, ◌&&◌, ◌||◌,
}
use jackstay.Base.Sub.{Sub-refl}
use jackstay.Input.Model.{
  Event, Geometry, ExecutorOutcome, executed, rejected_by_executor, unsupported_by_executor,
  partial, uncertain, Scope, all, overflowed, coalesced, execution, pointer, geometry_changed,
  closed_for, Reason, Work, Operation, event, cleanup,
}
use jackstay.Input.State.{Active, Flight, State, expire, apply, apply_to}
use jackstay.Input.Target.{
  Ticket, complete, complete_flight, complete_event, complete_cleanup, end_session, fail_session,
  advance_epoch, let_go, let_go_active, is_executed, with_epoch, set_geometry,
}
use jackstay.Input.Controller.{
  heartbeat, accept, enqueue, supersede_tail, opens_scroll, orphan_scroll, is_motion,
  ends_in_motion, full,
}
use jackstay.Input.Frame.{report-Trimmed}
use jackstay.Input.Landing.{apply_to-Same, apply_cases}
use jackstay.Input.Completing.{complete_cases, let_go_cases, advance_epoch_cases}
use jackstay.Input.Submitting.{mine_cases}
use jackstay.Input.Order.{
  Rising, Rising-with_epoch, Rising-append, Rising-supersede_tail, Past, shorter, gone, remade,
  report-Past, cancel-Past, expire-Past,
}

module _ (d id : ℕ) where
  pub apply-Past : (s : State) (e : Event) → Past d id s → Past d id (apply s e)
  apply-Past s e p =
      apply_cases (Past d id) s e (λ n. p)
        (λ a n.
          let k = apply_to-Same a e in
          remade d id s (record s { active = some (apply_to a e) }) a (apply_to a e) p refl n refl
            k.id_kept (omega (arith, k.last_kept)) (λ r l. r))

  pub complete_event-Past :
      (s : State) (w : Work) (e : Event) (outcome : ExecutorOutcome)
      → Past d id s
      → Past d id (complete_event s w e outcome)
  unfolding complete_event
  complete_event-Past s w e executed p = report-Past d id _ _ (apply-Past s e p)
  complete_event-Past s w e rejected_by_executor p = report-Past d id _ _ p
  complete_event-Past s w e unsupported_by_executor p = report-Past d id _ _ p
  complete_event-Past s w e partial p =
      cancel-Past d id _ all execution true (report-Past d id s _ p)
  complete_event-Past s w e uncertain p =
      cancel-Past d id _ all execution true (report-Past d id s _ p)

  pub advance_epoch-Past : (s : State) → Past d id s → Past d id (advance_epoch s)
  advance_epoch-Past s p =
      advance_epoch_cases (Past d id) s (λ n. p)
        (λ a n. report-Past d id _ _ (
          remade d id s
            (record s {
              active = some (record a { epoch = add64 a.epoch 1 });
              queue = map (with_epoch (add64 a.epoch 1)) s.queue;
            })
            a (record a { epoch = add64 a.epoch 1 }) p refl n refl refl (omega arith)
            (λ r l. Rising-with_epoch d (add64 a.epoch 1) s.queue r)))

  pub complete_cleanup-Past :
      (s : State) (ends : Bool) (scope : Scope) (reason : Reason)
      → Past d id s
      → Past d id (complete_cleanup s ends scope reason)
  unfolding complete_cleanup end_session
  complete_cleanup-Past s true scope reason p =
      gone d id s _ p
        (report-Trimmed (record s { active = let_go_active scope s.active })
          (closed_for reason true)).controller_kept
        refl
  complete_cleanup-Past s false scope reason p = elim (Bool-cases (is_some s.barrier)) [
    | inl e ↦ rw e freed
    | inr e ↦ rw e (advance_epoch-Past _ freed)
  ]
    where
      freed : Past d id (record s { active = let_go_active scope s.active })
      freed =
          let_go_cases (Past d id) s scope
            (λ n. gone d id s (record s { active = none }) p refl refl)
            (λ a n.
              remade d id s (record s { active = some (let_go scope a) }) a (let_go scope a) p refl
                n refl refl (omega arith) (λ r l. r))

  pub complete-Past :
      (s : State) (n : ℕ) (outcome : ExecutorOutcome)
      → Past d id s
      → Past d id (complete s n outcome).0
  unfolding complete_flight fail_session
  complete-Past s n outcome p =
      complete_cases (λ o. Past d id o.0) s n outcome p (λ f e g. landed f f.work.operation)
    where
      idle : Past d id (record s { flight = none })
      idle = shorter d id s (record s { flight = none }) p refl refl (Sub-refl s.queue)

      landed :
          (f : Flight) (o : Operation)
          → Past d id (complete_flight (record s { flight = none }) f outcome o).0
      landed f (event e) = complete_event-Past _ f.work e outcome idle
      landed f (cleanup scope reason) = elim (Bool-cases (is_executed outcome)) [
        | inl g ↦ rw g (complete_cleanup-Past _ f.ends scope reason idle)
        | inr g ↦
            rw g (gone d id s _ p (report-Trimmed _ (closed_for reason false)).controller_kept refl)
      ]

  pub set_geometry-Past : (s : State) (g : Geometry) → Past d id s → Past d id (set_geometry s g).0
  unfolding set_geometry
  set_geometry-Past s g p = ground (
    arith,
    p,
    moved,
    cancel-Past d id (record s { config = record (s.config) { geometry = g } }) pointer
        geometry_changed false moved,
  )
    where
      moved : Past d id (record s { config = record (s.config) { geometry = g } })
      moved =
          shorter d id s (record s { config = record (s.config) { geometry = g } }) p refl refl
            (Sub-refl s.queue)

  pub heartbeat-Past :
      (s : State) (t : Ticket) (now : ℕ) → Past d id s → Past d id (heartbeat s t now).0
  unfolding heartbeat
  heartbeat-Past s t now p = elim (mine_cases t (expire s now).active) [
    | inl m ↦ rw (m, heartbeat) (expire-Past d id s now p)
    | inr (a, m, here, own) ↦
        rw (m, heartbeat)
          (remade d id (expire s now)
            (record (expire s now) { active = some (record a { last_seen = now }) }) a
            (record a { last_seen = now }) (expire-Past d id s now p) refl here refl refl
            (omega arith) (λ r l. r))
  ]

  -- A submission raises the last sequence, and what it queues comes after it.
  module _ (s : State) (a : Active) (sequence : ℕ) (p : Past d id s) (here : s.active ≡ some a)
      (later : a.last_sequence < sequence) where
    pub raised-Past :
        (q : List Work) (opened : Bool) (n : ℕ)
        → (Rising d s.queue → d ≤ a.last_sequence → Rising d q)
        → Past d id (record s {
          active = some (record a { last_sequence = sequence; scroll_open = opened });
          next_work = n;
          queue = q;
        })
    raised-Past q opened n k =
        remade d id s _ a (record a { last_sequence = sequence; scroll_open = opened }) p refl here
          refl refl (omega arith) k

    pub accept-Past :
        (t : Ticket) (epoch : ℕ) (e : Event)
        → Past d id
            (accept
              (record s { active = some (record a { last_sequence = sequence }) })
              (record a { last_sequence = sequence })
              t
              epoch
              sequence
              e).0
    unfolding accept enqueue
    accept-Past t epoch e =
        elim (Bool-cases (orphan_scroll (record a { last_sequence = sequence }) e)) [
          | inl g ↦ rw g same
          | inr g ↦ rw g (elim (Bool-cases (is_motion e && ends_in_motion s.queue)) [
            | inl h ↦ rw h (
                report-Past d id _ (coalesced 1) (
                  raised-Past (supersede_tail s.queue sequence e) a.scroll_open s.next_work
                    (λ r l. Rising-supersede_tail d s.queue sequence e r (omega arith))))
            | inr h ↦ rw h (elim (Bool-cases (full s e)) [
              | inl k ↦ rw k (
                  cancel-Past d id
                    (record s { active = some (record a { last_sequence = sequence }) }) all
                    overflowed true same)
              | inr k ↦ rw k (
                  raised-Past _ (a.scroll_open || opens_scroll e) (add64 s.next_work 1)
                    (λ r l. Rising-append d s.queue _ r (omega arith)))
            ])
          ])
        ]
      where
        same : Past d id (record s { active = some (record a { last_sequence = sequence }) })
        same = raised-Past s.queue a.scroll_open s.next_work (λ r l. r)
