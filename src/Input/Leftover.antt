-- ===== src/Input/Leftover.antt =====
-- What a failed cleanup leaves to the next controller when the mailbox of the last one is full.
use jackstay.Base.{
  ℕ, ◌+◌, ◌*◌, ◌≡◌, refl, sym, ◌∙◌, subst, Bool, true, false, none, some, List, [], ◌∷◌, arith,
  is_some, length, leb, ==_refl,
}
use jackstay.Base.Result.{ok, Outcome}
use jackstay.Input.Model.{
  Mode, Scope, Reason, Status, coalesced, completed, rejected, reset, closed_for, ExecutorOutcome,
  Error, cleanup, Work,
}
use jackstay.Input.State.{Active, Flight, State, fold_last, status_for, report, overflow_barrier}
use jackstay.Input.Target.{
  Ticket, admit, next, complete, complete_flight, fail_session, is_executed, resolve_failed_cleanup,
}
use jackstay.Input.Frame.{Trimmed, report-Trimmed}
use jackstay.Input.Ending.{Ends, EndsWith, next-Ends}

-- A closing status is never folded into another.
fold_last-closed :
    (box : List Status) (reason : Reason) (clean : Bool)
    → fold_last box (closed_for reason clean) ≡ none
unfolding fold_last
fold_last-closed [] reason clean = refl
fold_last-closed (coalesced n ∷ []) reason clean = refl
fold_last-closed (completed n o ∷ []) reason clean = refl
fold_last-closed (rejected n e ∷ []) reason clean = refl
fold_last-closed (reset n g ∷ []) reason clean = refl
fold_last-closed (closed_for r c ∷ []) reason clean = refl
fold_last-closed (x ∷ (y ∷ ys)) reason clean = rw (fold_last-closed (y ∷ ys) reason clean) refl

-- A closing status that finds the mailbox full sets the overflow barrier.
report-full :
    (s : State) (a : Active) (reason : Reason) (clean : Bool)
    → s.active ≡ some a
    → leb (s.config.max_events * 2 + 4) (length (s.mailboxes a.id)) ≡ true
    → (report s (closed_for reason clean)).barrier ≡ some overflow_barrier
unfolding report status_for
report-full s a reason clean here full =
    rw (here, report)
      (rw (fold_last-closed (s.mailboxes a.id) reason clean, status_for) (rw full refl))

-- The state that the failed cleanup leaves.
abbrev failed_state : State → Reason → State
failed_state s reason = fail_session (record s { flight = none }) reason

complete_failed :
    (s : State) (f : Flight) (scope : Scope) (reason : Reason) (outcome : ExecutorOutcome)
    → s.flight ≡ some f
    → f.work.operation ≡ cleanup scope reason
    → is_executed outcome ≡ false
    → (complete s f.work.id outcome).0 ≡ failed_state s reason
unfolding complete complete_flight
complete_failed s f scope reason outcome fl op bad =
    rw (fl, complete) (rw (==_refl f.work.id) (rw (op, complete_flight) (rw bad refl)))

admit-fields :
    (s : State) (mode : Mode) (now : ℕ) (t : Ticket)
    → (admit s mode now).1 ≡ ok t
    → (is_some (admit s mode now).0.active ≡ true)
      × ((admit s mode now).0.flight ≡ s.flight)
      × ((admit s mode now).0.barrier ≡ s.barrier)
      × ((admit s mode now).0.failed ≡ false)
unfolding admit
admit-fields s mode now t h = ground arith

resolve-fields :
    (s : State)
    → s.failed ≡ true
    → s.flight ≡ none
    → (resolve_failed_cleanup s).0 ≡ record s { failed = false }
unfolding resolve_failed_cleanup
resolve-fields s f i = rw (f, i) refl

-- The host resolves the failure of the cleanup `id` and admits the next controller.
abbrev pub restart : State → ℕ → ExecutorOutcome → Mode → ℕ → Outcome State Error Ticket
restart s id outcome mode now = admit (resolve_failed_cleanup (complete s id outcome).0).0 mode now

-- If a cleanup fails while the mailbox of its controller is full, the barrier that the last status
-- sets outlives the session: the host resolves the failure, a new controller is admitted, and the
-- first work that `next` then hands out is a cleanup of everything that ends the new session.
pub complete-leftover :
    (s : State) (a : Active) (f : Flight) (scope : Scope) (reason : Reason)
    (outcome : ExecutorOutcome) (mode : Mode) (now now' : ℕ) (t : Ticket)
    → s.active ≡ some a
    → s.flight ≡ some f
    → f.work.operation ≡ cleanup scope reason
    → is_executed outcome ≡ false
    → leb (s.config.max_events * 2 + 4) (length (s.mailboxes a.id)) ≡ true
    → (restart s f.work.id outcome mode now).1 ≡ ok t
    → (w : Work) × ((next (restart s f.work.id outcome mode now).0 now').1 ≡ some w)
      × EndsWith (next (restart s f.work.id outcome mode now).0 now').0 w
unfolding fail_session
complete-leftover s a f scope reason outcome mode now now' t here fl op bad full =
    subst After (sym (complete_failed s f scope reason outcome fl op bad)) (
      after (failed_state s reason) stays.flight_kept stays.failed_kept
        (report-full u₀ a reason false here full))
  where
    After : State → Type 0
    After failed =
        let resolved = (resolve_failed_cleanup failed).0 in
        let admitted = (admit resolved mode now).0 in
        (admit resolved mode now).1 ≡ ok t
        → (w : Work) × ((next admitted now').1 ≡ some w) × EndsWith (next admitted now').0 w

    u₀ : State
    u₀ = record s { failed = true; queue = []; barrier = none; flight = none }

    stays : Trimmed u₀ (report u₀ (closed_for reason false))
    stays = report-Trimmed u₀ (closed_for reason false)

    after :
        (u : State)
        → u.flight ≡ none
        → u.failed ≡ true
        → u.barrier ≡ some overflow_barrier
        → After u
    after u i f b =
        subst
          (λ v.
            (admit v mode now).1 ≡ ok t
            → (w : Work) × ((next (admit v mode now).0 now').1 ≡ some w)
              × EndsWith (next (admit v mode now).0 now').0 w)
          (sym (resolve-fields u f i))
          (λ h.
            let k = admit-fields (record u { failed = false }) mode now t h in
            next-Ends (admit (record u { failed = false }) mode now).0 now' k.0 (k.1 ∙ i) k.3
              (subst Ends (sym (k.2 ∙ b)) (refl, refl)))
