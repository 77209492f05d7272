-- ===== src/Input/Ending.antt =====
-- How a session ends: `close`, the cleanup that follows, and what its outcome leaves.
use jackstay.Base.{
  ℕ, ◌≡◌, inl, inr, refl, sym, ◌∙◌, subst, Bool, true, false, not, Option, none, some, List, [],
  ◌∷◌, ◌++◌, arith, Bool-cases, is_some, add64, ==_refl, ◌||◌, ◌&&◌,
}
use jackstay.Base.Result.{ok, err}
use jackstay.Input.Model.{
  Scope, all, pointer, Reason, disconnect, expired, cleanup_failed, ExecutorOutcome, executed,
  cleanup, Work, Status, closed_for, rejected, stale,
}
use jackstay.Input.Validate.{is_empty}
use jackstay.Input.State.{
  Active, Barrier, Flight, State, is_all, barrier_all, flight_ends, dropped_by, drop_queued, report,
  cancel, expire,
}
use jackstay.Input.Target.{
  Ticket, next, complete, complete_flight, complete_cleanup, end_session, fail_session, is_executed,
  is_idle, let_go_active, cleanup_work,
}
use jackstay.Input.Controller.{mine, close}
use jackstay.Input.Frame.{
  Trimmed, report-Trimmed, report_cases, cancel-Trimmed, expire-Trimmed, expire_cases,
}
use jackstay.Input.Executing.{next_cases, take_barrier_cases}
use jackstay.Input.Submitting.{mine_cases}

-- A barrier under which everything is let go and the session ends.
abbrev pub Ends : Option Barrier → Type 0
Ends none = ⊥
Ends (some b) = (is_all b.scope ≡ true) × (b.ends ≡ true)

report-Ends : (s : State) (status : Status) → Ends s.barrier → Ends (report s status).barrier
report-Ends s status h =
    report_cases (λ u. Ends u.barrier) s status (λ boxes. h) (λ boxes. (refl, refl))

drop_queued-Ends :
    (scope : Scope) (ws keep : List Work) (s : State)
    → Ends s.barrier
    → Ends (drop_queued scope ws keep s).barrier
unfolding drop_queued
drop_queued-Ends scope [] keep s h = h
drop_queued-Ends scope (w ∷ ws) keep s h = elim (Bool-cases (dropped_by scope w.operation)) [
  | inl d ↦
      rw d
        (elim (Bool-cases
          (is_empty (report (record s { queue = ws }) (rejected w.sequence stale)).queue)) [
            | inl f ↦ rw f (report-Ends (record s { queue = ws }) _ h)
            | inr f ↦
                rw f (drop_queued-Ends scope ws keep _ (report-Ends (record s { queue = ws }) _ h))
          ])
  | inr d ↦ rw d (drop_queued-Ends scope ws (keep ++ (w ∷ [])) (record s { queue = ws }) h)
]

false-ne-true : false ≡ true → ⊥
false-ne-true h = cc

or_true : (b : Bool) → (b || true) ≡ true
or_true true = refl
or_true false = refl

cancel-Ends :
    (s : State) (scope : Scope) (reason : Reason)
    → is_some s.active ≡ true
    → s.flight ≡ none
    → Ends (cancel s scope reason true).barrier
unfolding cancel
cancel-Ends s scope reason here idle =
    rw (here, subst (λ f. flight_ends f ≡ false) (sym idle) refl)
      (drop_queued-Ends _ s.queue [] _ (rw (or_true (barrier_all s.barrier)) refl, refl))

expire-Ends :
    (s : State) (now : ℕ)
    → is_some s.active ≡ true
    → s.flight ≡ none
    → Ends s.barrier
    → Ends (expire s now).barrier
expire-Ends s now here idle h =
    expire_cases (λ u. Ends u.barrier) s now h (cancel-Ends s all expired here idle)

-- `w` is the cleanup in flight; with `executed` it ends the session and leaves an idle target with
-- nothing queued, and with any other outcome it takes the target out of service.
pub record EndsWith (s : State) (w : Work) : Type 0 where
  pub everything : (reason : Reason) × (w.operation ≡ cleanup all reason)
  pub answered : (complete s w.id executed).1 ≡ ok tt
  pub idle : is_idle (complete s w.id executed).0 ≡ true
  pub emptied : (complete s w.id executed).0.queue ≡ []
  pub unbarred : (complete s w.id executed).0.barrier ≡ none
  pub failing :
      (outcome : ExecutorOutcome)
      → is_executed outcome ≡ false
      → ((complete s w.id outcome).1 ≡ err cleanup_failed)
        × ((complete s w.id outcome).0.failed ≡ true)
        × ((complete s w.id outcome).0.active ≡ none)

complete_cleanup_lem :
    (s : State) (a : Active) (scope : Scope) (reason : Reason) (ends : Bool) (n : ℕ)
    → s.failed ≡ false
    → is_all scope ≡ true
    → ends ≡ true
    → let w = cleanup_work a (record { scope = scope; reason = reason; ends = ends }) n in
      EndsWith (record s { flight = some (record { work = w; ends = ends }) }) w
unfolding complete complete_flight complete_cleanup end_session fail_session is_idle
complete_cleanup_lem s a all reason true n f h k = record {
  everything = (reason, refl);
  answered = rw (==_refl n) refl;
  idle = rw (==_refl n) (settled _);
  emptied = rw (==_refl n) refl;
  unbarred = rw (==_refl n) refl;
  failing = λ outcome e.
      rw (==_refl n, e) (refl, (report-Trimmed _ (closed_for reason false)).failed_kept, refl);
}
  where
    settled :
        (status : Status)
        → let u = report (record s { active = let_go_active all s.active; flight = none }) status in
          (true && (not (is_some u.flight) && not u.failed)) ≡ true
    settled status =
        let k =
          report-Trimmed (record s { active = let_go_active all s.active; flight = none }) status in
        rw (k.flight_kept, k.failed_kept, f) refl
complete_cleanup_lem s a pointer reason ends n f h k = absurd (false-ne-true h)
complete_cleanup_lem s a all reason false n f h k = absurd (false-ne-true k)

pub next-Ends :
    (s : State) (now : ℕ)
    → is_some s.active ≡ true
    → s.flight ≡ none
    → s.failed ≡ false
    → Ends s.barrier
    → (w : Work) × ((next s now).1 ≡ some w) × EndsWith (next s now).0 w
next-Ends s now here idle fine h =
    next_cases Result s now (λ f e. absurd (none-ne-some ((sym (t.flight_kept ∙ idle)) ∙ e)))
      (λ b e g.
        take_barrier_cases Result (expire s now) b
          (λ n. absurd (
            false-ne-true
              (sym (subst (λ o. is_some o ≡ false) (sym (sym t.active_kept ∙ n)) refl) ∙ here)))
          (λ a n. (
            _,
            refl,
            complete_cleanup_lem
                (record (expire s now) {
                  barrier = none;
                  next_work = add64 (expire s now).next_work 1;
                })
                a b.scope b.reason b.ends _ (t.failed_kept ∙ fine) (subst Ends g k).0
                (subst Ends g k).1,
          )))
      (λ e g. absurd (subst Ends g k))
  where
    Result : State × Option Work → Type 0
    Result o = (w : Work) × (o.1 ≡ some w) × EndsWith o.0 w

    t : Trimmed s (expire s now)
    t = expire-Trimmed s now

    k : Ends (expire s now).barrier
    k = expire-Ends s now here idle h

    none-ne-some : {f : Flight} → none ≡ some f → ⊥
    none-ne-some h = cc

-- Once the active controller closes with nothing in flight on a target in service, the next work is
-- the cleanup of everything. Its execution leaves the target idle, without controller, queue or
-- barrier; any other outcome takes the target out of service and the controller off it.
pub close-next :
    (s : State) (t : Ticket) (now : ℕ) (a : Active)
    → s.active ≡ some a
    → a.id ≡ t.id
    → s.flight ≡ none
    → s.failed ≡ false
    → (w : Work) × ((next (close s t) now).1 ≡ some w) × EndsWith (next (close s t) now).0 w
unfolding close
close-next s t now a here own idle fine =
    next-Ends (close s t) now (subst (λ o. is_some o ≡ true) (sym (k.active_kept ∙ here)) refl)
      (k.flight_kept ∙ idle) (k.failed_kept ∙ fine) barred
  where
    closing : close s t ≡ cancel s all disconnect true
    closing = elim (mine_cases t s.active) [
      | inl m ↦ absurd (taken (subst (λ o. mine t o ≡ none) here m))
      | inr (b, m, there, same) ↦ rw (m, close) refl
    ]
      where
        taken : mine t (some a) ≡ none → ⊥
        taken m = ground arith

    k : Trimmed s (close s t)
    k = subst (Trimmed s) (sym closing) (cancel-Trimmed s all disconnect true)

    barred : Ends (close s t).barrier
    barred =
        subst (λ u. Ends u.barrier) (sym closing)
          (cancel-Ends s all disconnect (subst (λ o. is_some o ≡ true) (sym here) refl) idle)
