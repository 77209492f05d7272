-- ===== src/Input/Sending.antt =====
-- The order of execution of one controller's events, over any history of calls.
use jackstay.Base.{
  ℕ, ◌≤◌, ◌<◌, ◌≡◌, inl, inr, refl, sym, ◌∙◌, subst, subst₂, true, false, Option, none, some, List,
  [], ◌∷◌, arith, Option-cases,
}
use jackstay.Base.Sub.{Sub-refl, skip}
use jackstay.Input.Model.{Event, all, focus, disconnect, Status, Work}
use jackstay.Input.State.{Active, Barrier, Flight, State, expire}
use jackstay.Input.Target.{Ticket, next, dispatch, cleanup_work, tick, resolve_failed_cleanup}
use jackstay.Input.Controller.{submit, reset_input, close, poll}
use jackstay.Input.Frame.{report-Trimmed, requeued}
use jackstay.Input.Invariant.{Fine, Owned, Known, Fine-lower, IsValid, is_event, expire-IsValid}
use jackstay.Input.Executing.{
  Bound, bind-Bound, popped-IsValid, resumed-IsValid, dispatch_cases, take_barrier_cases,
  next_cases, next-IsValid,
}
use jackstay.Input.Submitting.{submit_cases}
use jackstay.Input.Calls.{
  Call, admits, takes, ticks, answers, moves, resolves, beats, submits, resets, closes, polls, step,
  run, run-IsValid,
}
use jackstay.Input.Order.{
  Rising, Ahead, Past, shorter, expire-Past, cancel-Past, admit-Past, next-Past, Trimmed-Past,
}
use jackstay.Input.Answering.{
  complete-Past, set_geometry-Past, heartbeat-Past, accept-Past, raised-Past,
}

module _ (d id : ℕ) where
  submit-Past :
      (s : State) (t : Ticket) (now epoch sequence : ℕ) (e : Event)
      → Past d id s
      → Past d id (submit s t now epoch sequence e).0
  submit-Past s t now epoch sequence e p =
      submit_cases (λ o. Past d id o.0) s t now epoch sequence e (λ f. q)
        (λ a here later f.
          raised-Past d id (expire s now) a sequence q here later (expire s now).queue a.scroll_open
            (expire s now).next_work (λ r l. r))
        (λ a here own same later clear k.
          accept-Past d id (expire s now) a sequence q here later t epoch e)
    where
      q : Past d id (expire s now)
      q = expire-Past d id s now p

  step-Past : (s : State) (c : Call) → Past d id s → Past d id (step s c)
  unfolding step tick resolve_failed_cleanup reset_input close poll
  step-Past s (admits mode now) p = admit-Past d id s mode now p
  step-Past s (takes now) p = next-Past d id s now p
  step-Past s (ticks now) p = expire-Past d id s now p
  step-Past s (answers n outcome) p = complete-Past d id s n outcome p
  step-Past s (moves g) p = set_geometry-Past d id s g p
  step-Past s resolves p =
      ground (arith, p, shorter d id s (record s { failed = false }) p refl refl (Sub-refl s.queue))
  step-Past s (beats t now) p = heartbeat-Past d id s t now p
  step-Past s (submits t now epoch sequence e) p = submit-Past s t now epoch sequence e p
  step-Past s (resets t) p = ground (arith, p, cancel-Past d id s all focus false p)
  step-Past s (closes t) p = ground (arith, p, cancel-Past d id s all disconnect true p)
  step-Past s (polls t) p = ground (arith, p, read)
    where
      read : (boxes : ℕ → List Status) → Past d id (record s { mailboxes = boxes })
      read boxes = shorter d id s (record s { mailboxes = boxes }) p refl refl (Sub-refl s.queue)

  run-Past : (s : State) (cs : List Call) → Past d id s → Past d id (run s cs)
  unfolding run
  run-Past s [] p = p
  run-Past s (c ∷ cs) p = run-Past (step s c) cs (step-Past s c p)

  -- What leaves the queue of the controller comes after `d`.
  dispatch-after :
      (ws : List Work) (s : State) (w : Work)
      → s.flight ≡ none
      → IsValid (record s { queue = ws })
      → Past d id (record s { queue = ws })
      → (dispatch ws s).1 ≡ some w
      → w.controller ≡ id
      → d < w.sequence
  unfolding dispatch
  dispatch-after [] s w idle v p = λ h. absurd (none-ne-some h)
    where
      none-ne-some : none ≡ some w → ⊥
      none-ne-some h = cc
  dispatch-after (x ∷ xs) s w idle v p =
      dispatch_cases (λ o. o.1 ≡ some w → w.controller ≡ id → d < w.sequence) s x xs
        (λ w' h e i. after w' (bind-Bound s x w' xs true v h) (same e) i)
        (λ status h. absurd (none-ne-some h))
        (λ status.
          dispatch-after xs _ w
            ((report-Trimmed (record s { queue = xs }) status).flight_kept ∙ idle)
            (resumed-IsValid s xs status (popped-IsValid s x xs idle v))
            (Trimmed-Past d id
              (requeued xs xs (report-Trimmed (record s { queue = xs }) status) (Sub-refl xs))
              popped))
    where
      none-ne-some : none ≡ some w → ⊥
      none-ne-some h = cc

      same : {w' : Work} → some w' ≡ some w → w' ≡ w
      same e = cc

      after :
          (w' : Work)
          → (a : Active) × (s.active ≡ some a) × Bound s a x w'
          → w' ≡ w
          → w.controller ≡ id
          → d < w.sequence
      after w' (a, e, b) k i =
          let fine = subst (λ o. Owned o (x ∷ xs) s.flight) e v.owned in
          let own : w'.controller ≡ id = subst (λ y. y.controller ≡ id) (sym k) i in
          let ahead = subst (λ o. Ahead d id o (x ∷ xs)) e p.ahead (sym fine.0.2 ∙ sym b.1 ∙ own) in
          let first : d < w'.sequence = rw b.0 ahead.1.0 in subst (λ y. d < y.sequence) k first

      popped : Past d id (record s { queue = xs })
      popped =
          shorter d id (record s { queue = x ∷ xs }) (record s { queue = xs }) p refl refl
            (skip x (Sub-refl xs))

-- What `next` returns is in flight.
next-flight :
    (s : State) (now : ℕ) (w : Work)
    → (next s now).1 ≡ some w
    → (f : Flight) × ((next s now).0.flight ≡ some f) × (f.work ≡ w)
unfolding dispatch
next-flight s now w =
    next_cases Flown s now (λ f e h. absurd (none-ne-some h))
      (λ b e g.
        take_barrier_cases Flown (expire s now) b (λ n h. absurd (none-ne-some h))
          (λ a n h. (_, refl, same h)))
      (λ e g. dispatched (expire s now).queue (expire s now))
  where
    Flown : State × Option Work → Type 0
    Flown o = o.1 ≡ some w → (f : Flight) × (o.0.flight ≡ some f) × (f.work ≡ w)

    none-ne-some : none ≡ some w → ⊥
    none-ne-some h = cc

    same : {w' : Work} → some w' ≡ some w → w' ≡ w
    same e = cc

    dispatched : (ws : List Work) (s : State) → Flown (dispatch ws s)
    dispatched [] s = λ h. absurd (none-ne-some h)
    dispatched (x ∷ xs) s =
        dispatch_cases Flown s x xs (λ w' h e. (_, refl, same e))
          (λ status h. absurd (none-ne-some h)) (λ status. dispatched xs _)

-- An event that leaves the queue of a controller comes after `d`.
next-after :
    (d id : ℕ) (s : State) (now : ℕ) (w : Work)
    → IsValid s
    → Past d id s
    → (next s now).1 ≡ some w
    → is_event w.operation ≡ true
    → w.controller ≡ id
    → d < w.sequence
next-after d id s now w v p =
    next_cases
      (λ o. o.1 ≡ some w → is_event w.operation ≡ true → w.controller ≡ id → d < w.sequence) s now
      (λ f e h. absurd (none-ne-some h))
      (λ b e g.
        take_barrier_cases
          (λ o. o.1 ≡ some w → is_event w.operation ≡ true → w.controller ≡ id → d < w.sequence)
          (expire s now) b (λ n h. absurd (none-ne-some h)) (λ a n h k. absurd (cleaning a b h k)))
      (λ e g h k i.
        dispatch-after d id (expire s now).queue (expire s now) w e (expire-IsValid s now v)
          (expire-Past d id s now p) h i)
  where
    none-ne-some : none ≡ some w → ⊥
    none-ne-some h = cc

    cleaning :
        (a : Active) (b : Barrier) {n : ℕ}
        → some (cleanup_work a b n) ≡ some w
        → is_event w.operation ≡ true
        → ⊥
    cleaning a b {n} h k = cc

Rising-Fine : (id epoch last lo : ℕ) (ws : List Work) → Fine id epoch last lo ws → Rising lo ws
Rising-Fine id epoch last lo [] f = tt
Rising-Fine id epoch last lo (x ∷ xs) f =
    (f.0, Rising-Fine id epoch last lo xs (Fine-lower id epoch last xs (omega arith) f.5))

-- With an event in flight, the queue holds later ones.
flight-Past :
    (u : State) (f : Flight)
    → IsValid u
    → u.flight ≡ some f
    → Past f.work.sequence f.work.controller u
flight-Past u f v fl = elim (Option-cases u.active) [
  | inl e ↦ absurd (none-ne-some (subst (λ o. Owned o u.queue u.flight) e v.owned).1)
  | inr (a, e) ↦
      held a e (subst₂ (λ o g. Owned o u.queue g) e fl v.owned)
        (subst (Known u.next_controller) e v.known)
]
  where
    none-ne-some : u.flight ≡ none → ⊥
    none-ne-some h = cc

    held :
        (a : Active)
        → u.active ≡ some a
        → Owned (some a) u.queue (some f)
        → a.id ≤ u.next_controller
        → Past f.work.sequence f.work.controller u
    held a e (fine, l, o) k = record {
      admitted = omega arith;
      ahead =
          rw e (λ i. (l, Rising-Fine a.id a.epoch a.last_sequence f.work.sequence u.queue fine));
    }

-- Of the events of one controller, a later one to reach the executor was submitted later: in a valid
-- session, if `next` hands out an event and, after any calls, another event of the same controller,
-- the second one's sequence is greater.
pub next-rising :
    (s : State) (now : ℕ) (w : Work) (cs : List Call) (now' : ℕ) (w' : Work)
    → IsValid s
    → (next s now).1 ≡ some w
    → (next (run (next s now).0 cs) now').1 ≡ some w'
    → is_event w'.operation ≡ true
    → w'.controller ≡ w.controller
    → w.sequence < w'.sequence
next-rising s now w cs now' w' v h k e c =
    let u = (next s now).0 in
    let valid : IsValid u = next-IsValid s now v in
    next-after w.sequence w.controller (run u cs) now' w' (run-IsValid u cs valid)
      (run-Past w.sequence w.controller u cs (started u valid (next-flight s now w h))) k e c
  where
    started :
        (u : State)
        → IsValid u
        → (f : Flight) × (u.flight ≡ some f) × (f.work ≡ w)
        → Past w.sequence w.controller u
    started u v (f, fl, i) = subst (λ x. Past x.sequence x.controller u) i (flight-Past u f v fl)
