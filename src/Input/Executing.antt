-- ===== src/Input/Executing.antt =====
-- The executor's side keeps the invariant of an input session.
use jackstay.Base.{
  ℕ, ◌+◌, ◌≤◌, ◌≡◌, inl, inr, refl, sym, ◌∙◌, subst, subst₂, Bool, true, false, Option, none, some,
  List, [], ◌∷◌, arith, length, Option-cases, Bool-cases, is_some, add64, if◌then◌else◌,
}
use jackstay.Base.Result.{Result, ok, err}
use jackstay.Base.Sub.{skip, Sub-refl}
use jackstay.Input.Model.{
  Mode, down, up, repeat, key, text, motion, button, scroll, Operation, event, cleanup, Work,
  Status, completed, rejected, Config, Error, executed,
}
use jackstay.Input.State.{
  Active, Barrier, Flight, State, report, expire, bind, bind_operation, bind_key, bind_button,
  write_mailbox,
}
use jackstay.Input.Controller.{queue_bytes}
use jackstay.Input.Target.{new, admit, fresh_active, dispatch, take_barrier, cleanup_work, next}
use jackstay.Input.Frame.{report-Trimmed, requeued, trimmed}
use jackstay.Input.Invariant.{
  Owned, KeysFit, IsValid, is_event, presses, press_count, Owned-Sub, queue_bytes-Sub,
  report-IsValid, expire-IsValid, Trimmed-IsValid,
}

pub new-IsValid : (c : Config) {s : State} → new c ≡ ok s → IsValid s
unfolding new queue_bytes
new-IsValid c {s} h = ground arith

admitted-IsValid :
    (s : State) (a : Active) (boxes : ℕ → List Status)
    → IsValid s
    → s.active ≡ none
    → s.failed ≡ false
    → a.keys ≡ []
    → IsValid (record s { next_controller = a.id; active = some a; mailboxes = boxes })
admitted-IsValid s a boxes v e f k =
    let (q, n) = subst (λ o. Owned o s.queue s.flight) e v.owned in
    record {
      owned = rw (q, n) (tt, omega arith, tt);
      bounded = v.bounded;
      bytes = v.bytes;
      keys = rw (k, n) (omega arith);
      known = omega arith;
      out = inl f;
    }

pub admit-IsValid : (s : State) (mode : Mode) (now : ℕ) → IsValid s → IsValid (admit s mode now).0
unfolding admit
admit-IsValid s mode now v = ground (
  arith,
  admitted-IsValid s (fresh_active (s.next_controller + 1) mode now)
      (write_mailbox s.mailboxes (s.next_controller + 1) []) v,
)

-- What `bind` hands back belongs to the same submission, and a press has room among the held keys.
abbrev pub Bound : State → Active → Work → Work → Type 0
Bound s a w w' =
    (w'.sequence ≡ w.sequence)
    × (w'.controller ≡ w.controller)
    × (w'.epoch ≡ w.epoch)
    × (is_event w'.operation ≡ true)
    × (length a.keys + presses w'.operation ≤ s.config.max_events)

bind_operation_lem :
    (s : State) (a : Active) (w w' : Work) (due : Bool) (o : Operation)
    → o ≡ w.operation
    → is_event o ≡ true
    → length a.keys ≤ s.config.max_events
    → bind_operation s a w o ≡ ok (due, w')
    → Bound s a w w'
unfolding bind_operation bind_key bind_button
bind_operation_lem s a w w' due (event (key press down k m)) e ev room h = ground arith
bind_operation_lem s a w w' due (event (key press up k m)) e ev room h = ground arith
bind_operation_lem s a w w' due (event (key press repeat k m)) e ev room h = ground arith
bind_operation_lem s a w w' due (event (text t)) e ev room h = ground arith
bind_operation_lem s a w w' due (event (motion p)) e ev room h = ground arith
bind_operation_lem s a w w' due (event (button b down p)) e ev room h = ground arith
bind_operation_lem s a w w' due (event (button b up p)) e ev room h = ground arith
bind_operation_lem s a w w' due (event (button b repeat p)) e ev room h = ground arith
bind_operation_lem s a w w' due (event (scroll x)) e ev room h = ground arith
bind_operation_lem s a w w' due (cleanup sc r) e ev room h = cc

-- The queue without its first entry, with or without that entry in flight.
module _ (s : State) (w : Work) (ws : List Work) (idle : s.flight ≡ none)
    (v : IsValid (record s { queue = w ∷ ws })) where
  pub popped-IsValid : IsValid (record s { queue = ws })
  popped-IsValid = record {
    owned = Owned-Sub s.active s.flight (skip w (Sub-refl ws)) v.owned;
    bounded = omega (arith, v.bounded);
    bytes = omega (arith, v.bytes, queue_bytes-Sub (skip w (Sub-refl ws)));
    keys = v.keys;
    known = v.known;
    out = v.out;
  }

  flown-IsValid :
      (a : Active) (w' : Work)
      → s.active ≡ some a
      → Bound s a w w'
      → IsValid (record s { queue = ws; flight = some (record { work = w'; ends = false }) })
  flown-IsValid a w' e (sq, ct, ep, ev, room) =
      let (fine, l, o) = subst (λ o. Owned o (w ∷ ws) s.flight) e v.owned in
      record {
        owned = rw e (rw sq fine.5, rw sq fine.1, ct ∙ fine.2);
        bounded = ground (arith, v.bounded);
        bytes = omega (arith, v.bytes, queue_bytes-Sub (skip w (Sub-refl ws)));
        keys = rw e room;
        known = v.known;
        out = v.out;
      }

bind-active :
    (s : State) (a : Active) (w : Work)
    → s.active ≡ some a
    → bind s w ≡ bind_operation s a w w.operation
unfolding bind
bind-active s a w e = rw (e, bind)

-- What `bind` makes of the first entry of a valid queue.
pub bind-Bound :
    (s : State) (w w' : Work) (ws : List Work) (due : Bool)
    → IsValid (record s { queue = w ∷ ws })
    → bind (record s { queue = ws }) w ≡ ok (due, w')
    → (a : Active) × (s.active ≡ some a) × Bound s a w w'
bind-Bound s w w' ws due v h = elim (Option-cases s.active) [
  | inl e ↦ absurd (cons-ne-nil (subst (λ o. Owned o (w ∷ ws) s.flight) e v.owned).0)
  | inr (a, e) ↦ (
    a,
    e,
    bind_operation_lem (record s { queue = ws }) a w w' due w.operation refl
        (subst (λ o. Owned o (w ∷ ws) s.flight) e v.owned).0.4
        (room a (subst (λ o. KeysFit s.config.max_events o s.flight) e v.keys))
        (sym (bind-active (record s { queue = ws }) a w e) ∙ h),
  )
]
  where
    cons-ne-nil : (w ∷ ws) ≡ [] → ⊥
    cons-ne-nil e = cc

    room :
        (a : Active)
        → length a.keys + press_count s.flight ≤ s.config.max_events
        → length a.keys ≤ s.config.max_events
    room a h = omega arith

-- What `dispatch` sends off is in its place.
dispatched-IsValid :
    (s : State) (w w' : Work) (ws : List Work)
    → s.flight ≡ none
    → IsValid (record s { queue = w ∷ ws })
    → bind (record s { queue = ws }) w ≡ ok (true, w')
    → IsValid (record s { queue = ws; flight = some (record { work = w'; ends = false }) })
dispatched-IsValid s w w' ws idle v h =
    let (a, e, b) = bind-Bound s w w' ws true v h in flown-IsValid s w ws idle v a w' e b

-- After a status, the loop goes on with the rest of the queue.
pub resumed-IsValid :
    (s : State) (ws : List Work) (status : Status)
    → IsValid (record s { queue = ws })
    → IsValid (record (report (record s { queue = ws }) status) { queue = ws })
resumed-IsValid s ws status v =
    Trimmed-IsValid (requeued ws ws (report-Trimmed (record s { queue = ws }) status) (Sub-refl ws))
      v

-- Either the first entry flies, or a status is reported and the loop goes on or stops.
pub dispatch_cases {ℓ} :
    (P : State × Option Work → Type ℓ) (s : State) (w : Work) (ws : List Work)
    → ((w' : Work)
        → bind (record s { queue = ws }) w ≡ ok (true, w')
        → P (record s { queue = ws; flight = some (record { work = w'; ends = false }) }, some w'))
    → ((status : Status) → P (report (record s { queue = ws }) status, none))
    → ((status : Status) → P (dispatch ws (report (record s { queue = ws }) status)))
    → P (dispatch (w ∷ ws) s)
unfolding dispatch
dispatch_cases P s w ws flies stops goes = bound (bind (record s { queue = ws }) w) refl
  where
    split :
        (status : Status)
        → let s' = report (record s { queue = ws }) status in
          P (if is_some s'.barrier then (s', none) else dispatch ws s')
    split status = elim (Bool-cases (is_some (report (record s { queue = ws }) status).barrier)) [
      | inl e ↦ rw e (stops status)
      | inr e ↦ rw e (goes status)
    ]

    bound :
        (r : Result Error (Bool × Work))
        → bind (record s { queue = ws }) w ≡ r
        → P (dispatch (w ∷ ws) s)
    bound (ok (true, w')) e = rw (e, dispatch) (flies w' e)
    bound (ok (false, w')) e = rw (e, dispatch) (split (completed w'.sequence executed))
    bound (err f) e = rw (e, dispatch) (split (rejected w.sequence f))

pub dispatch-IsValid :
    (ws : List Work) (s : State)
    → s.flight ≡ none
    → IsValid (record s { queue = ws })
    → IsValid (dispatch ws s).0
unfolding dispatch
dispatch-IsValid [] s idle v = v
dispatch-IsValid (w ∷ ws) s idle v =
    dispatch_cases (λ o. IsValid o.0) s w ws (λ w' h. dispatched-IsValid s w w' ws idle v h)
      (λ status. report-IsValid _ status (popped-IsValid s w ws idle v))
      (λ status.
        dispatch-IsValid ws (report (record s { queue = ws }) status)
          ((report-Trimmed (record s { queue = ws }) status).flight_kept ∙ idle)
          (resumed-IsValid s ws status (popped-IsValid s w ws idle v)))

taken-IsValid :
    (s : State) (a : Active) (b : Barrier)
    → s.active ≡ some a
    → s.flight ≡ none
    → IsValid s
    → IsValid (record s {
      barrier = none;
      next_work = add64 s.next_work 1;
      flight = some (record { work = cleanup_work a b (add64 s.next_work 1); ends = b.ends });
    })
taken-IsValid s a b e idle v =
    let (fine, l, o) = subst₂ (λ x f. Owned x s.queue f) e idle v.owned in
    record {
      owned = rw e (fine, l, refl);
      bounded = omega (arith, v.bounded);
      bytes = v.bytes;
      keys = rw e (subst₂ (KeysFit s.config.max_events) e idle v.keys);
      known = v.known;
      out = v.out;
    }

-- A barrier becomes the cleanup in flight; without a controller it is only let go.
pub take_barrier_cases {ℓ} :
    (P : State × Option Work → Type ℓ) (s : State) (b : Barrier)
    → (s.active ≡ none → P (record s { barrier = none }, none))
    → ((a : Active)
        → s.active ≡ some a
        → P (
          record s {
            barrier = none;
            next_work = add64 s.next_work 1;
            flight = some (record { work = cleanup_work a b (add64 s.next_work 1); ends = b.ends });
          },
          some (cleanup_work a b (add64 s.next_work 1)),
        ))
    → P (take_barrier s b)
unfolding take_barrier
take_barrier_cases P s b gone taken = elim (Option-cases s.active) [
  | inl e ↦ rw (e, take_barrier) (gone e)
  | inr (a, e) ↦ rw (e, take_barrier) (taken a e)
]

pub take_barrier-IsValid :
    (s : State) (b : Barrier) → s.flight ≡ none → IsValid s → IsValid (take_barrier s b).0
take_barrier-IsValid s b idle v =
    take_barrier_cases (λ o. IsValid o.0) s b
      (λ e. Trimmed-IsValid (trimmed s s.mailboxes none s.queue (Sub-refl s.queue)) v)
      (λ a e. taken-IsValid s a b e idle v)

-- `next` waits for the work in flight, and prefers a barrier to the queue.
pub next_cases {ℓ} :
    (P : State × Option Work → Type ℓ) (s : State) (now : ℕ)
    → ((f : Flight) → (expire s now).flight ≡ some f → P (expire s now, none))
    → ((b : Barrier)
        → (expire s now).flight ≡ none
        → (expire s now).barrier ≡ some b
        → P (take_barrier (expire s now) b))
    → ((expire s now).flight ≡ none
        → (expire s now).barrier ≡ none
        → P (dispatch (expire s now).queue (expire s now)))
    → P (next s now)
unfolding next
next_cases P s now waits barred goes = elim (Option-cases (expire s now).flight) [
  | inr (f, e) ↦ rw (e, next) (waits f e)
  | inl e ↦ elim (Option-cases (expire s now).barrier) [
    | inr (b, g) ↦ rw (e, g, next) (barred b e g)
    | inl g ↦ rw (e, g, next) (goes e g)
  ]
]

pub next-IsValid : (s : State) (now : ℕ) → IsValid s → IsValid (next s now).0
next-IsValid s now v =
    next_cases (λ o. IsValid o.0) s now (λ f e. expire-IsValid s now v)
      (λ b e g. take_barrier-IsValid (expire s now) b e (expire-IsValid s now v))
      (λ e g. dispatch-IsValid (expire s now).queue (expire s now) e (expire-IsValid s now v))
