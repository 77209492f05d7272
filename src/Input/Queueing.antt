-- ===== src/Input/Queueing.antt =====
-- What `submit` does to the queue keeps the invariant of an input session.
use jackstay.Base.{
  ℕ, ◌+◌, ◌≤◌, ◌<◌, ◌≡◌, inl, inr, refl, sym, subst, Bool, true, false, some, List, [], ◌∷◌, ◌++◌,
  arith, length, length-append, Bool-cases, add64, ◌||◌, ◌&&◌,
}
use jackstay.Input.Model.{Event, event_bytes, all, overflowed, event, Work, coalesced}
use jackstay.Input.State.{Active, State, work_bytes, operation_bytes}
use jackstay.Input.Target.{Ticket}
use jackstay.Input.Controller.{
  orphan_scroll, is_motion, opens_scroll, ends_in_motion, supersede_tail, queue_bytes, full,
  enqueue, accept,
}
use jackstay.Input.Invariant.{
  is_event, Fine, flight_sequence, FlightOf, Owned, event_count, KeysFit, Known, IsValid,
  report-IsValid, cancel-IsValid,
}
use jackstay.Input.Landing.{none-ne-some}

Fine-append :
    (id epoch last lo sequence : ℕ) (ws : List Work) (w : Work)
    → Fine id epoch last lo ws
    → lo ≤ last
    → last < sequence
    → w.sequence ≡ sequence
    → w.controller ≡ id
    → w.epoch ≡ epoch
    → is_event w.operation ≡ true
    → Fine id epoch sequence lo (ws ++ (w ∷ []))
Fine-append id epoch last lo sequence [] w f l h s c e o = (omega arith, omega arith, c, e, o, tt)
Fine-append id epoch last lo sequence (v ∷ vs) w f l h s c e o = (
  f.0,
  omega arith,
  f.2,
  f.3,
  f.4,
  Fine-append id epoch last v.sequence sequence vs w f.5 f.1 h s c e o,
)

Fine-supersede :
    (id epoch last lo sequence : ℕ) (ws : List Work) (e : Event)
    → Fine id epoch last lo ws
    → last < sequence
    → Fine id epoch sequence lo (supersede_tail ws sequence e)
unfolding supersede_tail
Fine-supersede id epoch last lo sequence [] e f h = tt
Fine-supersede id epoch last lo sequence (w ∷ []) e f h =
    (omega arith, omega arith, f.2, f.3, refl, tt)
Fine-supersede id epoch last lo sequence (w ∷ (v ∷ vs)) e f h = (
  f.0,
  omega arith,
  f.2,
  f.3,
  f.4,
  Fine-supersede id epoch last w.sequence sequence (v ∷ vs) e f.5 h,
)

Fine-raise :
    (id epoch last lo sequence : ℕ) (ws : List Work)
    → Fine id epoch last lo ws
    → last ≤ sequence
    → Fine id epoch sequence lo ws
Fine-raise id epoch last lo sequence [] f h = tt
Fine-raise id epoch last lo sequence (w ∷ ws) f h =
    (f.0, omega arith, f.2, f.3, f.4, Fine-raise id epoch last w.sequence sequence ws f.5 h)

length-supersede_tail :
    (ws : List Work) (sequence : ℕ) (e : Event) → length (supersede_tail ws sequence e) ≡ length ws
unfolding supersede_tail
length-supersede_tail [] sequence e = refl
length-supersede_tail (w ∷ []) sequence e = refl
length-supersede_tail (w ∷ (v ∷ vs)) sequence e =
    omega (arith, length-supersede_tail (v ∷ vs) sequence e)

-- A motion takes the place of a motion, which is as long.
queue_bytes-supersede_tail :
    (ws : List Work) (sequence : ℕ) (e : Event)
    → is_motion e ≡ true
    → ends_in_motion ws ≡ true
    → queue_bytes (supersede_tail ws sequence e) ≡ queue_bytes ws
unfolding supersede_tail queue_bytes ends_in_motion operation_bytes event_bytes
queue_bytes-supersede_tail [] sequence e m h = refl
queue_bytes-supersede_tail (w ∷ []) sequence e m h = ground arith
queue_bytes-supersede_tail (w ∷ (v ∷ vs)) sequence e m h =
    omega (arith, queue_bytes-supersede_tail (v ∷ vs) sequence e m h)

queue_bytes-append :
    (ws : List Work) (w : Work) → queue_bytes (ws ++ (w ∷ [])) ≡ queue_bytes ws + work_bytes w
unfolding queue_bytes
queue_bytes-append [] w = omega arith
queue_bytes-append (v ∷ vs) w = omega (arith, queue_bytes-append vs w)

module _ (s : State) (a : Active) (sequence : ℕ) (here : s.active ≡ some a)
    (later : a.last_sequence < sequence) (v : IsValid s) where
  abbrev pub raised : Active
  raised = record a { last_sequence = sequence }

  fine :
      Fine a.id a.epoch a.last_sequence (flight_sequence s.flight) s.queue
      × (flight_sequence s.flight ≤ a.last_sequence)
      × FlightOf a.id s.flight
  fine = subst (λ o. Owned o s.queue s.flight) here v.owned

  -- The same controller with its last sequence raised, and another queue.
  remade-IsValid :
      (q : List Work) (opened : Bool) (n : ℕ)
      → Fine a.id a.epoch sequence (flight_sequence s.flight) q
      → length q + event_count s.flight ≤ s.config.max_events
      → queue_bytes q ≤ s.config.max_bytes
      → IsValid (record s {
        active = some (record a { last_sequence = sequence; scroll_open = opened });
        next_work = n;
        queue = q;
      })
  remade-IsValid q opened n f l b = record {
    owned = (f, omega (arith, fine.1), fine.2);
    bounded = l;
    bytes = b;
    keys = subst (λ o. KeysFit s.config.max_events o s.flight) here v.keys;
    known = subst (Known s.next_controller) here v.known;
    out = elim v.out [ inl n ↦ inl n | inr n ↦ absurd (none-ne-some here n) ];
  }

  pub raised-IsValid : IsValid (record s { active = some raised })
  raised-IsValid =
      remade-IsValid s.queue a.scroll_open s.next_work
        (Fine-raise a.id a.epoch a.last_sequence (flight_sequence s.flight) sequence s.queue fine.0
          (omega arith))
        v.bounded v.bytes

  superseded-IsValid :
      (e : Event)
      → is_motion e ≡ true
      → ends_in_motion s.queue ≡ true
      → IsValid (record s { active = some raised; queue = supersede_tail s.queue sequence e })
  superseded-IsValid e m h =
      remade-IsValid (supersede_tail s.queue sequence e) a.scroll_open s.next_work
        (Fine-supersede a.id a.epoch a.last_sequence (flight_sequence s.flight) sequence s.queue e
          fine.0 later)
        (rw (length-supersede_tail s.queue sequence e) v.bounded)
        (rw (queue_bytes-supersede_tail s.queue sequence e m h) v.bytes)

  room :
      (e : Event)
      → full s e ≡ false
      → (length s.queue + 1 + event_count s.flight ≤ s.config.max_events)
        × (queue_bytes s.queue + event_bytes e ≤ s.config.max_bytes)
  room e h = ground arith

  enqueued-IsValid :
      (t : Ticket) (e : Event)
      → a.id ≡ t.id
      → full s e ≡ false
      → IsValid (enqueue (record s { active = some raised }) raised t a.epoch sequence e)
  unfolding enqueue operation_bytes
  enqueued-IsValid t e own h =
      remade-IsValid (s.queue ++ (w ∷ [])) (a.scroll_open || opens_scroll e) (add64 s.next_work 1)
        (Fine-append a.id a.epoch a.last_sequence (flight_sequence s.flight) sequence s.queue w
          fine.0 fine.1 later refl (sym own) refl refl)
        (omega (arith, length-append s.queue (w ∷ []), (room e h).0))
        (omega (arith, queue_bytes-append s.queue w, (room e h).1))
    where
      w : Work
      w = record {
        mode = t.mode;
        id = add64 s.next_work 1;
        controller = t.id;
        epoch = a.epoch;
        sequence = sequence;
        operation = event e;
      }

  -- What `submit` does with a valid event, case by case.
  pub accept-IsValid :
      (t : Ticket) (e : Event)
      → a.id ≡ t.id
      → IsValid (accept (record s { active = some raised }) raised t a.epoch sequence e).0
  unfolding accept
  accept-IsValid t e own = elim (Bool-cases (orphan_scroll raised e)) [
    | inl g ↦ rw g raised-IsValid
    | inr g ↦ rw g (elim (Bool-cases (is_motion e && ends_in_motion s.queue)) [
      | inl h ↦ rw h (report-IsValid _ (coalesced 1) (superseded-IsValid e (both h).0 (both h).1))
      | inr h ↦ rw h (elim (Bool-cases (full s e)) [
        | inl k ↦
            rw k (
              cancel-IsValid (record s { active = some raised }) all overflowed true raised-IsValid)
        | inr k ↦ rw k (enqueued-IsValid t e own k)
      ])
    ])
  ]
    where
      both :
          (is_motion e && ends_in_motion s.queue) ≡ true
          → (is_motion e ≡ true) × (ends_in_motion s.queue ≡ true)
      both h = ground arith
