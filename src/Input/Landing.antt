-- ===== src/Input/Landing.antt =====
-- An event that lands keeps the invariant of an input session.
use jackstay.Base.{
  ◌+◌, ◌≤◌, ◌≡◌, inl, inr, refl, subst, true, Option, none, some, arith, length, Option-cases,
}
use jackstay.Base.Dict.{length-remove-le, length-insert-le}
use jackstay.Input.Model.{
  down, up, repeat, Event, key, text, motion, button, scroll, event, all, execution,
  ExecutorOutcome,
}
use jackstay.Input.State.{Active, Flight, State, apply, apply_to}
use jackstay.Input.Target.{complete_event}
use jackstay.Input.Invariant.{
  Owned, KeysFit, Known, IsValid, presses, press_count, Fine-lower, report-IsValid, cancel-IsValid,
}

-- Without the work in flight.
pub landed-IsValid :
    (s : State) (f : Flight) → s.flight ≡ some f → IsValid s → IsValid (record s { flight = none })
landed-IsValid s f e v = record {
  owned = owned s.active v.owned;
  bounded = omega (arith, v.bounded);
  bytes = v.bytes;
  keys = keys s.active v.keys;
  known = v.known;
  out = v.out;
}
  where
    owned : (o : Option Active) → Owned o s.queue s.flight → Owned o s.queue none
    owned none (q, n) = (q, refl)
    owned (some a) (fine, l, o) =
        (Fine-lower a.id a.epoch a.last_sequence s.queue (omega arith) fine, omega arith, tt)

    keys :
        (o : Option Active)
        → KeysFit s.config.max_events o s.flight
        → KeysFit s.config.max_events o none
    keys none h = tt
    keys (some a) h = omega arith

-- An executed event changes what the controller holds, and a press adds at most one key.
apply_to-keys :
    (a : Active) (e : Event) → length (apply_to a e).keys ≤ length a.keys + presses (event e)
unfolding apply_to
apply_to-keys a (key press down k m) = omega (arith, length-insert-le press k a.keys)
apply_to-keys a (key press up k m) = omega (arith, length-remove-le press a.keys)
apply_to-keys a (key press repeat k m) = omega arith
apply_to-keys a (text t) = omega arith
apply_to-keys a (motion p) = omega arith
apply_to-keys a (button b down p) = omega arith
apply_to-keys a (button b up p) = omega arith
apply_to-keys a (button b repeat p) = omega arith
apply_to-keys a (scroll x) = omega arith

-- The same controller in another condition.
pub record Same (a b : Active) : Type 0 where
  pub id_kept : b.id ≡ a.id
  pub epoch_kept : b.epoch ≡ a.epoch
  pub last_kept : b.last_sequence ≡ a.last_sequence

pub apply_to-Same : (a : Active) (e : Event) → Same a (apply_to a e)
unfolding apply_to
apply_to-Same a (key press down k m) = record {
  id_kept = refl;
  epoch_kept = refl;
  last_kept = refl;
}
apply_to-Same a (key press up k m) = record { id_kept = refl; epoch_kept = refl; last_kept = refl }
apply_to-Same a (key press repeat k m) = record {
  id_kept = refl;
  epoch_kept = refl;
  last_kept = refl;
}
apply_to-Same a (text t) = record { id_kept = refl; epoch_kept = refl; last_kept = refl }
apply_to-Same a (motion p) = record { id_kept = refl; epoch_kept = refl; last_kept = refl }
apply_to-Same a (button b down p) = record { id_kept = refl; epoch_kept = refl; last_kept = refl }
apply_to-Same a (button b up p) = record { id_kept = refl; epoch_kept = refl; last_kept = refl }
apply_to-Same a (button b repeat p) = record { id_kept = refl; epoch_kept = refl; last_kept = refl }
apply_to-Same a (scroll x) = record { id_kept = refl; epoch_kept = refl; last_kept = refl }

pub none-ne-some : {o : Option Active} {a : Active} → o ≡ some a → o ≡ none → ⊥
none-ne-some e n = cc

-- The controller of a valid session may change so as long as its keys fit.
pub changed-IsValid :
    (s : State) (a b : Active)
    → s.active ≡ some a
    → Same a b
    → length b.keys + press_count s.flight ≤ s.config.max_events
    → IsValid s
    → IsValid (record s { active = some b })
changed-IsValid s a b e h k v =
    let (fine, l, o) = subst (λ o. Owned o s.queue s.flight) e v.owned in
    record {
      owned = rw (h.id_kept, h.epoch_kept, h.last_kept) (fine, l, o);
      bounded = v.bounded;
      bytes = v.bytes;
      keys = k;
      known = rw h.id_kept (subst (Known s.next_controller) e v.known);
      out = elim v.out [ inl n ↦ inl n | inr n ↦ absurd (none-ne-some e n) ];
    }

pub apply_cases {ℓ} :
    (P : State → Type ℓ) (s : State) (e : Event)
    → (s.active ≡ none → P s)
    → ((a : Active) → s.active ≡ some a → P (record s { active = some (apply_to a e) }))
    → P (apply s e)
unfolding apply
apply_cases P s e gone changed = elim (Option-cases s.active) [
  | inl n ↦ rw (n, apply) (gone n)
  | inr (a, n) ↦ rw (n, apply) (changed a n)
]

applied-IsValid :
    (s : State) (f : Flight) (e : Event)
    → s.flight ≡ some f
    → f.work.operation ≡ event e
    → IsValid s
    → IsValid (apply (record s { flight = none }) e)
unfolding apply
applied-IsValid s f e fl op v = elim (Option-cases s.active) [
  | inl n ↦ rw (n, apply) (landed-IsValid s f fl v)
  | inr (a, n) ↦
      rw (n, apply)
        (changed-IsValid (record s { flight = none }) a (apply_to a e) n (apply_to-Same a e)
          (room a n) (landed-IsValid s f fl v))
]
  where
    room : (a : Active) → s.active ≡ some a → length (apply_to a e).keys + 0 ≤ s.config.max_events
    room a n =
        let k : length a.keys + presses (event e) ≤ s.config.max_events =
          subst (λ o. length a.keys + presses o ≤ s.config.max_events) op
            (subst (λ o. length a.keys + press_count o ≤ s.config.max_events) fl
              (subst (λ o. KeysFit s.config.max_events o s.flight) n v.keys)) in
        omega (arith, apply_to-keys a e)

pub complete_event-IsValid :
    (s : State) (f : Flight) (e : Event) (outcome : ExecutorOutcome)
    → s.flight ≡ some f
    → f.work.operation ≡ event e
    → IsValid s
    → IsValid (complete_event (record s { flight = none }) f.work e outcome)
unfolding complete_event
complete_event-IsValid s f e outcome fl op v =
    split outcome (applied-IsValid s f e fl op v) (landed-IsValid s f fl v)
  where
    split :
        (o : ExecutorOutcome)
        → IsValid (apply (record s { flight = none }) e)
        → IsValid (record s { flight = none })
        → IsValid (complete_event (record s { flight = none }) f.work e o)
    split ExecutorOutcome.executed h k = report-IsValid _ _ h
    split ExecutorOutcome.rejected_by_executor h k = report-IsValid _ _ k
    split ExecutorOutcome.unsupported_by_executor h k = report-IsValid _ _ k
    split ExecutorOutcome.partial h k = cancel-IsValid _ all execution true (report-IsValid _ _ k)
    split ExecutorOutcome.uncertain h k = cancel-IsValid _ all execution true (report-IsValid _ _ k)
