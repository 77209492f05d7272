-- ===== src/Input/Completing.antt =====
-- The executor's answers keep the invariant of an input session.
use jackstay.Base.{
  ℕ, ◌+◌, ◌≤◌, ◌≡◌, inl, inr, refl, subst, Bool, true, false, none, some, List, [], ◌∷◌, map, arith,
  length, Option-cases, Bool-cases, is_some, add64, ◌==◌, ◌∙◌,
}
use jackstay.Base.Result.{Result, err}
use jackstay.Input.Model.{
  Geometry, Operation, event, cleanup, Work, reset, closed_for, Scope, all, pointer, Reason,
  geometry_changed, Error, ExecutorOutcome,
}
use jackstay.Input.State.{Active, Flight, State, report}
use jackstay.Input.Controller.{queue_bytes}
use jackstay.Input.Target.{
  is_executed, end_session, fail_session, let_go, let_go_active, with_epoch, advance_epoch,
  complete_cleanup, complete_flight, complete, set_geometry, tick, resolve_failed_cleanup,
}
use jackstay.Input.Frame.{report-Trimmed, report_cases}
use jackstay.Input.Invariant.{
  Fine, Owned, KeysFit, Known, IsValid, press_count, report-IsValid, cancel-IsValid, expire-IsValid,
}
use jackstay.Input.Landing.{landed-IsValid, changed-IsValid, complete_event-IsValid, none-ne-some}

-- Without a controller there is neither work nor flight.
vacant-IsValid : (s : State) → s.queue ≡ [] → s.flight ≡ none → s.active ≡ none → IsValid s
unfolding queue_bytes
vacant-IsValid s q f a = record {
  owned = rw a (q, f);
  bounded = rw (q, f) (omega arith);
  bytes = rw q (omega arith);
  keys = rw a tt;
  known = rw a tt;
  out = inr a;
}

end_session-IsValid :
    (s : State) (reason : Reason) (clean : Bool)
    → s.flight ≡ none
    → IsValid (end_session s reason clean)
unfolding end_session
end_session-IsValid s reason clean idle =
    vacant-IsValid (end_session s reason clean) refl
      ((report-Trimmed s (closed_for reason clean)).flight_kept ∙ idle) refl

fail_session-IsValid :
    (s : State) (reason : Reason) → s.flight ≡ none → IsValid (fail_session s reason)
unfolding fail_session
fail_session-IsValid s reason idle =
    report_cases (λ u. IsValid (record u { active = none }))
      (record s { failed = true; queue = []; barrier = none }) (closed_for reason false)
      (λ boxes. vacant-IsValid _ refl idle refl) (λ boxes. vacant-IsValid _ refl idle refl)

let_go-IsValid :
    (s : State) (scope : Scope)
    → IsValid s
    → IsValid (record s { active = let_go_active scope s.active })
let_go-IsValid s scope v = elim (Option-cases s.active) [
  | inl e ↦ rw e (vacant e (subst (λ o. Owned o s.queue s.flight) e v.owned))
  | inr (a, e) ↦ rw e (
      changed-IsValid s a (let_go scope a) e
        (record { id_kept = refl; epoch_kept = refl; last_kept = refl })
        (room scope a (subst (λ o. KeysFit s.config.max_events o s.flight) e v.keys)) v)
]
  where
    vacant : s.active ≡ none → Owned none s.queue s.flight → IsValid (record s { active = none })
    vacant e (q, f) = vacant-IsValid (record s { active = none }) q f refl

    room :
        (sc : Scope) (a : Active)
        → length a.keys + press_count s.flight ≤ s.config.max_events
        → length (let_go sc a).keys + press_count s.flight ≤ s.config.max_events
    room all a h = omega arith
    room pointer a h = h

-- The kept work moves into the new epoch as it stands.
Fine-with_epoch :
    (id old epoch last lo : ℕ) (ws : List Work)
    → Fine id old last lo ws
    → Fine id epoch last lo (map (with_epoch epoch) ws)
Fine-with_epoch id old epoch last lo [] h = tt
Fine-with_epoch id old epoch last lo (w ∷ ws) h =
    (h.0, h.1, h.2, refl, h.4, Fine-with_epoch id old epoch last w.sequence ws h.5)

length-with_epoch : (epoch : ℕ) (ws : List Work) → length (map (with_epoch epoch) ws) ≡ length ws
length-with_epoch epoch [] = refl
length-with_epoch epoch (w ∷ ws) = omega (arith, length-with_epoch epoch ws)

queue_bytes-with_epoch :
    (epoch : ℕ) (ws : List Work) → queue_bytes (map (with_epoch epoch) ws) ≡ queue_bytes ws
unfolding queue_bytes
queue_bytes-with_epoch epoch [] = refl
queue_bytes-with_epoch epoch (w ∷ ws) = omega (arith, queue_bytes-with_epoch epoch ws)

pub let_go_cases {ℓ} :
    (P : State → Type ℓ) (s : State) (scope : Scope)
    → (s.active ≡ none → P (record s { active = none }))
    → ((a : Active) → s.active ≡ some a → P (record s { active = some (let_go scope a) }))
    → P (record s { active = let_go_active scope s.active })
let_go_cases P s scope vacant freed = elim (Option-cases s.active) [
  | inl e ↦ rw e (vacant e)
  | inr (a, e) ↦ rw e (freed a e)
]

pub advance_epoch_cases {ℓ} :
    (P : State → Type ℓ) (s : State)
    → (s.active ≡ none → P s)
    → ((a : Active)
        → s.active ≡ some a
        → let epoch = add64 a.epoch 1 in
          P (
            report
              (record s {
                active = some (record a { epoch = epoch });
                queue = map (with_epoch epoch) s.queue;
              })
              (reset epoch s.config.geometry)))
    → P (advance_epoch s)
unfolding advance_epoch
advance_epoch_cases P s vacant moved = elim (Option-cases s.active) [
  | inl e ↦ rw (e, advance_epoch) (vacant e)
  | inr (a, e) ↦ rw (e, advance_epoch) (moved a e)
]

advance_epoch-IsValid : (s : State) → IsValid s → IsValid (advance_epoch s)
unfolding advance_epoch
advance_epoch-IsValid s v = elim (Option-cases s.active) [
  | inl e ↦ rw (e, advance_epoch) v
  | inr (a, e) ↦ rw (e, advance_epoch) (report-IsValid _ _ (moved a (add64 a.epoch 1) e))
]
  where
    moved :
        (a : Active) (epoch : ℕ)
        → s.active ≡ some a
        → IsValid (record s {
          active = some (record a { epoch = epoch });
          queue = map (with_epoch epoch) s.queue;
        })
    moved a epoch e =
        let (fine, l, o) = subst (λ o. Owned o s.queue s.flight) e v.owned in
        record {
          owned = (Fine-with_epoch a.id a.epoch epoch a.last_sequence _ s.queue fine, l, o);
          bounded = rw (length-with_epoch epoch s.queue) v.bounded;
          bytes = rw (queue_bytes-with_epoch epoch s.queue) v.bytes;
          keys = subst (λ o. KeysFit s.config.max_events o s.flight) e v.keys;
          known = subst (Known s.next_controller) e v.known;
          out = elim v.out [ inl n ↦ inl n | inr n ↦ absurd (none-ne-some e n) ];
        }

complete_cleanup-IsValid :
    (s : State) (ends : Bool) (scope : Scope) (reason : Reason)
    → s.flight ≡ none
    → IsValid s
    → IsValid (complete_cleanup s ends scope reason)
unfolding complete_cleanup
complete_cleanup-IsValid s true scope reason idle v = end_session-IsValid _ reason true idle
complete_cleanup-IsValid s false scope reason idle v = elim (Bool-cases (is_some s.barrier)) [
  | inl e ↦ rw e (let_go-IsValid s scope v)
  | inr e ↦ rw e (advance_epoch-IsValid _ (let_go-IsValid s scope v))
]

complete_flight-IsValid :
    (s : State) (f : Flight) (outcome : ExecutorOutcome) (o : Operation)
    → s.flight ≡ some f
    → f.work.operation ≡ o
    → IsValid s
    → IsValid (complete_flight (record s { flight = none }) f outcome o).0
unfolding complete_flight
complete_flight-IsValid s f outcome (event e) fl op v = complete_event-IsValid s f e outcome fl op v
complete_flight-IsValid s f outcome (cleanup scope reason) fl op v =
    elim (Bool-cases (is_executed outcome)) [
      | inl g ↦ rw g (complete_cleanup-IsValid _ f.ends scope reason refl (landed-IsValid s f fl v))
      | inr g ↦ rw g (fail_session-IsValid (record s { flight = none }) reason refl)
    ]

-- `complete` answers for the work in flight, or is refused and changes nothing.
pub complete_cases {ℓ} :
    (P : State × Result Error (Unit {0}) → Type ℓ) (s : State) (id : ℕ) (outcome : ExecutorOutcome)
    → P (s, err Error.invalid)
    → ((f : Flight)
        → s.flight ≡ some f
        → (f.work.id == id) ≡ true
        → P (complete_flight (record s { flight = none }) f outcome f.work.operation))
    → P (complete s id outcome)
unfolding complete
complete_cases P s id outcome refused lands = elim (Option-cases s.flight) [
  | inl e ↦ rw (e, complete) refused
  | inr (f, e) ↦
      rw (e, complete)
        (elim (Bool-cases (f.work.id == id)) [ inl g ↦ rw g (lands f e g) | inr g ↦ rw g refused ])
]

pub complete-IsValid :
    (s : State) (id : ℕ) (outcome : ExecutorOutcome) → IsValid s → IsValid (complete s id outcome).0
complete-IsValid s id outcome v =
    complete_cases (λ o. IsValid o.0) s id outcome v
      (λ f e g. complete_flight-IsValid s f outcome f.work.operation e refl v)

pub set_geometry-IsValid : (s : State) (g : Geometry) → IsValid s → IsValid (set_geometry s g).0
unfolding set_geometry
set_geometry-IsValid s g v =
    ground (arith, cancel-IsValid (moved s g) pointer geometry_changed false (kept v), kept v)
  where
    moved : State → Geometry → State
    moved s g = record s { config = record (s.config) { geometry = g } }

    kept : IsValid s → IsValid (moved s g)
    kept v = record {
      owned = v.owned;
      bounded = v.bounded;
      bytes = v.bytes;
      keys = v.keys;
      known = v.known;
      out = v.out;
    }

pub tick-IsValid : (s : State) (now : ℕ) → IsValid s → IsValid (tick s now)
unfolding tick
tick-IsValid s now v = expire-IsValid s now v

pub resolve_failed_cleanup-IsValid : (s : State) → IsValid s → IsValid (resolve_failed_cleanup s).0
unfolding resolve_failed_cleanup
resolve_failed_cleanup-IsValid s v = ground (arith, resolved)
  where
    resolved : IsValid (record s { failed = false })
    resolved = record {
      owned = v.owned;
      bounded = v.bounded;
      bytes = v.bytes;
      keys = v.keys;
      known = v.known;
      out = inl refl;
    }
