-- ===== src/Input/Invariant.antt =====
-- The invariant of an input session: one controller owns all work, in the order of submission and
-- within the limits.
use jackstay.Base.{
  ℕ, ◌+◌, ◌≤◌, ◌<◌, ◌≡◌, ◌⊎◌, refl, subst, Bool, true, false, Option, none, some, List, [], ◌∷◌,
  arith, length,
}
use jackstay.Base.Sub.{Sub, done, skip, take, length-Sub}
use jackstay.Input.Model.{
  down, up, repeat, key, text, motion, button, scroll, Operation, event, cleanup, Work, Status,
  Scope, Reason,
}
use jackstay.Input.State.{Active, Flight, State, report, cancel, expire}
use jackstay.Input.Controller.{queue_bytes}
use jackstay.Input.Frame.{Trimmed, report-Trimmed, cancel-Trimmed, expire-Trimmed}

abbrev pub is_event : Operation → Bool
is_event (event e) = true
is_event (cleanup sc r) = false

-- Events of one controller and one epoch, their sequences rising from `lo` to at most `last`.
abbrev pub Fine : ℕ → ℕ → ℕ → ℕ → List Work → Type 0
Fine id epoch last lo [] = Unit {0}
Fine id epoch last lo (w ∷ ws) =
    (lo < w.sequence)
    × (w.sequence ≤ last)
    × (w.controller ≡ id)
    × (w.epoch ≡ epoch)
    × (is_event w.operation ≡ true)
    × Fine id epoch last w.sequence ws

abbrev pub flight_sequence : Option Flight → ℕ
flight_sequence none = 0
flight_sequence (some f) = f.work.sequence

abbrev pub FlightOf : ℕ → Option Flight → Type 0
FlightOf id none = Unit {0}
FlightOf id (some f) = f.work.controller ≡ id

-- Without a controller there is no work.
abbrev pub Owned : Option Active → List Work → Option Flight → Type 0
Owned none ws f = (ws ≡ []) × (f ≡ none)
Owned (some a) ws f =
    Fine a.id a.epoch a.last_sequence (flight_sequence f) ws
    × (flight_sequence f ≤ a.last_sequence)
    × FlightOf a.id f

abbrev pub event_count : Option Flight → ℕ
event_count none = 0
event_count (some f) = elim f.work.operation [ event e ↦ 1 | cleanup sc r ↦ 0 ]

abbrev pub presses : Operation → ℕ
presses (event (key press down k m)) = 1
presses (event (key press up k m)) = 0
presses (event (key press repeat k m)) = 0
presses (event (text t)) = 0
presses (event (motion p)) = 0
presses (event (button b action p)) = 0
presses (event (scroll e)) = 0
presses (cleanup sc r) = 0

abbrev pub press_count : Option Flight → ℕ
press_count none = 0
press_count (some f) = presses f.work.operation

-- A press in flight has its place among the held keys.
abbrev pub KeysFit : ℕ → Option Active → Option Flight → Type 0
KeysFit limit none f = Unit {0}
KeysFit limit (some a) f = length a.keys + press_count f ≤ limit

abbrev pub Known : ℕ → Option Active → Type 0
Known next none = Unit {0}
Known next (some a) = a.id ≤ next

pub record IsValid (s : State) : Type 0 where
  pub owned : Owned s.active s.queue s.flight
  pub bounded : length s.queue + event_count s.flight ≤ s.config.max_events
  pub bytes : queue_bytes s.queue ≤ s.config.max_bytes
  pub keys : KeysFit s.config.max_events s.active s.flight
  pub known : Known s.next_controller s.active
  pub out : (s.failed ≡ false) ⊎ (s.active ≡ none)

pub Fine-lower :
    (id epoch last : ℕ) {lo hi : ℕ} (ws : List Work)
    → lo ≤ hi
    → Fine id epoch last hi ws
    → Fine id epoch last lo ws
Fine-lower id epoch last [] h f = tt
Fine-lower id epoch last (w ∷ ws) h f = (omega arith, f.1, f.2, f.3, f.4, f.5)

pub Fine-Sub :
    (id epoch last : ℕ) {q ws : List Work} (lo : ℕ)
    → Sub q ws
    → Fine id epoch last lo ws
    → Fine id epoch last lo q
Fine-Sub id epoch last lo done f = tt
Fine-Sub id epoch last lo (skip {xs = xs} w h) f =
    Fine-lower id epoch last xs (omega arith) (Fine-Sub id epoch last w.sequence h f.5)
Fine-Sub id epoch last lo (take w h) f =
    (f.0, f.1, f.2, f.3, f.4, Fine-Sub id epoch last w.sequence h f.5)

pub Owned-Sub :
    (o : Option Active) {q ws : List Work} (f : Option Flight)
    → Sub q ws
    → Owned o ws f
    → Owned o q f
Owned-Sub none {q} {ws} f h (e, n) = (empty q (subst (Sub q) e h), n)
  where
    empty : (q : List Work) → Sub q [] → q ≡ []
    empty q done = refl
Owned-Sub (some a) f h (fine, l, o) = (Fine-Sub a.id a.epoch a.last_sequence _ h fine, l, o)

pub queue_bytes-Sub : {q ws : List Work} → Sub q ws → queue_bytes q ≤ queue_bytes ws
unfolding queue_bytes
queue_bytes-Sub done = omega arith
queue_bytes-Sub (skip w h) = omega (arith, queue_bytes-Sub h)
queue_bytes-Sub (take w h) = omega (arith, queue_bytes-Sub h)

pub Trimmed-IsValid : {s u : State} → Trimmed s u → IsValid s → IsValid u
Trimmed-IsValid {s} {u} t v = record {
  owned = rw (t.active_kept, t.flight_kept) (Owned-Sub s.active s.flight t.queue_left v.owned);
  bounded = rw (t.config_kept, t.flight_kept) (omega (arith, length-Sub t.queue_left, v.bounded));
  bytes = rw t.config_kept (omega (arith, queue_bytes-Sub t.queue_left, v.bytes));
  keys = rw (t.active_kept, t.flight_kept, t.config_kept) v.keys;
  known = rw (t.active_kept, t.controller_kept) v.known;
  out = rw (t.active_kept, t.failed_kept) v.out;
}

pub report-IsValid : (s : State) (status : Status) → IsValid s → IsValid (report s status)
report-IsValid s status v = Trimmed-IsValid (report-Trimmed s status) v

pub cancel-IsValid :
    (s : State) (scope : Scope) (reason : Reason) (ends : Bool)
    → IsValid s
    → IsValid (cancel s scope reason ends)
cancel-IsValid s scope reason ends v = Trimmed-IsValid (cancel-Trimmed s scope reason ends) v

pub expire-IsValid : (s : State) (now : ℕ) → IsValid s → IsValid (expire s now)
expire-IsValid s now v = Trimmed-IsValid (expire-Trimmed s now) v
