-- ===== src/Input/Onward.antt =====
-- What no call on an input session takes back: controller identities and submitted sequences.
use jackstay.Base.{
  ℕ, ◌+◌, ◌≤◌, ◌<◌, ◌≡◌, ◌⊎◌, inl, inr, refl, Bool, Option, none, some, List, [], ◌∷◌, arith,
}
use jackstay.Input.Model.{Mode, Scope, Reason, Status, Work}
use jackstay.Input.State.{Active, State, report, cancel, expire}
use jackstay.Input.Target.{admit, dispatch, next, fresh_active}
use jackstay.Input.Frame.{Trimmed, report-Trimmed, cancel-Trimmed, expire-Trimmed}
use jackstay.Input.Executing.{dispatch_cases, take_barrier_cases, next_cases}

-- A controller that was admitted before `s` and is active in `u` was active in `s`, and its last
-- sequence has not gone down.
abbrev pub Grown : ℕ → Option Active → Option Active → Type 0
Grown known o none = Unit {0}
Grown known none (some b) = known < b.id
Grown known (some a) (some b) =
    (known < b.id) ⊎ ((a.id ≡ b.id) × (a.last_sequence ≤ b.last_sequence))

pub record Onward (s u : State) : Type 0 where
  pub ids : s.next_controller ≤ u.next_controller
  pub grown : Grown s.next_controller s.active u.active

pub Grown-refl : (n : ℕ) (o : Option Active) → Grown n o o
Grown-refl n none = tt
Grown-refl n (some a) = inr (refl, omega arith)

pub Grown-trans :
    {n m : ℕ} (o p q : Option Active) → n ≤ m → Grown n o p → Grown m p q → Grown n o q
Grown-trans o p none l h k = tt
Grown-trans none none (some c) l h k = omega arith
Grown-trans (some a) none (some c) l h k = inl (omega arith)
Grown-trans none (some b) (some c) l h k = elim k [ inl x ↦ omega arith | inr (e, x) ↦ omega arith ]
Grown-trans (some a) (some b) (some c) l h k = ground arith

pub Onward-refl : (s : State) → Onward s s
Onward-refl s = record { ids = omega arith; grown = Grown-refl s.next_controller s.active }

pub Onward-trans : {s u w : State} → Onward s u → Onward u w → Onward s w
Onward-trans {s} {u} {w} h k = record {
  ids = omega (arith, h.ids, k.ids);
  grown = Grown-trans s.active u.active w.active h.ids h.grown k.grown;
}

pub Trimmed-Onward : {s u : State} → Trimmed s u → Onward s u
Trimmed-Onward {s} {u} t = record {
  ids = omega (arith, t.controller_kept);
  grown = rw t.active_kept (Grown-refl s.next_controller s.active);
}

-- The controller is the same or gone, the rest of the state of no concern.
pub kept : (s u : State) → u.next_controller ≡ s.next_controller → u.active ≡ s.active → Onward s u
kept s u n a = record {
  ids = omega (arith, n);
  grown = rw a (Grown-refl s.next_controller s.active);
}

pub gone : (s u : State) → u.next_controller ≡ s.next_controller → u.active ≡ none → Onward s u
gone s u n a = record { ids = omega (arith, n); grown = rw a (nothing s.active) }
  where
    nothing : (o : Option Active) → Grown s.next_controller o none
    nothing none = tt
    nothing (some a) = tt

pub remade :
    (s u : State) (a b : Active)
    → u.next_controller ≡ s.next_controller
    → s.active ≡ some a
    → u.active ≡ some b
    → a.id ≡ b.id
    → a.last_sequence ≤ b.last_sequence
    → Onward s u
remade s u a b n e f i l = record { ids = omega (arith, n); grown = rw (e, f) (inr (i, l)) }

pub report-Onward : (s : State) (status : Status) → Onward s (report s status)
report-Onward s status = Trimmed-Onward (report-Trimmed s status)

pub cancel-Onward :
    (s : State) (scope : Scope) (reason : Reason) (ends : Bool)
    → Onward s (cancel s scope reason ends)
cancel-Onward s scope reason ends = Trimmed-Onward (cancel-Trimmed s scope reason ends)

pub expire-Onward : (s : State) (now : ℕ) → Onward s (expire s now)
expire-Onward s now = Trimmed-Onward (expire-Trimmed s now)

pub admit-Onward : (s : State) (mode : Mode) (now : ℕ) → Onward s (admit s mode now).0
unfolding admit
admit-Onward s mode now = ground (arith, Onward-refl s, admitted)
  where
    admitted :
        (id : ℕ) (boxes : ℕ → List Status)
        → s.active ≡ none
        → id ≡ s.next_controller + 1
        → Onward s (record s {
          next_controller = id;
          active = some (fresh_active id mode now);
          mailboxes = boxes;
        })
    admitted id boxes n e = record { ids = omega arith; grown = rw n (omega arith) }

pub dispatch-Onward : (ws : List Work) (s : State) → Onward s (dispatch ws s).0
unfolding dispatch
dispatch-Onward [] s = kept s _ refl refl
dispatch-Onward (w ∷ ws) s =
    dispatch_cases (λ o. Onward s o.0) s w ws (λ w' h. kept s _ refl refl)
      (λ status. reported status) (λ status. Onward-trans (reported status) (dispatch-Onward ws _))
  where
    reported : (status : Status) → Onward s (report (record s { queue = ws }) status)
    reported status =
        Onward-trans (kept s (record s { queue = ws }) refl refl)
          (report-Onward (record s { queue = ws }) status)

pub next-Onward : (s : State) (now : ℕ) → Onward s (next s now).0
next-Onward s now =
    next_cases (λ o. Onward s o.0) s now (λ f e. expire-Onward s now)
      (λ b e g.
        take_barrier_cases (λ o. Onward s o.0) (expire s now) b
          (λ n. Onward-trans (expire-Onward s now) (kept _ _ refl refl))
          (λ a n. Onward-trans (expire-Onward s now) (kept _ _ refl refl)))
      (λ e g.
        Onward-trans (expire-Onward s now) (dispatch-Onward (expire s now).queue (expire s now)))
