-- ===== src/Input/Sequence.antt =====
-- A controller's submissions over time.
use jackstay.Base.{
  ℕ, ◌≤◌, ◌<◌, ◌≡◌, inl, inr, refl, ◌∙◌, subst, Option, none, some, List, arith, Bool-cases, ◌&&◌,
}
use jackstay.Base.Result.{ok, err}
use jackstay.Input.Model.{Event, Error, closed, coalesced}
use jackstay.Input.State.{Active, State, expire}
use jackstay.Input.Target.{Ticket}
use jackstay.Input.Controller.{
  mine, epoch, orphan_scroll, is_motion, ends_in_motion, full, enqueue, accept, submit,
}
use jackstay.Input.Frame.{report-Trimmed, expire-Trimmed}
use jackstay.Input.Invariant.{Known, IsValid}
use jackstay.Input.Submitting.{submit_cases, submit-IsValid}
use jackstay.Input.Onward.{Grown, Onward, Onward-trans, Trimmed-Onward}
use jackstay.Input.Lasting.{run-Onward}
use jackstay.Input.Calls.{Call, run}

err-ne-ok : {f : Error} (u : Unit {0}) → err f ≡ ok u → ⊥
err-ne-ok u h = cc

-- The controller of `id` is active and has used the sequences up to `last`.
abbrev Reached : ℕ → ℕ → Option Active → Type 0
Reached id last o = (b : Active) × (o ≡ some b) × (b.id ≡ id) × (b.last_sequence ≡ last)

accept-Reached :
    (s : State) (a : Active) (t : Ticket) (n sequence : ℕ) (e : Event)
    → s.active ≡ some a
    → (accept s a t n sequence e).1 ≡ ok tt
    → Reached a.id a.last_sequence (accept s a t n sequence e).0.active
unfolding accept enqueue
accept-Reached s a t n sequence e here = elim (Bool-cases (orphan_scroll a e)) [
  | inl g ↦ rw g (λ h. absurd (err-ne-ok tt h))
  | inr g ↦ rw g (elim (Bool-cases (is_motion e && ends_in_motion s.queue)) [
    | inl h ↦ rw h (λ k. (a, (report-Trimmed _ (coalesced 1)).active_kept ∙ here, refl, refl))
    | inr h ↦ rw h (elim (Bool-cases (full s e)) [
      | inl k ↦ rw k (λ j. absurd (err-ne-ok tt j))
      | inr k ↦ rw k (λ j. (_, refl, refl, refl))
    ])
  ])
]

submit-Reached :
    (s : State) (t : Ticket) (now n sequence : ℕ) (e : Event)
    → (submit s t now n sequence e).1 ≡ ok tt
    → Reached t.id sequence (submit s t now n sequence e).0.active
submit-Reached s t now n sequence e =
    submit_cases (λ o. o.1 ≡ ok tt → Reached t.id sequence o.0.active) s t now n sequence e
      (λ f h. absurd (err-ne-ok tt h)) (λ a here later f h. absurd (err-ne-ok tt h))
      (λ a here own same later clear q h.
        renamed own
          (accept-Reached _ (record a { last_sequence = sequence }) t n sequence e refl h))
  where
    renamed :
        {x : ℕ} {o : Option Active} → x ≡ t.id → Reached x sequence o → Reached t.id sequence o
    renamed {x} {o} i r = subst (λ y. Reached y sequence o) i r

abbrev Unused : ℕ → ℕ → Option Active → Type 0
Unused id sequence o = (b : Active) × (o ≡ some b) × (b.id ≡ id) × (b.last_sequence < sequence)

-- An accepted submission found the controller active, its sequence not used.
submit-Unused :
    (s : State) (t : Ticket) (now n sequence : ℕ) (e : Event)
    → (submit s t now n sequence e).1 ≡ ok tt
    → Unused t.id sequence (expire s now).active
submit-Unused s t now n sequence e =
    submit_cases (λ o. o.1 ≡ ok tt → Unused t.id sequence (expire s now).active) s t now n sequence
      e (λ f h. absurd (err-ne-ok tt h)) (λ a here later f h. absurd (err-ne-ok tt h))
      (λ a here own same later clear q h. (a, here, own, later))

-- In a valid session, the sequences that one controller has accepted rise strictly, whatever is
-- called between the two submissions.
pub submit-rising :
    (s : State) (t : Ticket) (now n sequence : ℕ) (e : Event) (cs : List Call)
    (now' n' sequence' : ℕ) (e' : Event)
    → IsValid s
    → (submit s t now n sequence e).1 ≡ ok tt
    → (submit (run (submit s t now n sequence e).0 cs) t now' n' sequence' e').1 ≡ ok tt
    → sequence < sequence'
submit-rising s t now n sequence e cs now' n' sequence' e' v h k =
    let s₁ = (submit s t now n sequence e).0 in
    let s₂ = run s₁ cs in
    let (a, here, own, last) = submit-Reached s t now n sequence e h in
    let (b, there, own', later) = submit-Unused s₂ t now' n' sequence' e' k in
    let known : a.id ≤ s₁.next_controller =
      subst (Known s₁.next_controller) here (submit-IsValid s t now n sequence e v).known in
    let onward : Onward s₁ (expire s₂ now') =
      Onward-trans (run-Onward s₁ cs) (Trimmed-Onward (expire-Trimmed s₂ now')) in
    let grown : Grown s₁.next_controller (some a) (some b) =
      subst (λ o. Grown s₁.next_controller o (some b)) here
        (subst (λ o. Grown s₁.next_controller s₁.active o) there onward.grown) in
    elim grown [ inl x ↦ omega arith | inr (i, l) ↦ omega arith ]

mine-gone :
    (n : ℕ) (t : Ticket) (o p : Option Active)
    → t.id ≤ n
    → Grown n o p
    → mine t o ≡ none
    → mine t p ≡ none
mine-gone n t o none l g h = refl
mine-gone n t none (some b) l g h = ground arith
mine-gone n t (some a) (some b) l g h = ground arith

epoch-mine : (s : State) (t : Ticket) → epoch s t ≡ err closed → mine t s.active ≡ none
unfolding epoch
epoch-mine s t h = ground arith

-- A controller that was admitted and is no longer active stays closed: whatever is called meanwhile,
-- it has no epoch and every submission of it is refused as closed.
pub epoch-closed :
    (s : State) (t : Ticket) (cs : List Call) (now n sequence : ℕ) (e : Event)
    → t.id ≤ s.next_controller
    → epoch s t ≡ err closed
    → (epoch (run s cs) t ≡ err closed) × ((submit (run s cs) t now n sequence e).1 ≡ err closed)
unfolding epoch submit
epoch-closed s t cs now n sequence e known h = (
  rw (away (run-Onward s cs), epoch) refl,
  rw
      (
        away (Onward-trans (run-Onward s cs) (Trimmed-Onward (expire-Trimmed (run s cs) now))),
        submit,
      )
      refl,
)
  where
    away : {u : State} → Onward s u → mine t u.active ≡ none
    away {u} k = mine-gone s.next_controller t s.active u.active known k.grown (epoch-mine s t h)
