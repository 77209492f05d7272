-- ===== src/Input/Submitting.antt =====
-- The controller's side keeps the invariant of an input session.
use jackstay.Base.{
  ℕ, ◌<◌, ◌≡◌, ◌⊎◌, inl, inr, refl, subst, true, false, Option, none, some, List, arith, Bool-cases,
  is_some, ◌==◌, leb, ◌||◌,
}
use jackstay.Base.Result.{Result, ok, err}
use jackstay.Base.Sub.{Sub-refl}
use jackstay.Input.Model.{
  Event, Error, invalid, busy, closed, stale, all, focus, disconnect, Status,
}
use jackstay.Input.Validate.{validate}
use jackstay.Input.State.{Active, State, write_mailbox, expire}
use jackstay.Input.Target.{Ticket}
use jackstay.Input.Controller.{mine, heartbeat, cleaning, accept, submit, reset_input, close, poll}
use jackstay.Input.Frame.{trimmed}
use jackstay.Input.Invariant.{KeysFit, IsValid, cancel-IsValid, expire-IsValid, Trimmed-IsValid}
use jackstay.Input.Landing.{changed-IsValid}
use jackstay.Input.Queueing.{raised-IsValid, accept-IsValid}

-- The controller's own session, or none of its business.
pub mine_cases :
    (t : Ticket) (o : Option Active)
    → (mine t o ≡ none) ⊎ ((a : Active) × (mine t o ≡ some a) × (o ≡ some a) × (a.id ≡ t.id))
mine_cases t none = inl refl
mine_cases t (some a) = elim (Bool-cases (a.id == t.id)) [
  | inl e ↦ inr (a, rw e refl, refl, same e)
  | inr e ↦ inl (rw e refl)
]
  where
    same : (a.id == t.id) ≡ true → a.id ≡ t.id
    same e = ground arith

-- `submit` is refused untouched, or refused with its sequence recorded, or accepted.
pub submit_cases {ℓ} :
    (P : State × Result Error (Unit {0}) → Type ℓ) (s₀ : State) (t : Ticket)
    (now epoch sequence : ℕ) (e : Event)
    → let s = expire s₀ now in
      ((f : Error) → P (s, err f))
      → ((a : Active)
          → s.active ≡ some a
          → a.last_sequence < sequence
          → (f : Error)
          → P (record s { active = some (record a { last_sequence = sequence }) }, err f))
      → ((a : Active)
          → s.active ≡ some a
          → a.id ≡ t.id
          → a.epoch ≡ epoch
          → a.last_sequence < sequence
          → s.barrier ≡ none
          → validate s.config a.mode e ≡ ok tt
          → P (
              accept
                (record s { active = some (record a { last_sequence = sequence }) })
                (record a { last_sequence = sequence })
                t
                epoch
                sequence
                e))
      → P (submit s₀ t now epoch sequence e)
unfolding submit
submit_cases P s₀ t now epoch sequence e untouched refused accepted =
    elim (mine_cases t (expire s₀ now).active) [
      | inl m ↦ rw (m, submit) (untouched closed)
      | inr (a, m, here, own) ↦
          rw (m, submit)
            (elim (Bool-cases (sequence == 0 || leb sequence a.last_sequence)) [
              | inl g ↦ rw g (untouched invalid)
              | inr g ↦ rw g (elim (Bool-cases (epoch == a.epoch)) [
                | inr h ↦ rw h (refused a here (later a g) stale)
                | inl h ↦
                    rw h
                      (elim (Bool-cases
                        (is_some (expire s₀ now).barrier || cleaning (expire s₀ now).flight)) [
                          | inl k ↦ rw k (refused a here (later a g) busy)
                          | inr k ↦ rw k (
                              taken a here own (same a h) (later a g) (clear k)
                                (validate (expire s₀ now).config a.mode e) refl)
                        ])
              ])
            ])
    ]
  where
    later :
        (a : Active)
        → (sequence == 0 || leb sequence a.last_sequence) ≡ false
        → a.last_sequence < sequence
    later a g = ground arith

    same : (a : Active) → (epoch == a.epoch) ≡ true → a.epoch ≡ epoch
    same a h = ground arith

    clear :
        (is_some (expire s₀ now).barrier || cleaning (expire s₀ now).flight) ≡ false
        → (expire s₀ now).barrier ≡ none
    clear k = ground arith

    taken :
        (a : Active)
        → (expire s₀ now).active ≡ some a
        → a.id ≡ t.id
        → a.epoch ≡ epoch
        → a.last_sequence < sequence
        → (expire s₀ now).barrier ≡ none
        → (r : Result Error (Unit {0})) → validate (expire s₀ now).config a.mode e ≡ r
        → P (elim r [
          | err f ↦ (
            record (expire s₀ now) { active = some (record a { last_sequence = sequence }) },
            err f,
          )
          | ok _ ↦
              accept
                (record (expire s₀ now) { active = some (record a { last_sequence = sequence }) })
                (record a { last_sequence = sequence })
                t
                epoch
                sequence
                e
        ])
    taken a here own same later clear (err f) q = refused a here later f
    taken a here own same later clear (ok tt) q = accepted a here own same later clear q

pub submit-IsValid :
    (s : State) (t : Ticket) (now epoch sequence : ℕ) (e : Event)
    → IsValid s
    → IsValid (submit s t now epoch sequence e).0
submit-IsValid s t now epoch sequence e v =
    submit_cases (λ o. IsValid o.0) s t now epoch sequence e (λ f. kept)
      (λ a here later f. raised-IsValid (expire s now) a sequence here later kept)
      (λ a here own same later clear q.
        subst
          (λ x.
            IsValid
              (accept
                (record (expire s now) { active = some (record a { last_sequence = sequence }) })
                (record a { last_sequence = sequence }) t x sequence e).0)
          same (accept-IsValid (expire s now) a sequence here later kept t e own))
  where
    kept : IsValid (expire s now)
    kept = expire-IsValid s now v

pub heartbeat-IsValid :
    (s : State) (t : Ticket) (now : ℕ) → IsValid s → IsValid (heartbeat s t now).0
unfolding heartbeat
heartbeat-IsValid s t now v = elim (mine_cases t (expire s now).active) [
  | inl m ↦ rw (m, heartbeat) kept
  | inr (a, m, here, own) ↦
      rw (m, heartbeat)
        (changed-IsValid (expire s now) a (record a { last_seen = now }) here
          (record { id_kept = refl; epoch_kept = refl; last_kept = refl })
          (subst (λ o. KeysFit (expire s now).config.max_events o (expire s now).flight) here
            kept.keys)
          kept)
]
  where
    kept : IsValid (expire s now)
    kept = expire-IsValid s now v

pub reset_input-IsValid : (s : State) (t : Ticket) → IsValid s → IsValid (reset_input s t).0
unfolding reset_input
reset_input-IsValid s t v = ground (arith, cancel-IsValid s all focus false v)

pub close-IsValid : (s : State) (t : Ticket) → IsValid s → IsValid (close s t)
unfolding close
close-IsValid s t v = ground (arith, cancel-IsValid s all disconnect true v)

pub poll-IsValid : (s : State) (t : Ticket) → IsValid s → IsValid (poll s t).0
unfolding poll
poll-IsValid s t v = ground (arith, read)
  where
    read :
        (rest : List Status)
        → IsValid (record s { mailboxes = write_mailbox s.mailboxes t.id rest })
    read rest =
        Trimmed-IsValid
          (trimmed s (write_mailbox s.mailboxes t.id rest) s.barrier s.queue (Sub-refl s.queue)) v
