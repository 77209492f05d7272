-- ===== src/Arena/Cleanup/Frames.antt =====
-- The observer leaves the size of a claim map alone.
use jackstay.Base.{ℕ, zero, suc, ◌≡◌, refl, ◌∙◌, inl, inr, true, false, arith, Option-cases}
use jackstay.Base.Range.{for_each}
use jackstay.Base.Result.{Result-cases}
use jackstay.Arena.{Environment, Incarnation, ClaimMap}
use jackstay.Arena.Claims.{
  close, acknowledge_quiescent, return_credit, cleared, signal, capacity_event,
}
use jackstay.Arena.Cleanup.{
  fail, fail_notification, release, recover_slot, recover, observe_exit, observe_process,
  exit_observed, set_deadline, expire, observe_deadline, settle, poll_release, disarm, poll_slot,
  poll_slots, poll,
}

module _ (env : Environment) where
  pub signal-frames : (c : ClaimMap) (interest : ℕ) → (signal env c interest).0.frames ≡ c.frames
  unfolding signal
  signal-frames c interest = ground arith

  release-frames : (s : Incarnation) (i : ℕ) → (release env s i).claims.frames ≡ s.claims.frames
  unfolding release return_credit cleared
  release-frames s i = signal-frames (cleared env s.claims i) capacity_event

  settle-frames :
      (i timeline value completed : ℕ) (s : Incarnation)
      → (settle env i timeline value s completed).0.claims.frames ≡ s.claims.frames
  unfolding settle fail close
  settle-frames i timeline value completed s = ground (arith, release-frames s i)

  poll_release-frames :
      (i : ℕ) (s : Incarnation) → (poll_release env i s).0.claims.frames ≡ s.claims.frames
  unfolding poll_release fail close
  poll_release-frames i s = grind (arith, settle-frames)

  poll_slot-frames :
      (i : ℕ) (s : Incarnation) → (poll_slot env i s).0.claims.frames ≡ s.claims.frames
  unfolding poll_slot fail close disarm
  poll_slot-frames i s = ground (arith, poll_release-frames i (disarm env i s))

  poll_slots-frames :
      (n i : ℕ) (s : Incarnation) → (poll_slots env n i s).claims.frames ≡ s.claims.frames
  unfolding poll_slots
  poll_slots-frames zero i s = refl
  poll_slots-frames (suc n) i s =
      ground (arith, poll_slot-frames i s, poll_slots-frames n (suc i) (poll_slot env i s).0)

  recover_slot-frames :
      (i : ℕ) (s : Incarnation) → (recover_slot env i s).claims.frames ≡ s.claims.frames
  unfolding recover_slot fail close
  recover_slot-frames i s = ground (arith, release-frames s i)

  recover-frames :
      (n i : ℕ) (s : Incarnation)
      → (for_each n i (recover_slot env) s).claims.frames ≡ s.claims.frames
  unfolding for_each
  recover-frames zero i s = refl
  recover-frames (suc n) i s =
      recover-frames n (suc i) (recover_slot env i s) ∙ recover_slot-frames i s

  observe_process-frames :
      (s : Incarnation) → (observe_process env s).claims.frames ≡ s.claims.frames
  unfolding observe_process observe_exit recover fail_notification fail close exit_observed
      acknowledge_quiescent
  observe_process-frames s = elim (Option-cases s.observer.process) [
    | inl n ↦ rw (n, observe_process) refl
    | inr (pid, p) ↦ elim (Result-cases (env.exited pid)) [
      | inr (e, x) ↦ rw (p, observe_process, x, observe_exit) refl
      | inl (true, x) ↦
          rw (p, observe_process, x, observe_exit)
            (recover-frames s.claims.frames 0 (exit_observed s))
      | inl (false, x) ↦ rw (p, observe_process, x, observe_exit) refl
    ]
  ]

  observe_deadline-frames :
      (s : Incarnation) → (observe_deadline env s).claims.frames ≡ s.claims.frames
  unfolding observe_deadline set_deadline expire fail close
  observe_deadline-frames s = ground arith

  pub poll-frames : (s : Incarnation) → (poll env s).claims.frames ≡ s.claims.frames
  unfolding poll
  poll-frames s = ground (
    arith,
    poll_slots-frames watched.claims.frames 0 watched,
    observe_deadline-frames (observe_process env s),
    observe_process-frames s,
  )
    where
      watched : Incarnation
      watched = observe_deadline env (observe_process env s)
