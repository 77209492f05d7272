-- ===== src/Arena/Cleanup/Evidence.antt =====
-- Holding credit goes back only on evidence that nobody uses the frame any more.
use jackstay.Base.{
  ℕ, zero, suc, ◌≤◌, ◌≡◌, ◌≢◌, refl, sym, ap, subst, ◌∙◌, ◌⊎◌, inl, inr, Bool, true, false, some,
  List, length, arith, Bool-cases, Option-cases, ◌==◌, ◌||◌, is_some,
}
use jackstay.Base.Range.{for_each}
use jackstay.Base.Result.{Result-cases, ok}
use jackstay.Arena.{Environment, Incarnation, ClaimMap}
use jackstay.Arena.Claims.{
  close, acknowledge_quiescent, return_credit, cleared, signal, capacity_event,
}
use jackstay.Arena.Cleanup.{
  fail, fail_notification, release, recover_slot, recover, observe_exit, observe_process,
  exit_observed, set_deadline, expire, observe_deadline, settle, poll_release, disarm, poll_slot,
  poll_slots, poll, timeline_of,
}

-- What decides about one slot: its claim, its deferred release and the registered timelines.
pub record View : Type 0 where
  pub claim : ℕ
  pub pending : ℕ
  pub id : ℕ
  pub value : ℕ
  pub timelines : List ℕ
  pub native : Bool

abbrev pub view : Incarnation → ℕ → View
view s i = record {
  claim = s.claims.claim i;
  pending = s.claims.release_pending i;
  id = s.claims.release_id i;
  value = s.claims.release_value i;
  timelines = s.observer.timelines;
  native = s.observer.native_resources;
}

module _ (env : Environment) where
  -- The consumer has finished with the frame, and the registered timeline has reached its value.
  abbrev pub Completed : View → Type 0
  Completed v =
      (v.pending ≡ 2)
      × ((timeline : ℕ) × (completed : ℕ) × (timeline_of v.timelines v.id ≡ some timeline)
          × (env.completed_value timeline ≡ ok completed)
          × (v.value ≤ completed))

  -- A synchronous use in plain memory: no release is deferred and none could be.
  abbrev pub Synchronous : View → Type 0
  Synchronous v = (v.native ≡ false) × (length v.timelines ≡ 0) × (v.pending ≡ 0)

  -- Signalling never touches the words of a slot.
  signal-view :
      (c : ClaimMap) (interest i : ℕ)
      → ((signal env c interest).0.claim i ≡ c.claim i)
        × ((signal env c interest).0.release_pending i ≡ c.release_pending i)
        × ((signal env c interest).0.release_id i ≡ c.release_id i)
        × ((signal env c interest).0.release_value i ≡ c.release_value i)
  unfolding signal
  signal-view c interest i = ground arith

  release-view : (s : Incarnation) (j i : ℕ) → i ≢ j → view (release env s j) i ≡ view s i
  unfolding release return_credit cleared
  release-view s j i h = ground (arith, signal-view (cleared env s.claims j) capacity_event i)

  settle-view :
      (j i timeline completed : ℕ) (s : Incarnation)
      → i ≢ j
      → view (settle env j timeline (s.claims.release_value j) s completed).0 i ≡ view s i
  unfolding settle fail close
  settle-view j i timeline completed s h = ground (arith, release-view s j i)

  settle-evidence :
      (i timeline completed : ℕ) (s : Incarnation)
      → (view (settle env i timeline (s.claims.release_value i) s completed).0 i ≡ view s i)
        ⊎ ((s.claims.release_pending i ≡ 2) × (s.claims.release_value i ≤ completed))
  unfolding settle fail close
  settle-evidence i timeline completed s = ground arith

  disarm-view : (j i : ℕ) (s : Incarnation) → view (disarm env j s) i ≡ view s i
  unfolding disarm
  disarm-view j i s = refl

  poll_release-view :
      (j i : ℕ) (s : Incarnation) → i ≢ j → view (poll_release env j s).0 i ≡ view s i
  unfolding poll_release fail close
  poll_release-view j i s h = grind (arith, settle-view)

  poll_release-evidence :
      (i : ℕ) (s : Incarnation)
      → (view (poll_release env i s).0 i ≡ view s i) ⊎ Completed (view s i)
  unfolding poll_release fail close
  poll_release-evidence i s =
      elim (Option-cases (timeline_of s.observer.timelines (s.claims.release_id i))) [
        | inl n ↦ rw (n, poll_release) (inl refl)
        | inr (timeline, t) ↦ elim (Result-cases (env.completed_value timeline)) [
          | inr (e, c) ↦ rw (t, poll_release, c) (inl refl)
          | inl (completed, c) ↦
              rw (t, poll_release, c)
                (elim (settle-evidence i timeline completed s) [
                  | inl same ↦ inl same
                  | inr (p, q) ↦ inr (p, (timeline, completed, refl, c, q))
                ])
        ]
      ]

  poll_slot-view : (j i : ℕ) (s : Incarnation) → i ≢ j → view (poll_slot env j s).0 i ≡ view s i
  unfolding poll_slot fail close
  poll_slot-view j i s h =
      ground (arith, disarm-view j i s, poll_release-view j i (disarm env j s) h)

  poll_slot_self :
      (i : ℕ) (s : Incarnation) → (view (poll_slot env i s).0 i ≡ view s i) ⊎ Completed (view s i)
  unfolding poll_slot fail close disarm
  poll_slot_self i s = elim (Bool-cases (s.claims.release_pending i == 0)) [
    | inl e ↦ rw (e, poll_slot) (inl refl)
    | inr e ↦
        elim (Bool-cases (s.claims.release_pending i == 1 || s.claims.release_pending i == 2)) [
          | inl f ↦ rw (e, poll_slot, f) (poll_release-evidence i (disarm env i s))
          | inr f ↦ rw (e, poll_slot, f) (inl refl)
        ]
  ]

  poll_slot-evidence :
      (j i : ℕ) (s : Incarnation) → (view (poll_slot env j s).0 i ≡ view s i) ⊎ Completed (view s i)
  unfolding poll_slot fail close
  poll_slot-evidence j i s = elim (Bool-cases (i == j)) [
    | inr e ↦ inl (poll_slot-view j i s (ground arith))
    | inl e ↦
        let same : i ≡ j = ground arith in
        subst (λ k. (view (poll_slot env k s).0 i ≡ view s i) ⊎ Completed (view s i)) same
          (poll_slot_self i s)
  ]

  poll_slots-evidence :
      (n j i : ℕ) (s : Incarnation)
      → (view (poll_slots env n j s) i ≡ view s i) ⊎ Completed (view s i)
  unfolding poll_slots
  poll_slots-evidence zero j i s = inl refl
  poll_slots-evidence (suc n) j i s = elim (poll_slot-evidence j i s) [
    | inr c ↦ inr c
    | inl same ↦ elim (Bool-cases (poll_slot env j s).1) [
      | inr e ↦ rw (e, poll_slots) (inl same)
      | inl e ↦
          rw (e, poll_slots)
            (subst
              (λ v. (view (poll_slots env n (suc j) (poll_slot env j s).0) i ≡ v) ⊎ Completed v)
              same (poll_slots-evidence n (suc j) i (poll_slot env j s).0))
    ]
  ]

  -- What the process watch can change: a consumer's unfinished deferred release counts as finished
  -- by the consumer, and a synchronous claim may be released.
  abbrev Exited : View → View → Type 0
  Exited v w =
      (w ≡ v)
      ⊎ (((v.pending ≡ 1) ⊎ (v.pending ≡ 2)) × (w ≡ record v { pending = 2 }))
      ⊎ Synchronous v

  recover_slot-view : (j i : ℕ) (s : Incarnation) → i ≢ j → view (recover_slot env j s) i ≡ view s i
  unfolding recover_slot fail close
  recover_slot-view j i s h = ground (arith, release-view s j i)

  recover_slot_self : (i : ℕ) (s : Incarnation) → Exited (view s i) (view (recover_slot env i s) i)
  unfolding recover_slot fail close
  recover_slot_self i s = ground arith

  Exited-trans : (u v w : View) → Exited u v → Exited v w → Exited u w
  Exited-trans u v w (inl a) k = subst (λ x. Exited x w) a k
  Exited-trans u v w (inr (inr a)) k = inr (inr a)
  Exited-trans u v w (inr (inl (a, b))) (inl c) = inr (inl (a, c ∙ b))
  Exited-trans u v w (inr (inl (a, b))) (inr (inl (c, d))) = inr (inl (a, cc))
  Exited-trans u v w (inr (inl (a, b))) (inr (inr (c, d, e))) = ground arith

  recover-Exited :
      (n j i : ℕ) (s : Incarnation) → Exited (view s i) (view (for_each n j (recover_slot env) s) i)
  unfolding for_each
  recover-Exited zero j i s = inl refl
  recover-Exited (suc n) j i s =
      Exited-trans (view s i) (view (recover_slot env j s) i)
        (view (for_each n (suc j) (recover_slot env) (recover_slot env j s)) i) first
        (recover-Exited n (suc j) i (recover_slot env j s))
    where
      first : Exited (view s i) (view (recover_slot env j s) i)
      first = elim (Bool-cases (i == j)) [
        | inr e ↦ inl (recover_slot-view j i s (ground arith))
        | inl e ↦
            let same : i ≡ j = ground arith in
            subst (λ k. Exited (view s i) (view (recover_slot env k s) i)) same
              (recover_slot_self i s)
      ]

  -- The watched process has exited.
  abbrev pub HasExited : Incarnation → Type 0
  HasExited s = (pid : ℕ) × (s.observer.process ≡ some pid) × (env.exited pid ≡ ok true)

  observe_process-Exited :
      (i : ℕ) (s : Incarnation)
      → (view (observe_process env s) i ≡ view s i)
        ⊎ (HasExited s × Exited (view s i) (view (observe_process env s) i))
  unfolding observe_process observe_exit recover fail_notification fail close exit_observed
      acknowledge_quiescent
  observe_process-Exited i s = elim (Option-cases s.observer.process) [
    | inl n ↦ rw (n, observe_process) (inl refl)
    | inr (pid, p) ↦ elim (Result-cases (env.exited pid)) [
      | inr (e, x) ↦ rw (p, observe_process, x, observe_exit) (inl refl)
      | inl (true, x) ↦
          rw (p, observe_process, x, observe_exit)
            (inr (
              (pid, refl, x),
              recover-Exited (exit_observed s).claims.frames 0 i (exit_observed s),
            ))
      | inl (false, x) ↦ rw (p, observe_process, x, observe_exit) (inl refl)
    ]
  ]

  observe_deadline-view : (i : ℕ) (s : Incarnation) → view (observe_deadline env s) i ≡ view s i
  unfolding observe_deadline set_deadline expire fail close
  observe_deadline-view i s = ground arith

  -- What `poll` makes of a slot, seen from the slot before.
  poll-view :
      (i : ℕ) (s : Incarnation)
      → (w : View) × ((w ≡ view s i) ⊎ (HasExited s × Exited (view s i) w))
        × ((view (poll env s) i ≡ w) ⊎ Completed w)
  unfolding poll
  poll-view i s = (
    view watched i,
    watch,
    elim (Bool-cases (is_some watched.observer.failure)) [
      | inl e ↦ rw (poll, e) (inl refl)
      | inr e ↦ rw (poll, e) (poll_slots-evidence watched.claims.frames 0 i watched)
    ],
  )
    where
      watched : Incarnation
      watched = observe_deadline env (observe_process env s)

      watch : (view watched i ≡ view s i) ⊎ (HasExited s × Exited (view s i) (view watched i))
      watch = rw (observe_deadline-view i (observe_process env s)) (observe_process-Exited i s)

  -- The registered timeline of a release has reached its value.
  abbrev pub Reached : View → Type 0
  Reached v =
      (timeline : ℕ) × (completed : ℕ) × (timeline_of v.timelines v.id ≡ some timeline)
      × (env.completed_value timeline ≡ ok completed)
      × (v.value ≤ completed)

  abbrev Evidence : Type 0 → View → Type 0
  Evidence X v = (Reached v × ((v.pending ≡ 2) ⊎ ((v.pending ≡ 1) × X))) ⊎ (X × Synchronous v)

  Evidence-unchanged :
      (X : Type 0) (v w x : View)
      → v.claim ≢ 0
      → x.claim ≡ 0
      → w ≡ v
      → ((x ≡ w) ⊎ Completed w)
      → Evidence X v
  Evidence-unchanged X v w x h e same (inl kept) =
      absurd (h (ap View.claim (sym same ∙ sym kept) ∙ e))
  Evidence-unchanged X v w x h e same (inr done) =
      let (p, r) = subst Completed same done in inl (r, inl p)

  Evidence-of :
      (X : Type 0) (v w x : View)
      → v.claim ≢ 0
      → x.claim ≡ 0
      → ((w ≡ v) ⊎ (X × Exited v w))
      → ((x ≡ w) ⊎ Completed w)
      → Evidence X v
  Evidence-of X v w x h e (inl same) polled = Evidence-unchanged X v w x h e same polled
  Evidence-of X v w x h e (inr (ex, inl same)) polled = Evidence-unchanged X v w x h e same polled
  Evidence-of X v w x h e (inr (ex, inr (inl (which, at_exit)))) (inl kept) =
      absurd (h (ap View.claim (sym at_exit ∙ sym kept) ∙ e))
  Evidence-of X v w x h e (inr (ex, inr (inl (which, at_exit)))) (inr done) =
      let (p, r) = subst Completed at_exit done in
      inl (r, elim which [ inl one ↦ inr (one, ex) | inr two ↦ inl two ])
  Evidence-of X v w x h e (inr (ex, inr (inr sync))) polled = inr (ex, sync)

  -- A poll of the producer's observer takes a claim away only if its deferred release names a
  -- registered timeline that has reached the release's value, and the consumer has finished with
  -- the frame itself or its process has exited; or if the process has exited and the claim was a
  -- synchronous one: plain memory, no timeline registered and no release deferred. Closure, the
  -- drain deadline and a failure never return credit.
  pub poll-evidence :
      (s : Incarnation) (i : ℕ)
      → s.claims.claim i ≢ 0
      → (poll env s).claims.claim i ≡ 0
      → (Reached (view s i)
          × ((s.claims.release_pending i ≡ 2) ⊎ ((s.claims.release_pending i ≡ 1) × HasExited s)))
        ⊎ (HasExited s × Synchronous (view s i))
  poll-evidence s i h e =
      let (w, watch, polled) = poll-view i s in
      Evidence-of (HasExited s) (view s i) w (view (poll env s) i) h e watch polled
