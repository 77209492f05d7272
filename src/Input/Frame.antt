-- ===== src/Input/Frame.antt =====
-- What the helpers of the session state leave alone: a status or a cancellation drops queued work,
-- and touches nothing else but mailboxes and barrier.
use mathlib.Core.List.{append_assoc}
use jackstay.Base.{
  ℕ, ◌+◌, ◌≡◌, refl, ◌∙◌, subst, Bool, true, Option, some, List, [], ◌∷◌, ◌++◌, inl, inr,
  Bool-cases, Option-cases, leb, length, ◌*◌, is_some,
}
use jackstay.Base.Sub.{Sub, Sub-refl, Sub-nil, Sub-trans, Sub-prefix, Sub-drop}
use jackstay.Input.Model.{Work, Status, Scope, Reason, all, expired, rejected, stale}
use jackstay.Input.Validate.{is_empty}
use jackstay.Input.State.{
  Barrier, State, flight_ends, elapsed, fold_last, status_for, report, overflow_barrier, dropped_by,
  drop_queued, cancel, expire,
}

pub record Trimmed (s u : State) : Type 0 where
  pub config_kept : u.config ≡ s.config
  pub controller_kept : u.next_controller ≡ s.next_controller
  pub work_kept : u.next_work ≡ s.next_work
  pub active_kept : u.active ≡ s.active
  pub flight_kept : u.flight ≡ s.flight
  pub failed_kept : u.failed ≡ s.failed
  pub queue_left : Sub u.queue s.queue

pub Trimmed-refl : (s : State) → Trimmed s s
Trimmed-refl s = record {
  config_kept = refl;
  controller_kept = refl;
  work_kept = refl;
  active_kept = refl;
  flight_kept = refl;
  failed_kept = refl;
  queue_left = Sub-refl s.queue;
}

pub Trimmed-trans : {s u w : State} → Trimmed s u → Trimmed u w → Trimmed s w
Trimmed-trans h k = record {
  config_kept = k.config_kept ∙ h.config_kept;
  controller_kept = k.controller_kept ∙ h.controller_kept;
  work_kept = k.work_kept ∙ h.work_kept;
  active_kept = k.active_kept ∙ h.active_kept;
  flight_kept = k.flight_kept ∙ h.flight_kept;
  failed_kept = k.failed_kept ∙ h.failed_kept;
  queue_left = Sub-trans k.queue_left h.queue_left;
}

-- Other mailboxes, another barrier and a shorter queue.
pub trimmed :
    (s : State) (boxes : ℕ → List Status) (b : Option Barrier) (q : List Work)
    → Sub q s.queue
    → Trimmed s (record s { mailboxes = boxes; barrier = b; queue = q })
trimmed s boxes b q h = record {
  config_kept = refl;
  controller_kept = refl;
  work_kept = refl;
  active_kept = refl;
  flight_kept = refl;
  failed_kept = refl;
  queue_left = h;
}

-- A status changes mailboxes alone, or it overflows: the queue is emptied under a barrier.
pub report_cases {ℓ} :
    (P : State → Type ℓ) (s : State) (status : Status)
    → ((boxes : ℕ → List Status) → P (record s { mailboxes = boxes }))
    → ((boxes : ℕ → List Status)
        → P (record s { mailboxes = boxes; queue = []; barrier = some overflow_barrier }))
    → P (report s status)
unfolding report status_for
report_cases P s status kept emptied = elim (Option-cases s.active) [
  | inl e ↦ rw (e, report) (kept s.mailboxes)
  | inr (a, e) ↦ rw (e, report) (filled a.id)
]
  where
    filled : (id : ℕ) → P (status_for s id status)
    filled id = elim (Option-cases (fold_last (s.mailboxes id) status)) [
      | inr (box, f) ↦ rw (f, status_for) (kept _)
      | inl f ↦
          rw (f, status_for)
            (elim (Bool-cases (leb (s.config.max_events * 2 + 4) (length (s.mailboxes id)))) [
              | inl g ↦ rw g (emptied _)
              | inr g ↦ rw g (kept _)
            ])
    ]

pub report-Trimmed : (s : State) (status : Status) → Trimmed s (report s status)
report-Trimmed s status =
    report_cases (Trimmed s) s status
      (λ boxes. trimmed s boxes s.barrier s.queue (Sub-refl s.queue))
      (λ boxes. trimmed s boxes (some overflow_barrier) [] (Sub-nil s.queue))

-- The same change under other queues.
pub requeued :
    {s u : State} (p q : List Work)
    → Trimmed s u
    → Sub q p
    → Trimmed (record s { queue = p }) (record u { queue = q })
requeued p q h k = record {
  config_kept = h.config_kept;
  controller_kept = h.controller_kept;
  work_kept = h.work_kept;
  active_kept = h.active_kept;
  flight_kept = h.flight_kept;
  failed_kept = h.failed_kept;
  queue_left = k;
}

pub drop_queued-Trimmed :
    (scope : Scope) (ws keep : List Work) (s : State)
    → Trimmed (record s { queue = keep ++ ws }) (drop_queued scope ws keep s)
unfolding drop_queued
drop_queued-Trimmed scope [] keep s = trimmed _ s.mailboxes s.barrier keep (Sub-prefix keep [])
drop_queued-Trimmed scope (w ∷ ws) keep s = elim (Bool-cases (dropped_by scope w.operation)) [
  | inl d ↦ rw d (elim (Bool-cases (is_empty s'.queue)) [
    | inl f ↦ rw f (requeued _ keep said (Sub-prefix keep (w ∷ ws)))
    | inr f ↦ rw f (
        Trimmed-trans (requeued (keep ++ (w ∷ ws)) (keep ++ ws) said (Sub-drop keep ws w))
          (drop_queued-Trimmed scope ws keep s'))
  ])
  | inr d ↦
      rw d (regrouped (drop_queued-Trimmed scope ws (keep ++ (w ∷ [])) (record s { queue = ws })))
]
  where
    s' : State
    s' = report (record s { queue = ws }) (rejected w.sequence stale)

    said : Trimmed (record s { queue = ws }) s'
    said = report-Trimmed (record s { queue = ws }) (rejected w.sequence stale)

    regrouped :
        {u : State}
        → Trimmed (record s { queue = (keep ++ (w ∷ [])) ++ ws }) u
        → Trimmed (record s { queue = keep ++ (w ∷ ws) }) u
    regrouped {u} h =
        subst (λ q. Trimmed (record s { queue = q }) u) (append_assoc keep (w ∷ []) ws) h

-- A cancellation does nothing, or it sets a barrier and drops queued work.
pub cancel_cases {ℓ} :
    (P : State → Type ℓ) (s : State) (scope : Scope) (reason : Reason) (ends : Bool)
    → P s
    → ((sc : Scope) (b : Barrier) → P (drop_queued sc s.queue [] (record s { barrier = some b })))
    → P (cancel s scope reason ends)
unfolding cancel
cancel_cases P s scope reason ends same dropped = elim (Bool-cases (is_some s.active)) [
  | inr e ↦ rw e same
  | inl e ↦
      rw e (elim (Bool-cases (flight_ends s.flight)) [
        | inl f ↦ rw f same
        | inr f ↦ rw f (dropped _ _)
      ])
]

pub cancel-Trimmed :
    (s : State) (scope : Scope) (reason : Reason) (ends : Bool)
    → Trimmed s (cancel s scope reason ends)
cancel-Trimmed s scope reason ends =
    cancel_cases (Trimmed s) s scope reason ends (Trimmed-refl s) (λ sc b.
      Trimmed-trans (trimmed s s.mailboxes (some b) s.queue (Sub-refl s.queue))
        (drop_queued-Trimmed sc s.queue [] (record s { barrier = some b })))

pub expire_cases {ℓ} :
    (P : State → Type ℓ) (s : State) (now : ℕ)
    → P s
    → P (cancel s all expired true)
    → P (expire s now)
unfolding expire
expire_cases P s now same cancelled = elim (Option-cases s.active) [
  | inl e ↦ rw (e, expire) same
  | inr (a, e) ↦
      rw (e, expire)
        (elim (Bool-cases (leb s.config.idle_timeout (elapsed now a))) [
          | inl f ↦ rw f cancelled
          | inr f ↦ rw f same
        ])
]

pub expire-Trimmed : (s : State) (now : ℕ) → Trimmed s (expire s now)
expire-Trimmed s now =
    expire_cases (Trimmed s) s now (Trimmed-refl s) (cancel-Trimmed s all expired true)
