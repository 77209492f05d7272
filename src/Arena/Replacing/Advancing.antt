-- ===== src/Arena/Replacing/Advancing.antt =====
-- The advance of a replacement keeps the producer well-formed (`advance_with_allocation` of
-- crates/jackstay/src/acquisition/arena/reconfiguration.rs).
use jackstay.Base.{
  ℕ, ◌+◌, ◌≡◌, refl, sym, subst, inl, inr, true, none, some, arith, Option-cases, is_some, if_cases,
  checked_add64, not, ◌==◌,
}
use jackstay.Base.Result.{Outcome, Result, ok, err, Result-cases}
use jackstay.Admission.{AdmissionBook, AdmissionError, insufficient_memory, no_reconfiguration}
use jackstay.Admission.Allocation.{
  reserve_reconfiguration, install_reconfiguration, abandon_reconfiguration_allocation,
}
use jackstay.Admission.Invariant.{IsValid}
use jackstay.Admission.Replacement.{
  reserve_reconfiguration-IsValid, install_reconfiguration-IsValid,
}
use jackstay.Arena.{ArenaError, ArenaProducer, Environment, ResourceLayout, ResourceMap}
use jackstay.Arena.Collecting.{poll_cleanup}
use jackstay.Arena.Publishing.Invariant.{
  IsSound, IsInstalled, Installed, Proposed, poll_cleanup-IsSound,
}
use jackstay.Arena.Attaching.{new_map}
use jackstay.Arena.Replacing.{
  ReconfigurationStatus, installed_into, install, allocate_reserved, reservation_failed,
  advance_reserved, advance_polled, advance_with_allocation,
}
use jackstay.Arena.Replacing.Waiting.{
  reserve-ok, reserve-settled, install-ok, install-err, Waits, Waits-IsSound, proposed-Carries,
  Waits-step, Waits-abandon,
}

module _ (env : Environment) where
  installed_into-IsSound :
      (p : ArenaProducer) (layout : ResourceLayout) (b : AdmissionBook) (allocation u : ℕ)
      (outcome : Outcome AdmissionBook AdmissionError ℕ)
      → install_reconfiguration b u ≡ outcome
      → p.resources ≡ none
      → p.pending_layout ≡ some layout
      → Waits p layout b
      → IsSound (installed_into env p layout allocation outcome).0
  unfolding installed_into new_map
  installed_into-IsSound p layout b allocation u (book, err e) same gone proposal w =
      Waits-IsSound p layout (abandon_reconfiguration_allocation book).0 gone proposal
        (Waits-abandon p layout book (subst (Waits p layout) (sym (install-err b u same)) w))
  installed_into-IsSound p layout b allocation u (book, ok id) same gone proposal w =
      let (k, settled) = install-ok b u same in
      let proposed = proposed-Carries layout b book k w.proposed in
      record {
        accounts = record {
          book =
              subst (λ (o : Outcome AdmissionBook AdmissionError ℕ). IsValid o.0) same
                (install_reconfiguration-IsValid b w.book u);
          matches = rw k.reservations w.matches;
        };
        installed = record {
          numbered = record {
            bounded = λ i h. omega arith;
            distinct = λ i j h l e nonzero. absurd (omega arith);
          };
          resources = proposed.resources;
          history = proposed.history;
          some_history = proposed.some_history;
          next = proposed.some_resources;
          settled = settled;
        };
      }

  install-IsSound :
      (p : ArenaProducer) (layout : ResourceLayout) (allocation external : ℕ)
      → p.resources ≡ none
      → p.pending_layout ≡ some layout
      → Waits p layout p.admission
      → IsSound (install env p layout allocation external).0
  unfolding install
  install-IsSound p layout allocation external gone proposal w =
      elim (Option-cases (checked_add64 (layout.len + layout.payload_len) external)) [
        | inl n ↦
            rw (n, install)
              (Waits-IsSound p layout (abandon_reconfiguration_allocation p.admission).0 gone
                proposal (Waits-abandon p layout p.admission w))
        | inr (bytes, n) ↦
            rw (n, install)
              (installed_into-IsSound p layout p.admission allocation bytes
                (install_reconfiguration p.admission bytes) refl gone proposal w)
      ]

  allocate_reserved-IsSound :
      (p : ArenaProducer) (layout : ResourceLayout) (allocation : ℕ)
      (external : Result ArenaError ℕ)
      → p.resources ≡ none
      → p.pending_layout ≡ some layout
      → Waits p layout p.admission
      → IsSound (allocate_reserved env p layout allocation external).0
  unfolding allocate_reserved
  allocate_reserved-IsSound p layout allocation external gone proposal w =
      elim (Result-cases (env.new_storage layout.len)) [
        | inr (x, a) ↦ rw (a, allocate_reserved) given_up
        | inl (u, a) ↦ elim (Result-cases external) [
          | inr (x, b) ↦ rw (a, allocate_reserved, b) given_up
          | inl (bytes, b) ↦
              rw (a, allocate_reserved, b)
                (install-IsSound p layout allocation bytes gone proposal w)
        ]
      ]
    where
      given_up :
          IsSound (record p { admission = (abandon_reconfiguration_allocation p.admission).0 })
      given_up =
          Waits-IsSound p layout (abandon_reconfiguration_allocation p.admission).0 gone proposal
            (Waits-abandon p layout p.admission w)

  reservation_failed-state :
      (p : ArenaProducer) (e : AdmissionError) → (reservation_failed env p e).0 ≡ p
  unfolding reservation_failed
  reservation_failed-state p (insufficient_memory requested available) = refl
  reservation_failed-state p e = refl

  reserved :
      (p : ArenaProducer) (layout : ResourceLayout) (book : AdmissionBook)
      (r : Result AdmissionError ℕ)
      → reserve_reconfiguration p.admission ≡ (book, r)
      → Waits p layout p.admission
      → Waits p layout book
  reserved p layout book r same w =
      let (k, pending) = reserve-ok p.admission in
      subst (λ (o : Outcome AdmissionBook AdmissionError ℕ). Waits p layout o.0) same
        (Waits-step p layout p.admission (reserve_reconfiguration p.admission).0
          (reserve_reconfiguration-IsValid p.admission w.book) k pending w)

  advance_reserved-IsSound :
      (p : ArenaProducer) (layout : ResourceLayout) (external : Result ArenaError ℕ)
      (outcome : Outcome AdmissionBook AdmissionError ℕ)
      → reserve_reconfiguration p.admission ≡ outcome
      → p.resources ≡ none
      → p.pending_layout ≡ some layout
      → Waits p layout p.admission
      → IsSound (advance_reserved env p layout external outcome).0
  unfolding advance_reserved
  advance_reserved-IsSound p layout external (book, err e) same gone proposal w =
      subst IsSound (sym (reservation_failed-state (record p { admission = book }) e))
        (Waits-IsSound p layout book gone proposal (reserved p layout book (err e) same w))
  advance_reserved-IsSound p layout external (book, ok allocation) same gone proposal w =
      allocate_reserved-IsSound (record p { admission = book }) layout allocation external gone
        proposal (waiting (reserved p layout book (ok allocation) same w))
    where
      waiting : Waits p layout book → Waits (record p { admission = book }) layout book
      waiting w = record {
        book = w.book;
        matches = w.matches;
        pending = w.pending;
        proposed = w.proposed;
      }

  -- The one case for an installed allocation: there is nothing to reserve.
  advance_installed :
      (p : ArenaProducer) (map : ResourceMap) (layout : ResourceLayout)
      (external : Result ArenaError ℕ)
      → IsSound p
      → p.resources ≡ some map
      → IsSound (advance_reserved env p layout external (reserve_reconfiguration p.admission)).0
  unfolding advance_reserved
  advance_installed p map layout external v e =
      let now : IsInstalled map p.admission p.cursor p.next_slot =
        subst (λ o. Installed o p.pending_layout p.admission p.cursor p.next_slot) e v.installed in
      subst (λ o. IsSound (advance_reserved env p layout external o).0)
        (sym (reserve-settled p.admission now.settled))
        (subst IsSound (sym (reservation_failed-state p no_reconfiguration)) v)

  advance_polled_cases :
      (P : Outcome ArenaProducer ArenaError ReconfigurationStatus → Type 0) (p : ArenaProducer)
      (released : ℕ) (external : Result ArenaError ℕ)
      → ((s : ReconfigurationStatus) → P (p, ok s))
      → ((layout : ResourceLayout)
          → p.pending_layout ≡ some layout
          → P (advance_reserved env p layout external (reserve_reconfiguration p.admission)))
      → P (advance_polled env (p, ok released) external)
  unfolding advance_polled
  advance_polled_cases P p released external idle waiting = elim (Option-cases p.pending_layout) [
    | inl e ↦ rw (e, advance_polled) (idle _)
    | inr (layout, e) ↦ rw (e, advance_polled) (waiting layout e)
  ]

  advance_polled-IsSound :
      (polled : Outcome ArenaProducer ArenaError ℕ) (external : Result ArenaError ℕ)
      → IsSound polled.0
      → IsSound (advance_polled env polled external).0
  unfolding advance_polled
  advance_polled-IsSound (p, err e) external v = v
  advance_polled-IsSound (p, ok released) external v =
      advance_polled_cases (λ o. IsSound o.0) p released external (λ s. v)
        (λ layout proposal. elim (Option-cases p.resources) [
          | inr (map, e) ↦ advance_installed p map layout external v e
          | inl gone ↦
              let paused : (is_some p.admission.pending_allocation ≡ true)
                  × Proposed p.pending_layout p.admission =
                subst (λ o. Installed o p.pending_layout p.admission p.cursor p.next_slot) gone
                  v.installed in
              let w : Waits p layout p.admission = record {
                book = v.accounts.book;
                matches = v.accounts.matches;
                pending = paused.0;
                proposed = subst (λ o. Proposed o p.admission) proposal paused.1;
              } in
              advance_reserved-IsSound p layout external (reserve_reconfiguration p.admission) refl
                gone proposal w
        ])

  pub advance_with_allocation-IsSound :
      (p : ArenaProducer) (external : Result ArenaError ℕ)
      → IsSound p
      → IsSound (advance_with_allocation env p external).0
  unfolding advance_with_allocation
  advance_with_allocation-IsSound p external v =
      if_cases (λ (o : Outcome ArenaProducer ArenaError ReconfigurationStatus). IsSound o.0)
        (not (p.control.terminal == 0)) _ _ (λ over. v)
        (λ still.
          advance_polled-IsSound (poll_cleanup env p) external (poll_cleanup-IsSound env p v))
