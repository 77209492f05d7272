-- ===== src/Arena/Replacing/Starting.antt =====
-- The start of a replacement keeps the producer well-formed (`begin_reconfiguration` of
-- crates/jackstay/src/acquisition/arena/reconfiguration.rs).
use jackstay.Base.{
  ℕ, ◌+◌, ◌≡◌, refl, sym, subst, ◌∙◌, inl, inr, Bool, some, arith, Option-cases, is_some, if_cases,
  checked_add64, not, ◌==◌,
}
use jackstay.Base.Result.{Outcome, ok, err, Result-cases}
use jackstay.Admission.{AdmissionBook, AdmissionError}
use jackstay.Admission.Allocation.{begin_reconfiguration}
use jackstay.Admission.Invariant.{IsValid}
use jackstay.Admission.Replacement.{begin_reconfiguration-IsValid}
use jackstay.Arena.{ArenaError, ArenaProducer, Environment, ResourceLayout, ResourceMap}
use jackstay.Arena.Claims.{reconfiguration_event}
use jackstay.Arena.Layout
use jackstay.Arena.Layout.Bounds.{new-Fits}
use jackstay.Arena.Publishing.Invariant.{
  IsSound, IsInstalled, IsProposed, Installed, stop-IsSound, signal_all-Matches,
}
use jackstay.Arena.Replacing.{
  signal_reconfiguration, retire, begun, begin_with, begin_installed, start,
}
use jackstay.Arena.Replacing.Waiting.{begin-ok, begin-err, proposed-Carries}

module _ (env : Environment) where
  pub signal_reconfiguration-IsSound :
      (p : ArenaProducer) → IsSound p → IsSound (signal_reconfiguration env p).0
  unfolding signal_reconfiguration
  signal_reconfiguration-IsSound p v =
      elim (Option-cases (checked_add64 p.control.reconfiguration_epoch 1)) [
        | inl e ↦ rw (e, signal_reconfiguration) (stop-IsSound p v)
        | inr (epoch, e) ↦
            rw (e, signal_reconfiguration)
              (record {
                accounts = record {
                  book = v.accounts.book;
                  matches =
                      signal_all-Matches env p.incarnations p.admission.reservations
                        reconfiguration_event v.accounts.matches;
                };
                installed = v.installed;
              })
      ]

  begun-IsSound :
      (p : ArenaProducer) (old : ResourceMap) (layout : ResourceLayout) (old_id bytes : ℕ)
      (native : Bool) (outcome : Outcome AdmissionBook AdmissionError (Unit {0}))
      → begin_reconfiguration p.admission bytes ≡ outcome
      → IsSound p
      → IsProposed layout p.admission
      → IsSound (begun env p old layout old_id native outcome).0
  unfolding begun retire
  begun-IsSound p old layout old_id bytes native (book, err e) same v proposed =
      subst (λ b. IsSound (record p { admission = b })) (sym (begin-err p.admission bytes same)) v
  begun-IsSound p old layout old_id bytes native (book, ok u) same v proposed =
      let (k, pending) = begin-ok p.admission bytes same in
      signal_reconfiguration-IsSound (retire env p old layout old_id native book) (record {
        accounts = record {
          book =
              subst (λ (o : Outcome AdmissionBook AdmissionError (Unit {0})). IsValid o.0) same
                (begin_reconfiguration-IsValid p.admission v.accounts.book bytes);
          matches = rw k.reservations v.accounts.matches;
        };
        installed = (pending, proposed-Carries layout p.admission book k proposed);
      })

  begin_with-IsSound :
      (p : ArenaProducer) (old : ResourceMap) (layout : ResourceLayout) (old_id external : ℕ)
      (native : Bool)
      → IsSound p
      → IsProposed layout p.admission
      → IsSound (begin_with env p old layout old_id external native).0
  unfolding begin_with
  begin_with-IsSound p old layout old_id external native v proposed =
      elim (Option-cases (checked_add64 (layout.len + layout.payload_len) external)) [
        | inl e ↦ rw (e, begin_with) v
        | inr (bytes, e) ↦
            rw (e, begin_with)
              (begun-IsSound p old layout old_id bytes native
                (begin_reconfiguration p.admission bytes) refl v proposed)
      ]

  -- The successor has as many resources and as much history as its predecessor.
  successor :
      (p : ArenaProducer) (old : ResourceMap) (capacity : ℕ) {layout : ResourceLayout}
      → IsInstalled old p.admission p.cursor p.next_slot
      → Layout.new env.page_size old.layout.resources old.layout.history capacity ≡ ok layout
      → IsProposed layout p.admission
  successor p old capacity v e =
      let f = new-Fits env.page_size old.layout.resources old.layout.history capacity e in
      record {
        resources = f.same.0 ∙ v.resources;
        history = f.same.1 ∙ v.history;
        some_history = rw (f.same.1) v.some_history;
        some_resources = rw (f.same.0) (omega (arith, v.next));
      }

  begin_installed_cases :
      (P : Outcome ArenaProducer ArenaError (Unit {0}) → Type 0) (p : ArenaProducer)
      (old : ResourceMap) (capacity external : ℕ) (native : Bool)
      → ((e : ArenaError) → P (p, err e))
      → ((layout : ResourceLayout) (id : ℕ)
          → Layout.new env.page_size old.layout.resources old.layout.history capacity ≡ ok layout
          → P (begin_with env p old layout id external native))
      → P (begin_installed env p old capacity external native)
  unfolding begin_installed
  begin_installed_cases P p old capacity external native refused known =
      elim (Result-cases
        (Layout.new env.page_size old.layout.resources old.layout.history capacity)) [
          | inr (x, e) ↦ rw (e, begin_installed) (refused x)
          | inl (layout, e) ↦ elim (Option-cases p.admission.current_allocation) [
            | inl n ↦ rw (e, begin_installed, n) (refused _)
            | inr (id, n) ↦ rw (e, begin_installed, n) (known layout id e)
          ]
        ]

  start_cases :
      (P : Outcome ArenaProducer ArenaError (Unit {0}) → Type 0) (p : ArenaProducer)
      (capacity external : ℕ) (native : Bool)
      → ((e : ArenaError) → P (p, err e))
      → ((old : ResourceMap)
          → p.resources ≡ some old
          → P (begin_installed env p old capacity external native))
      → P (start env p capacity external native)
  unfolding start
  start_cases P p capacity external native refused known =
      if_cases P (not (p.control.terminal == 0)) _ _ (λ over. refused _)
        (λ still.
          if_cases P (is_some p.pending_layout) _ _ (λ busy. refused _)
            (λ idle. elim (Option-cases p.resources) [
              | inl e ↦ rw e (refused _)
              | inr (old, e) ↦ rw e (known old e)
            ]))

  pub start-IsSound :
      (p : ArenaProducer) (capacity external : ℕ) (native : Bool)
      → IsSound p
      → IsSound (start env p capacity external native).0
  start-IsSound p capacity external native v =
      start_cases (λ o. IsSound o.0) p capacity external native (λ e. v)
        (λ old there.
          let now : IsInstalled old p.admission p.cursor p.next_slot =
            subst (λ o. Installed o p.pending_layout p.admission p.cursor p.next_slot) there
              v.installed in
          begin_installed_cases (λ o. IsSound o.0) p old capacity external native (λ e. v)
            (λ layout id e.
              begin_with-IsSound p old layout id external native v
                (successor p old capacity now e)))
