-- ===== src/Arena/Attaching/Creating.antt =====
-- A new producer is well-formed (`create` of crates/jackstay/src/acquisition/arena.rs).
use jackstay.Base.{
  ℕ, ◌+◌, ◌<◌, ◌≡◌, sym, subst, inl, inr, Bool, none, [], arith, Option-cases, u32_mod, u64_mod,
  checked_add64,
}
use jackstay.Base.Result.{Result, ok, err, Result-cases}
use jackstay.Admission.{
  AdmissionBook, AdmissionError, AdmissionLimits, HoldingRequest, HoldingReservation,
  IncarnationRecord, admit, grant, complete_cleanup, initial,
}
use jackstay.Admission
use jackstay.Admission.Invariant.{IsValid, new-IsValid}
use jackstay.Arena.{ArenaConfig, ArenaProducer, Environment, ResourceLayout}
use jackstay.Arena.Layout
use jackstay.Arena.Layout.{claim_len, control_len}
use jackstay.Arena.Layout.Bounds.{Fits, new-Fits}
use jackstay.Arena.Publishing.Invariant.{IsSound}
use jackstay.Arena.Attaching.{admitted, prepare, create, fresh, new_map}

new-initial :
    (l : AdmissionLimits) {b : AdmissionBook}
    → Admission.new l ≡ ok b
    → (b.limits ≡ l) × (b.reservations ≡ []) × (b.pending_allocation ≡ none)
unfolding Admission.new initial
new-initial l {b} e = ground arith

-- What `prepare` hands on.
record Prepared (config : ArenaConfig) (layout : ResourceLayout) (b : AdmissionBook) : Type 0 where
  book : IsValid b
  resources : layout.resources ≡ b.limits.resource_capacity
  history : layout.history ≡ b.limits.retained_history
  some_history : 0 < layout.history
  some_resources : 0 < layout.resources
  nobody : b.reservations ≡ []
  settled : b.pending_allocation ≡ none

admitted-ok : {A : Type 0} (r : Result AdmissionError A) {a : A} → admitted r ≡ ok a → r ≡ ok a
unfolding admitted
admitted-ok (ok a) e = cc
admitted-ok (err x) e = cc

module _ (env : Environment) where
  prepare-Prepared :
      (config : ArenaConfig) (external : ℕ) {q : ResourceLayout × AdmissionBook}
      → config.resource_capacity < u32_mod
      → config.memory_budget < u64_mod
      → prepare env config external ≡ ok q
      → Prepared config q.0 q.1
  unfolding prepare
  prepare-Prepared config external {q} w w' e =
      elim (Result-cases (
        Layout.new env.page_size config.resource_capacity config.retained_history
          config.payload_capacity)) [
            | inr (x, a) ↦ ground arith
            | inl (layout, a) ↦ elim (Result-cases (control_len env.page_size layout.history)) [
              | inr (x, c) ↦ ground arith
              | inl (fixed, c) ↦
                  elim (Option-cases (checked_add64 (layout.len + layout.payload_len) external)) [
                    | inl n ↦ ground arith
                    | inr (allocated, n) ↦
                        elim (Result-cases (admitted (Admission.new (limits_of allocated fixed)))) [
                          | inr (x, b) ↦ ground arith
                          | inl (book, b) ↦
                              let same : q ≡ (layout, book) = ground arith in
                              subst
                                (λ (r : ResourceLayout × AdmissionBook). Prepared config r.0 r.1)
                                (sym same)
                                (parts layout book allocated fixed
                                  (new-Fits env.page_size config.resource_capacity
                                    config.retained_history config.payload_capacity a)
                                  (admitted-ok (Admission.new (limits_of allocated fixed)) b))
                        ]
                  ]
            ]
          ]
    where
      limits_of : ℕ → ℕ → AdmissionLimits
      limits_of allocated fixed = record {
        resource_capacity = config.resource_capacity;
        retained_history = config.retained_history;
        producer_reserve = config.producer_reserve;
        allocated_bytes = allocated;
        fixed_bytes = fixed;
        memory_budget = config.memory_budget;
        max_incarnations = config.max_incarnations;
      }

      parts :
          (layout : ResourceLayout) (book : AdmissionBook) (allocated fixed : ℕ)
          → Fits env.page_size config.resource_capacity config.retained_history
              config.payload_capacity layout
          → Admission.new (limits_of allocated fixed) ≡ ok book
          → Prepared config layout book
      parts layout book allocated fixed f b =
          let (limits, nobody, settled) = new-initial (limits_of allocated fixed) b in
          let (resources, history, capacity) = f.same in
          record {
            book =
                new-IsValid (limits_of allocated fixed)
                  (record { capacity_word = w; budget_word = w' }) b;
            resources = rw limits resources;
            history = rw limits history;
            some_history = rw history f.counts.0;
            some_resources = rw resources (omega (arith, f.counts));
            nobody = nobody;
            settled = settled;
          }

  fresh-IsSound :
      (config : ArenaConfig) (native : Bool) (q : ResourceLayout × AdmissionBook)
      → Prepared config q.0 q.1
      → IsSound (fresh env config native q)
  unfolding fresh new_map
  fresh-IsSound config native q z = record {
    accounts = record { book = z.book; matches = rw z.nobody tt };
    installed = record {
      numbered = record {
        bounded = λ i h. omega arith;
        distinct = λ i j h k e nonzero. absurd (omega arith);
      };
      resources = z.resources;
      history = z.history;
      some_history = z.some_history;
      next = z.some_resources;
      settled = z.settled;
    };
  }

  -- A producer that `create` gives is well-formed, for limits of the declared widths.
  pub create-IsSound :
      (config : ArenaConfig) (external : ℕ) (native : Bool) {p : ArenaProducer}
      → config.resource_capacity < u32_mod
      → config.memory_budget < u64_mod
      → create env config external native ≡ ok p
      → IsSound p
  unfolding create
  create-IsSound config external native {p} w w' e =
      elim (Result-cases (prepare env config external)) [
        | inr (x, a) ↦ ground arith
        | inl (q, a) ↦ elim (Result-cases (env.new_storage q.0.len)) [
          | inr (x, b) ↦ ground arith
          | inl (u, b) ↦
              let same : p ≡ fresh env config native q = ground arith in
              subst IsSound (sym same)
                (fresh-IsSound config native q (prepare-Prepared config external w w' a))
        ]
      ]
