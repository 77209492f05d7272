-- ===== src/Arena/Attaching.antt =====
-- The producer's life and its consumers: `create`, `prepare`, `attach_with_recipient` and `close` of
-- crates/jackstay/src/acquisition/arena.rs.
pub mod Invariant
pub mod Creating
use jackstay.Base.{
  ℕ, zero, suc, ◌+◌, ◌≡◌, Bool, true, false, not, ◌||◌, Option, none, some, [], is_some, ltb, ◌==◌,
  if◌then◌else◌, checked_add64,
}
use jackstay.Base.Dict.{lookup, insert}
use jackstay.Base.Result.{Result, ok, err, Outcome, ◌>>=◌, ◌>>◌, ok_or, reject_if}
use jackstay.Protocol.{update}
use jackstay.Admission.{
  AdmissionBook, AdmissionError, unknown_incarnation, AdmissionLimits, HoldingReservation, admit,
  complete_cleanup,
}
use jackstay.Admission
use jackstay.Arena.{
  ArenaConfig, ArenaError, admission, configuration, closed, ArenaProducer, ClaimMap, ControlMap,
  default_descriptor, Environment, Incarnation, ResourceLayout, ResourceMap,
}
use jackstay.Arena.Layout
use jackstay.Arena.Layout.{control_len, claim_len}
use jackstay.Arena.Claims.{close}
use jackstay.Arena.Cleanup.{observe}
use jackstay.Arena.Collecting.{poll_cleanup, returned}

-- An error of the book as one of the arena, `?` on an `AdmissionError`.
unfoldable pub admitted : {A : Type 0} → Result AdmissionError A → Result ArenaError A
admitted (ok a) = ok a
admitted (err e) = err (admission e)

unfoldable pub prepare :
    Environment → ArenaConfig → ℕ → Result ArenaError (ResourceLayout × AdmissionBook)
prepare env config external_bytes = do
  reject_if (config.drain_timeout == 0 || not (is_some (env.deadline_after config.drain_timeout)))
      (configuration "drain interval must be positive and representable")
  layout ←
      Layout.new env.page_size config.resource_capacity config.retained_history
        config.payload_capacity
  fixed ← control_len env.page_size layout.history
  allocated ←
      ok_or (checked_add64 (layout.len + layout.payload_len) external_bytes)
        (configuration "allocation byte total overflow")
  book ← admitted (
      Admission.new (record {
        resource_capacity = config.resource_capacity;
        retained_history = config.retained_history;
        producer_reserve = config.producer_reserve;
        allocated_bytes = allocated;
        fixed_bytes = fixed;
        memory_budget = config.memory_budget;
        max_incarnations = config.max_incarnations;
      }))
  ok (layout, book)

-- A fresh control map and a fresh allocation of one generation.
unfoldable pub new_control : Environment → ℕ → ControlMap
new_control env history = record {
  history = history;
  scope = env.new_scope 0;
  latest = 0;
  terminal = 0;
  reconfiguration_epoch = 0;
  current = 1;
  first_cursor = 1;
  ring = λ word. 0;
}

unfoldable pub new_map : ResourceLayout → ℕ → ResourceMap
new_map layout generation = record {
  layout = layout;
  generation = generation;
  state = λ index. 0;
  descriptor = λ index. default_descriptor;
  storage = λ i. 0;
  reserved = λ index. false;
}

unfoldable pub fresh :
    Environment → ArenaConfig → Bool → ResourceLayout × AdmissionBook → ArenaProducer
fresh env config native_resources prepared = record {
  resources = some (new_map prepared.0 1);
  retired = [];
  pending_layout = none;
  control = new_control env prepared.0.history;
  admission = prepared.1;
  incarnations = [];
  cursor = 0;
  next_slot = 0;
  native_resources = native_resources;
  drain_timeout = config.drain_timeout;
}

unfoldable pub create : Environment → ArenaConfig → ℕ → Bool → Result ArenaError ArenaProducer
create env config external_bytes native_resources = do
  prepared ← prepare env config external_bytes
  env.new_storage prepared.0.len
  ok (fresh env config native_resources prepared)

-- What a consumer is handed: its incarnation, and the allocation that it may map first.
pub record ConsumerGrant : Type 0 where
  pub incarnation : ℕ
  pub frames : ℕ
  pub layout : ResourceLayout
  pub generation : ℕ
  pub arena_scope : ℕ
  pub drain_timeout : ℕ
  pub mapping_slot : ℕ

-- The claim map of a new incarnation, with the current allocation offered in mapping slot 0.
unfoldable pub new_claims : Environment → ℕ → ℕ → ℕ → ℕ → ClaimMap
new_claims env incarnation frames recipient_pid generation = record {
  incarnation = incarnation;
  frames = frames;
  scope = env.new_scope incarnation;
  recipient_pid = recipient_pid;
  active = 1;
  quiescent = 0;
  capacity_epoch = 0;
  wait_interest = 0;
  offered_generation = generation;
  claim = λ index. 0;
  release_id = λ index. 0;
  release_value = λ index. 0;
  release_pending = λ index. 0;
  registered_timeline = λ index. 0;
  mapping_slot = update (λ index. 0) 0 generation;
}

unfoldable pub granted : ArenaProducer → ResourceMap → HoldingReservation → ConsumerGrant
granted p map r = record {
  incarnation = r.incarnation;
  frames = r.frames;
  layout = map.layout;
  generation = map.generation;
  arena_scope = p.control.scope;
  drain_timeout = p.drain_timeout;
  mapping_slot = 0;
}

module _ (env : Environment) where
  -- The reservation has been admitted; when the setup fails, it is given back.
  unfoldable pub set_up :
      ArenaProducer
      → ResourceMap
      → HoldingReservation
      → ℕ
      → Option ℕ
      → ℕ
      → Outcome ArenaProducer ArenaError ConsumerGrant
  set_up p map r recipient_pid process len = elim (env.new_storage len) [
    | ok u ↦ (
      record p {
        incarnations =
            insert r.incarnation
              (record {
                claims = new_claims env r.incarnation r.frames recipient_pid map.generation;
                observer = observe p.native_resources process p.drain_timeout;
              })
              p.incarnations;
      },
      ok (granted p map r),
    )
    | err e ↦ (record p { admission = returned p.admission r.incarnation }, err e)
  ]

  -- Admission refuses while no allocation is installed, so that the last case cannot arise
  -- (`expect` in the code).
  unfoldable pub admitted_into :
      ArenaProducer
      → Outcome AdmissionBook AdmissionError HoldingReservation
      → ℕ
      → Option ℕ
      → ℕ
      → Outcome ArenaProducer ArenaError ConsumerGrant
  admitted_into p (book, err e) recipient_pid process len =
      (record p { admission = book }, err (admission e))
  admitted_into p (book, ok r) recipient_pid process len = elim p.resources [
    | some map ↦ set_up (record p { admission = book }) map r recipient_pid process len
    | none ↦ (record p { admission = book }, err closed)
  ]

  unfoldable pub attach_polled :
      Outcome ArenaProducer ArenaError ℕ
      → ℕ
      → ℕ
      → Option ℕ
      → Outcome ArenaProducer ArenaError ConsumerGrant
  attach_polled (p, err e) holding recipient_pid process = (p, err e)
  attach_polled (p, ok released) holding recipient_pid process =
      elim (claim_len env.page_size holding) [
        | err e ↦ (p, err e)
        | ok len ↦
            admitted_into p (admit p.admission (record { frames = holding; claim_bytes = len }))
              recipient_pid process len
      ]

  unfoldable pub attach_with_recipient :
      ArenaProducer → ℕ → ℕ → Option ℕ → Outcome ArenaProducer ArenaError ConsumerGrant
  attach_with_recipient p holding recipient_pid process =
      if not (p.control.terminal == 0)
      then (p, err closed)
      else attach_polled (poll_cleanup env p) holding recipient_pid process

-- `ArenaProducer::close`. Connection loss ends acquisition; the reservation stays charged.
unfoldable pub disconnect : ArenaProducer → ℕ → Outcome ArenaProducer ArenaError (Unit {0})
disconnect p incarnation = elim (lookup incarnation p.incarnations) [
  | none ↦ (p, err (admission unknown_incarnation))
  | some s ↦
      let (book, result) = Admission.close p.admission incarnation in
      (
        record p {
          incarnations = insert incarnation (record s { claims = close s.claims }) p.incarnations;
          admission = book;
        },
        admitted result,
      )
]
