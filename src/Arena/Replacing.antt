-- ===== src/Arena/Replacing.antt =====
-- Replacement of the resource allocation while consumers keep their incarnations:
-- crates/jackstay/src/acquisition/arena/reconfiguration.rs.
pub mod Waiting
pub mod Advancing
pub mod Starting
pub mod Reconfiguring
use jackstay.Base.{
  ℕ, suc, ◌+◌, ◌-◌, ◌*◌, ◌/◌, Bool, true, false, not, ◌&&◌, ◌||◌, Option, none, some, List, [], ◌∷◌,
  ◌++◌, is_some, ltb, ◌==◌, if◌then◌else◌, checked_add64, u64_mod,
}
use jackstay.Base.Dict.{Dict, lookup, insert}
use jackstay.Base.Range.{find_from}
use jackstay.Base.Result.{Result, ok, err, Outcome}
use jackstay.Protocol.{update, retired_word, generation_of}
use jackstay.Admission.{
  AdmissionBook, AdmissionError, insufficient_memory, invalid_allocation_size,
  reconfiguration_pending, unknown_incarnation,
}
use jackstay.Admission.Allocation.{
  begin_reconfiguration, reserve_reconfiguration, install_reconfiguration,
  abandon_reconfiguration_allocation,
}
use jackstay.Arena.{
  ArenaError, admission, configuration, mapping, closed, generations_exhausted, ArenaProducer,
  ClaimMap, ControlMap, Environment, Incarnation, ResourceLayout, ResourceMap, RetiredAllocation,
}
use jackstay.Arena.Layout
use jackstay.Arena.Claims.{reconfiguration_event}
use jackstay.Arena.Collecting.{close_all, poll_cleanup, stop}
use jackstay.Arena.Publishing.{signal_all}
use jackstay.Arena.Attaching.{admitted, new_map}
use jackstay.Arena.Acquiring.{ArenaConsumer, is_closed}

pub data ReconfigurationStatus : Type 0 where
  ready : ℕ → ReconfigurationStatus
  paused_capacity : ℕ → ℕ → ReconfigurationStatus

-- `state & !1` for every resource: nothing of the old allocation can be acquired any more.
unfoldable pub retired_map : ResourceMap → ResourceMap
retired_map map = record map { state = λ index. retired_word (generation_of (map.state index)) }

module _ (env : Environment) where
  -- The epoch is bumped before anyone is woken; when it cannot be, the arena closes.
  unfoldable pub signal_reconfiguration :
      ArenaProducer → Outcome ArenaProducer ArenaError (Unit {0})
  signal_reconfiguration p = elim (checked_add64 p.control.reconfiguration_epoch 1) [
    | none ↦ (stop p, err generations_exhausted)
    | some epoch ↦
        let (m, result) = signal_all env p.incarnations reconfiguration_event in
        (
          record p {
            control = record p.control { reconfiguration_epoch = epoch };
            incarnations = m;
          },
          result,
        )
  ]

  -- The installed allocation is retired, and the layout of its successor becomes pending.
  unfoldable pub retire :
      ArenaProducer → ResourceMap → ResourceLayout → ℕ → Bool → AdmissionBook → ArenaProducer
  retire p old layout old_id native book = record p {
    admission = book;
    control = record p.control { current = 0; first_cursor = p.cursor + 1 };
    retired = p.retired ++ record { id = old_id; map = retired_map old; native = native } ∷ [];
    resources = none;
    pending_layout = some layout;
  }

  -- The book has accepted the replacement, or refused it.
  unfoldable pub begun :
      ArenaProducer
      → ResourceMap
      → ResourceLayout
      → ℕ
      → Bool
      → Outcome AdmissionBook AdmissionError (Unit {0})
      → Outcome ArenaProducer ArenaError (Unit {0})
  begun p old layout old_id native (book, err e) =
      (record p { admission = book }, err (admission e))
  begun p old layout old_id native (book, ok u) =
      signal_reconfiguration (retire p old layout old_id native book)

  -- `begin_reconfiguration` once the new layout is known.
  unfoldable pub begin_with :
      ArenaProducer
      → ResourceMap
      → ResourceLayout
      → ℕ
      → ℕ
      → Bool
      → Outcome ArenaProducer ArenaError (Unit {0})
  begin_with p old layout old_id external_bytes native =
      elim (checked_add64 (layout.len + layout.payload_len) external_bytes) [
        | none ↦ (p, err (configuration "replacement allocation byte total overflow"))
        | some bytes ↦ begun p old layout old_id native (begin_reconfiguration p.admission bytes)
      ]

  -- The two last cases are the code's `expect`s: with no replacement pending, an allocation is
  -- installed and charged.
  unfoldable pub begin_installed :
      ArenaProducer → ResourceMap → ℕ → ℕ → Bool → Outcome ArenaProducer ArenaError (Unit {0})
  begin_installed p old payload_capacity external_bytes native =
      elim (Layout.new env.page_size old.layout.resources old.layout.history payload_capacity) [
        | err e ↦ (p, err e)
        | ok layout ↦ elim p.admission.current_allocation [
          | none ↦ (p, err closed)
          | some old_id ↦ begin_with p old layout old_id external_bytes native
        ]
      ]

  -- `ArenaProducer::begin_reconfiguration`.
  unfoldable pub start : ArenaProducer → ℕ → ℕ → Bool → Outcome ArenaProducer ArenaError (Unit {0})
  start p payload_capacity external_bytes native =
      if not (p.control.terminal == 0)
      then (p, err closed)
      else if is_some p.pending_layout
      then (p, err (admission reconfiguration_pending))
      else elim p.resources [
        | none ↦ (p, err closed)
        | some old ↦ begin_installed p old payload_capacity external_bytes native
      ]

  -- The replacement is charged and installed, or given up.
  unfoldable pub installed_into :
      ArenaProducer
      → ResourceLayout
      → ℕ
      → Outcome AdmissionBook AdmissionError ℕ
      → Outcome ArenaProducer ArenaError ReconfigurationStatus
  installed_into p layout allocation (book, err e) =
      (record p { admission = (abandon_reconfiguration_allocation book).0 }, err (admission e))
  installed_into p layout allocation (book, ok id) = (
    record p {
      admission = book;
      resources = some (new_map layout allocation);
      pending_layout = none;
      next_slot = 0;
      control = record p.control { current = allocation };
    },
    ok (ready allocation),
  )

  -- The map and the external storage are there.
  unfoldable pub install :
      ArenaProducer
      → ResourceLayout
      → ℕ
      → ℕ
      → Outcome ArenaProducer ArenaError ReconfigurationStatus
  install p layout allocation external_bytes =
      elim (checked_add64 (layout.len + layout.payload_len) external_bytes) [
        | none ↦ (
          record p { admission = (abandon_reconfiguration_allocation p.admission).0 },
          err (admission invalid_allocation_size),
        )
        | some bytes ↦
            installed_into p layout allocation (install_reconfiguration p.admission bytes)
      ]

  -- The storage, and what the backend allocates beside it; a failure gives the reservation up.
  unfoldable pub allocate_reserved :
      ArenaProducer
      → ResourceLayout
      → ℕ
      → Result ArenaError ℕ
      → Outcome ArenaProducer ArenaError ReconfigurationStatus
  allocate_reserved p layout allocation external = elim (env.new_storage layout.len) [
    | err e ↦ (record p { admission = (abandon_reconfiguration_allocation p.admission).0 }, err e)
    | ok u ↦ elim external [
      | err e ↦ (record p { admission = (abandon_reconfiguration_allocation p.admission).0 }, err e)
      | ok external_bytes ↦ install p layout allocation external_bytes
    ]
  ]

  -- Too little memory is a pause, every other refusal an error.
  unfoldable pub reservation_failed :
      ArenaProducer → AdmissionError → Outcome ArenaProducer ArenaError ReconfigurationStatus
  reservation_failed p (insufficient_memory requested available) =
      (p, ok (paused_capacity requested available))
  reservation_failed p e = (p, err (admission e))

  unfoldable pub advance_reserved :
      ArenaProducer
      → ResourceLayout
      → Result ArenaError ℕ
      → Outcome AdmissionBook AdmissionError ℕ
      → Outcome ArenaProducer ArenaError ReconfigurationStatus
  advance_reserved p layout external (book, err e) =
      reservation_failed (record p { admission = book }) e
  advance_reserved p layout external (book, ok allocation) =
      allocate_reserved (record p { admission = book }) layout allocation external

  unfoldable pub advance_polled :
      Outcome ArenaProducer ArenaError ℕ
      → Result ArenaError ℕ
      → Outcome ArenaProducer ArenaError ReconfigurationStatus
  advance_polled (p, err e) external = (p, err e)
  advance_polled (p, ok released) external = elim p.pending_layout [
    | none ↦ (p, ok (ready p.control.current))
    | some layout ↦ advance_reserved p layout external (reserve_reconfiguration p.admission)
  ]

  unfoldable pub advance_with_allocation :
      ArenaProducer → Result ArenaError ℕ → Outcome ArenaProducer ArenaError ReconfigurationStatus
  advance_with_allocation p external =
      if not (p.control.terminal == 0)
      then (p, err closed)
      else advance_polled (poll_cleanup env p) external

  -- `advance_reconfiguration`: consumers are told only about an allocation that this call installs,
  -- that is, when a layout was pending and the advance is ready.
  unfoldable pub announced :
      Bool
      → Outcome ArenaProducer ArenaError ReconfigurationStatus
      → Outcome ArenaProducer ArenaError ReconfigurationStatus
  announced pending (p, err e) = (p, err e)
  announced pending (p, ok (paused_capacity requested available)) =
      (p, ok (paused_capacity requested available))
  announced pending (p, ok (ready generation)) =
      if pending
      then (
        (signal_reconfiguration p).0,
        elim (signal_reconfiguration p).1 [ ok u ↦ ok (ready generation) | err e ↦ err e ],
      )
      else (p, ok (ready generation))

  unfoldable pub advance_reconfiguration :
      ArenaProducer → Outcome ArenaProducer ArenaError ReconfigurationStatus
  advance_reconfiguration p =
      if p.native_resources
      then (p, err (configuration "native replacement requires its pool allocator"))
      else announced (is_some p.pending_layout) (advance_with_allocation p (ok 0))

  unfoldable pub advance_begun :
      Outcome ArenaProducer ArenaError (Unit {0})
      → Outcome ArenaProducer ArenaError ReconfigurationStatus
  advance_begun (p, err e) = (p, err e)
  advance_begun (p, ok u) = advance_reconfiguration p

  unfoldable pub reconfigure_cpu :
      ArenaProducer → ℕ → Outcome ArenaProducer ArenaError ReconfigurationStatus
  reconfigure_cpu p payload_capacity =
      if p.native_resources
      then (p, err (configuration "CPU reconfiguration cannot replace an external native pool"))
      else advance_begun (start p payload_capacity 0 false)

  unfoldable pub begin_native_reconfiguration :
      ArenaProducer → ℕ → Outcome ArenaProducer ArenaError (Unit {0})
  begin_native_reconfiguration p external_bytes =
      if not p.native_resources
      then (p, err (configuration "native replacement requires an external pool"))
      else start p 0 external_bytes true
