-- ===== src/Admission/Allocation.antt =====
-- The allocation accounting of crates/jackstay/src/acquisition/allocation.rs: one resource
-- allocation is replaced by another while the old one drains.
use jackstay.Base.{
  ℕ, ◌%◌, ◌||◌, Option, none, some, ltb, ◌==◌, if◌then◌else◌, is_some, is_id, add64, sub64,
  checked_add64, u64_mod,
}
use jackstay.Base.Result.{ok, err, Outcome}
use jackstay.Base.Dict.{lookup, insert, remove, total}
use jackstay.Admission.{
  AdmissionBook, AdmissionError, PendingAllocation, reconfiguration_pending, no_reconfiguration,
  invalid_allocation_size, insufficient_memory, ids_exhausted, allocation_not_reserved,
  allocation_in_use, unknown_allocation,
}

-- `allocations.values().sum()`, which wraps as the additions do.
abbrev pub resource_bytes : AdmissionBook → ℕ
resource_bytes b = total (λ bytes. bytes) b.allocations % u64_mod

unfoldable pub begin_reconfiguration :
    AdmissionBook → ℕ → Outcome AdmissionBook AdmissionError (Unit {0})
begin_reconfiguration b upper_bound =
    let nonresource = sub64 b.committed_bytes (resource_bytes b) in
    let available = sub64 b.limits.memory_budget nonresource in
    if is_some b.pending_allocation
    then (b, err reconfiguration_pending)
    else if upper_bound == 0
    then (b, err invalid_allocation_size)
    else if ltb available upper_bound
    then (b, err (insufficient_memory upper_bound available))
    else elim (checked_add64 b.next_allocation 1) [
      | none ↦ (b, err ids_exhausted)
      | some next ↦ (
        record b {
          pending_allocation = some (record { upper_bound = upper_bound; reserved = none });
          current_allocation = none;
        },
        ok tt,
      )
    ]

-- `reserve_reconfiguration` for a proposal with nothing reserved yet.
unfoldable pub reserve_bound :
    AdmissionBook → PendingAllocation → Outcome AdmissionBook AdmissionError ℕ
reserve_bound b pending =
    let available = sub64 b.limits.memory_budget b.committed_bytes in
    if ltb available pending.upper_bound
    then (b, err (insufficient_memory pending.upper_bound available))
    else elim (checked_add64 b.next_allocation 1) [
      | none ↦ (b, err ids_exhausted)
      | some next ↦ (
        record b {
          next_allocation = next;
          committed_bytes = add64 b.committed_bytes pending.upper_bound;
          allocations = insert b.next_allocation pending.upper_bound b.allocations;
          pending_allocation = some (record pending { reserved = some b.next_allocation });
        },
        ok b.next_allocation,
      )
    ]

unfoldable pub reserve_reconfiguration : AdmissionBook → Outcome AdmissionBook AdmissionError ℕ
unfolding reserve_bound
reserve_reconfiguration b = elim b.pending_allocation [
  | none ↦ (b, err no_reconfiguration)
  | some pending ↦ elim pending.reserved [ some id ↦ (b, ok id) | none ↦ reserve_bound b pending ]
]

unfoldable pub install_reconfiguration : AdmissionBook → ℕ → Outcome AdmissionBook AdmissionError ℕ
install_reconfiguration b actual = elim b.pending_allocation [
  | none ↦ (b, err no_reconfiguration)
  | some pending ↦ elim pending.reserved [
    | none ↦ (b, err allocation_not_reserved)
    | some id ↦
        if actual == 0 || ltb pending.upper_bound actual
        then (b, err invalid_allocation_size)
        else (
          record b {
            committed_bytes = sub64 b.committed_bytes (sub64 pending.upper_bound actual);
            allocations = insert id actual b.allocations;
            current_allocation = some id;
            pending_allocation = none;
          },
          ok id,
        )
  ]
]

-- `remove(&id).expect(..)` panics on a missing entry; `Invariant.IsValid` rules that out, and here
-- such an entry counts nothing.
abbrev pub charged : AdmissionBook → ℕ → ℕ
charged b id = elim (lookup id b.allocations) [ none ↦ 0 | some bytes ↦ bytes ]

unfoldable pub abandon_reconfiguration_allocation :
    AdmissionBook → Outcome AdmissionBook AdmissionError (Unit {0})
abandon_reconfiguration_allocation b = elim b.pending_allocation [
  | none ↦ (b, err no_reconfiguration)
  | some pending ↦ elim pending.reserved [
    | none ↦ (b, err allocation_not_reserved)
    | some id ↦ (
      record b {
        committed_bytes = sub64 b.committed_bytes (charged b id);
        allocations = remove id b.allocations;
        pending_allocation = some (record pending { reserved = none });
      },
      ok tt,
    )
  ]
]

-- `pending_allocation.as_ref().and_then(|pending| pending.reserved)`.
abbrev pub reserved_allocation : Option PendingAllocation → Option ℕ
reserved_allocation none = none
reserved_allocation (some pending) = pending.reserved

unfoldable pub complete_allocation_cleanup :
    AdmissionBook → ℕ → Outcome AdmissionBook AdmissionError (Unit {0})
complete_allocation_cleanup b id =
    if is_id b.current_allocation id || is_id (reserved_allocation b.pending_allocation) id
    then (b, err allocation_in_use)
    else elim (lookup id b.allocations) [
      | none ↦ (b, err unknown_allocation)
      | some bytes ↦ (
        record b {
          committed_bytes = sub64 b.committed_bytes bytes;
          allocations = remove id b.allocations;
        },
        ok tt,
      )
    ]
