-- ===== src/Admission/Cycle.antt =====
-- One replacement of the resource allocation from beginning to end, as the arena drives it
-- (crates/jackstay/src/acquisition/allocation.rs).
use jackstay.Base.{ℕ, ◌+◌, ◌≤◌, ◌≡◌, none, some, arith, add64}
use jackstay.Base.Result.{ok}
use jackstay.Base.Dict.{
  lookup, insert, lookup-insert, lookup-remove, lookup-insert_self, remove-insert_fresh,
  insert_twice, lookup_high, Within-lookup, total-remove,
}
use jackstay.Admission.{AdmissionBook}
use jackstay.Admission.Allocation.{
  begin_reconfiguration, reserve_reconfiguration, install_reconfiguration, reserve_bound,
  abandon_reconfiguration_allocation, complete_allocation_cleanup, charged,
}
use jackstay.Admission.Invariant.{IsValid, bytes_of}

module _ (b : AdmissionBook) (v : IsValid b) (upper : ℕ) where
  begun :
      {b₁ : AdmissionBook}
      → begin_reconfiguration b upper ≡ (b₁, ok tt)
      → b₁ ≡ record b {
        pending_allocation = some (record { upper_bound = upper; reserved = none });
        current_allocation = none;
      }
  unfolding begin_reconfiguration
  begun h = ground arith

  abbrev pending_book : AdmissionBook
  pending_book = record b {
    pending_allocation = some (record { upper_bound = upper; reserved = none });
    current_allocation = none;
  }

  abbrev reserved_book : AdmissionBook
  reserved_book = record b {
    next_allocation = b.next_allocation + 1;
    committed_bytes = add64 b.committed_bytes upper;
    allocations = insert b.next_allocation upper b.allocations;
    pending_allocation = some (record { upper_bound = upper; reserved = some b.next_allocation });
    current_allocation = none;
  }

  reserved :
      {b₂ : AdmissionBook} {id : ℕ}
      → reserve_reconfiguration pending_book ≡ (b₂, ok id)
      → (b₂ ≡ reserved_book)
        × (id ≡ b.next_allocation)
        × (b.committed_bytes + upper ≤ b.limits.memory_budget)
  unfolding reserve_reconfiguration reserve_bound
  reserved h = ground arith

  fresh : lookup b.next_allocation b.allocations ≡ none
  fresh = lookup_high 1 b.next_allocation b.next_allocation b.allocations v.allocated (omega arith)

  abandoned :
      b.committed_bytes + upper ≤ b.limits.memory_budget
      → abandon_reconfiguration_allocation reserved_book
        ≡ (record pending_book { next_allocation = b.next_allocation + 1 }, ok tt)
  unfolding abandon_reconfiguration_allocation
  abandoned h =
      rw
        (
          lookup-insert_self,
          charged,
          remove-insert_fresh b.next_allocation upper b.allocations fresh,
        )
        (ground arith)

  -- A reservation that is abandoned gives its bytes back: on a valid book, after a proposal and its
  -- reservation, `abandon_reconfiguration_allocation` succeeds and leaves the book as the proposal
  -- left it, but for the allocation identity, which is spent.
  pub abandon-reserve :
      {b₁ b₂ : AdmissionBook} {id : ℕ}
      → begin_reconfiguration b upper ≡ (b₁, ok tt)
      → reserve_reconfiguration b₁ ≡ (b₂, ok id)
      → abandon_reconfiguration_allocation b₂
        ≡ (record b₁ { next_allocation = b₁.next_allocation + 1 }, ok tt)
  abandon-reserve {b₁} {b₂} {id} h k =
      let r = reserved (rw (begun h) at k) in rw (r.0, begun h) (abandoned r.2)

  abbrev installed_book : ℕ → AdmissionBook
  installed_book actual = record b {
    next_allocation = b.next_allocation + 1;
    committed_bytes = b.committed_bytes + actual;
    allocations = insert b.next_allocation actual b.allocations;
    pending_allocation = none;
    current_allocation = some b.next_allocation;
  }

  installed :
      (actual : ℕ) {b₃ : AdmissionBook} {id : ℕ}
      → b.committed_bytes + upper ≤ b.limits.memory_budget
      → install_reconfiguration reserved_book actual ≡ (b₃, ok id)
      → (b₃ ≡ installed_book actual) × (actual ≤ upper)
  unfolding install_reconfiguration
  installed actual le h = ground (arith, insert_twice b.next_allocation actual upper b.allocations)

  retired :
      (actual old bytes : ℕ)
      → lookup old b.allocations ≡ some bytes
      → b.committed_bytes + actual ≤ b.limits.memory_budget
      → let (b₄, cleaned) = complete_allocation_cleanup (installed_book actual) old in
        (cleaned ≡ ok tt)
        × (b₄.current_allocation ≡ some b.next_allocation)
        × (lookup b.next_allocation b₄.allocations ≡ some actual)
        × (lookup old b₄.allocations ≡ none)
        × (b₄.committed_bytes + bytes ≡ b.committed_bytes + actual)
  unfolding complete_allocation_cleanup
  retired actual old bytes here le = ground (
    arith,
    Within-lookup 1 b.next_allocation old bytes b.allocations v.allocated here,
    total-remove bytes_of 1 b.next_allocation old bytes b.allocations v.allocated here,
    lookup-insert old b.next_allocation actual b.allocations,
    lookup-insert_self b.next_allocation actual b.allocations,
    lookup-remove b.next_allocation old (insert b.next_allocation actual b.allocations),
    lookup-remove old old (insert b.next_allocation actual b.allocations),
  )

  -- A replacement swaps the bytes of the old allocation for those of the new one: on a valid book
  -- with an old allocation on its account, once a proposal, its reservation and its installation
  -- have succeeded, the cleanup of the old allocation succeeds; then the new one is current and
  -- charged at its actual size, the old one is gone, and the committed bytes have changed by the
  -- difference.
  pub replacement_lem :
      {b₁ b₂ b₃ : AdmissionBook} {id new_id : ℕ} (actual old bytes : ℕ)
      → lookup old b.allocations ≡ some bytes
      → begin_reconfiguration b upper ≡ (b₁, ok tt)
      → reserve_reconfiguration b₁ ≡ (b₂, ok id)
      → install_reconfiguration b₂ actual ≡ (b₃, ok new_id)
      → let (b₄, cleaned) = complete_allocation_cleanup b₃ old in
        (cleaned ≡ ok tt)
        × (b₄.current_allocation ≡ some id)
        × (lookup id b₄.allocations ≡ some actual)
        × (lookup old b₄.allocations ≡ none)
        × (b₄.committed_bytes + bytes ≡ b.committed_bytes + actual)
  replacement_lem {b₁} {b₂} {b₃} {id} {new_id} actual old bytes here h k i =
      let r = reserved (rw (begun h) at k) in
      let s = installed actual r.2 (rw (r.0) at i) in
      rw (s.0, r.1) (retired actual old bytes here (omega arith))
