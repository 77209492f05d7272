-- ===== src/Admission/Replacement.antt =====
-- A replacement keeps the accounts balanced: each call of acquisition/allocation.rs keeps the
-- invariant of the admission book.
use jackstay.Base.{
  ℕ, ◌+◌, ◌-◌, ◌≤◌, ◌<◌, ◌≡◌, refl, false, Option, none, some, arith, u64_mod, Option-cases, inl,
  inr, sub64, add64, is_id, ◌||◌, Bool-cases,
}
use jackstay.Base.Dict.{
  Dict, lookup, insert, remove, Within-insert, Within-remove, Within-widen, Within-overwrite,
  lookup_high, lookup-insert, lookup-remove, total-insert_fresh, total-insert_present, total-remove,
}
use jackstay.Admission.{PendingAllocation, AdmissionBook}
use jackstay.Admission.Allocation.{
  begin_reconfiguration, reserve_bound, reserve_reconfiguration, install_reconfiguration,
  abandon_reconfiguration_allocation, complete_allocation_cleanup, charged, reserved_allocation,
}
use jackstay.Admission.Invariant.{IsValid, Staged, Reserved, bytes_of}

Reserved-remove :
    (upper id : ℕ) (r : Option ℕ) (m : Dict ℕ)
    → is_id r id ≡ false
    → Reserved upper r m
    → Reserved upper r (remove id m)
Reserved-remove upper id none m h s = tt
Reserved-remove upper id (some j) m h s = ground (arith, lookup-remove j id m)

-- What is current or reserved is another allocation than one that goes.
Staged-remove :
    (id : ℕ) (c : Option ℕ) (s : Option PendingAllocation) (m : Dict ℕ)
    → (is_id c id || is_id (reserved_allocation s) id) ≡ false
    → Staged c s m
    → Staged c s (remove id m)
Staged-remove id none none m h st = st
Staged-remove id none (some p) m h st = Reserved-remove p.upper_bound id p.reserved m h st
Staged-remove id (some j) none m h (bytes, st) = (bytes, ground (arith, lookup-remove j id m))
Staged-remove id (some j) (some p) m h st = st

module _ (b : AdmissionBook) (v : IsValid b) where
  begun :
      (upper : ℕ) (p : PendingAllocation)
      → p.reserved ≡ none
      → IsValid (record b { pending_allocation = some p; current_allocation = none })
  begun upper p e = record {
    word = v.word;
    first = v.first;
    next_word = v.next_word;
    next_allocation_word = v.next_allocation_word;
    capacity = v.capacity;
    frames = v.frames;
    bytes = v.bytes;
    budget = v.budget;
    count = v.count;
    incarnations = v.incarnations;
    allocated = v.allocated;
    staged = rw e tt;
  }

  pub begin_reconfiguration-IsValid : (upper : ℕ) → IsValid (begin_reconfiguration b upper).0
  unfolding begin_reconfiguration
  begin_reconfiguration-IsValid upper =
      ground (arith, begun upper (record { upper_bound = upper; reserved = none }) refl)

  fresh : lookup b.next_allocation b.allocations ≡ none
  fresh = lookup_high 1 b.next_allocation b.next_allocation b.allocations v.allocated (omega arith)

  reserved-IsValid :
      (p : PendingAllocation) (next : ℕ)
      → b.current_allocation ≡ none
      → p.upper_bound ≤ b.limits.memory_budget - b.committed_bytes
      → next ≡ b.next_allocation + 1
      → next < u64_mod
      → IsValid (record b {
        next_allocation = next;
        committed_bytes = add64 b.committed_bytes p.upper_bound;
        allocations = insert b.next_allocation p.upper_bound b.allocations;
        pending_allocation = some (record p { reserved = some b.next_allocation });
      })
  reserved-IsValid p next c hb e hn = record {
    word = v.word;
    first = omega arith;
    next_word = v.next_word;
    next_allocation_word = hn;
    capacity = v.capacity;
    frames = v.frames;
    bytes =
        omega
          (arith, total-insert_fresh bytes_of b.next_allocation p.upper_bound b.allocations fresh);
    budget = omega arith;
    count = v.count;
    incarnations = v.incarnations;
    allocated =
        Within-insert 1 next b.next_allocation p.upper_bound b.allocations (omega arith)
          (omega arith)
          (Within-widen 1 b.next_allocation 1 next b.allocations (omega arith) (omega arith)
            v.allocated);
    staged = rw c (
        ground
          (arith, lookup-insert b.next_allocation b.next_allocation p.upper_bound b.allocations));
  }

  pub reserve_bound-IsValid :
      (p : PendingAllocation) → b.current_allocation ≡ none → IsValid (reserve_bound b p).0
  unfolding reserve_bound
  reserve_bound-IsValid p c = ground (arith, reserved-IsValid p (b.next_allocation + 1) c)

  pub pending_not_current :
      (p : PendingAllocation) → b.pending_allocation ≡ some p → b.current_allocation ≡ none
  pending_not_current p e = ground (arith, v.staged)

  pub reserve_reconfiguration-IsValid : IsValid (reserve_reconfiguration b).0
  unfolding reserve_reconfiguration
  reserve_reconfiguration-IsValid = elim (Option-cases b.pending_allocation) [
    | inl e ↦ rw (e, reserve_reconfiguration) v
    | inr (p, e) ↦ elim (Option-cases p.reserved) [
      | inl f ↦
          rw (e, reserve_reconfiguration)
            (rw (f, reserve_reconfiguration) (reserve_bound-IsValid p (pending_not_current p e)))
      | inr (id, f) ↦ rw (e, reserve_reconfiguration) (rw (f, reserve_reconfiguration) v)
    ]
  ]

  charged_bound :
      (p : PendingAllocation) (id : ℕ)
      → b.pending_allocation ≡ some p
      → p.reserved ≡ some id
      → lookup id b.allocations ≡ some p.upper_bound
  charged_bound p id e f = ground (arith, v.staged)

  installed-IsValid :
      (p : PendingAllocation) (id actual : ℕ)
      → b.pending_allocation ≡ some p
      → p.reserved ≡ some id
      → actual ≤ p.upper_bound
      → IsValid (record b {
        committed_bytes = sub64 b.committed_bytes (sub64 p.upper_bound actual);
        allocations = insert id actual b.allocations;
        current_allocation = some id;
        pending_allocation = none;
      })
  installed-IsValid p id actual e f h =
      let here = charged_bound p id e f in
      let sum =
        total-insert_present bytes_of 1 b.next_allocation id actual p.upper_bound b.allocations
          v.allocated here in
      record {
        word = v.word;
        first = v.first;
        next_word = v.next_word;
        next_allocation_word = v.next_allocation_word;
        capacity = v.capacity;
        frames = v.frames;
        bytes = omega (arith, sum);
        budget = omega (arith, sum);
        count = v.count;
        incarnations = v.incarnations;
        allocated =
            Within-overwrite 1 b.next_allocation id actual p.upper_bound b.allocations v.allocated
              here;
        staged = (actual, ground (arith, lookup-insert id id actual b.allocations));
      }

  pub install_reconfiguration-IsValid : (actual : ℕ) → IsValid (install_reconfiguration b actual).0
  unfolding install_reconfiguration
  install_reconfiguration-IsValid actual = elim (Option-cases b.pending_allocation) [
    | inl e ↦ rw (e, install_reconfiguration) v
    | inr (p, e) ↦ elim (Option-cases p.reserved) [
      | inl f ↦ rw (e, install_reconfiguration) (rw (f, install_reconfiguration) v)
      | inr (id, f) ↦
          rw (e, install_reconfiguration)
            (rw (f, install_reconfiguration) (ground (arith, installed-IsValid p id actual e f)))
    ]
  ]

  removed-IsValid :
      (id bytes : ℕ) (s : Option PendingAllocation)
      → lookup id b.allocations ≡ some bytes
      → Staged b.current_allocation s (remove id b.allocations)
      → IsValid (record b {
        committed_bytes = sub64 b.committed_bytes bytes;
        allocations = remove id b.allocations;
        pending_allocation = s;
      })
  removed-IsValid id bytes s e st = record {
    word = v.word;
    first = v.first;
    next_word = v.next_word;
    next_allocation_word = v.next_allocation_word;
    capacity = v.capacity;
    frames = v.frames;
    bytes =
        omega
          (arith, total-remove bytes_of 1 b.next_allocation id bytes b.allocations v.allocated e);
    budget =
        omega
          (arith, total-remove bytes_of 1 b.next_allocation id bytes b.allocations v.allocated e);
    count = v.count;
    incarnations = v.incarnations;
    allocated = Within-remove 1 b.next_allocation id b.allocations v.allocated;
    staged = st;
  }

  pub abandon-IsValid : IsValid (abandon_reconfiguration_allocation b).0
  unfolding abandon_reconfiguration_allocation
  abandon-IsValid = elim (Option-cases b.pending_allocation) [
    | inl e ↦ rw (e, abandon_reconfiguration_allocation) v
    | inr (p, e) ↦ elim (Option-cases p.reserved) [
      | inl f ↦
          rw (e, abandon_reconfiguration_allocation) (rw (f, abandon_reconfiguration_allocation) v)
      | inr (id, f) ↦
          rw (e, abandon_reconfiguration_allocation)
            (rw (f, abandon_reconfiguration_allocation) (abandoned p id e f))
    ]
  ]
    where
      abandoned :
          (p : PendingAllocation) (id : ℕ)
          → b.pending_allocation ≡ some p
          → p.reserved ≡ some id
          → IsValid (record b {
            committed_bytes = sub64 b.committed_bytes (charged b id);
            allocations = remove id b.allocations;
            pending_allocation = some (record p { reserved = none });
          })
      abandoned p id e f =
          rw (charged_bound p id e f, charged)
            (removed-IsValid id p.upper_bound (some (record p { reserved = none }))
              (charged_bound p id e f) (rw (pending_not_current p e) tt))

  pub complete_allocation_cleanup-IsValid : (id : ℕ) → IsValid (complete_allocation_cleanup b id).0
  unfolding complete_allocation_cleanup
  complete_allocation_cleanup-IsValid id =
      elim (Bool-cases
        (is_id b.current_allocation id || is_id (reserved_allocation b.pending_allocation) id)) [
          | inl e ↦ rw (e, complete_allocation_cleanup) v
          | inr e ↦
              rw (e, complete_allocation_cleanup)
                (elim (Option-cases (lookup id b.allocations)) [
                  | inl f ↦ rw (f, complete_allocation_cleanup) v
                  | inr (bytes, f) ↦
                      rw (f, complete_allocation_cleanup)
                        (removed-IsValid id bytes b.pending_allocation f (
                          Staged-remove id b.current_allocation b.pending_allocation b.allocations e
                            v.staged))
                ])
        ]
