-- ===== src/Admission/Invariant.antt =====
-- The accounts of the admission book balance, and no `u32` or `u64` of it wraps.
use jackstay.Base.{
  ℕ, ◌+◌, ◌-◌, ◌≤◌, ◌<◌, ◌≡◌, refl, true, false, Option, none, some, arith, sub32, sub64, length,
  u32_mod, u64_mod, Option-cases, inl, inr,
}
use jackstay.Base.Result.{ok}
use jackstay.Base.Dict.{
  Dict, lookup, insert, remove, total, Within, Within-insert, Within-remove, Within-widen,
  Within-overwrite, lookup_high, total-insert_fresh, total-insert_present, total-remove,
  length-insert_fresh, length-insert_present, length-remove-le,
}
use jackstay.Admission.{
  AdmissionLimits, HoldingRequest, IncarnationRecord, PendingAllocation, AdmissionBook, initial,
  grant, new, admit, close, complete_cleanup, available_frames,
}

abbrev pub frames_of : IncarnationRecord → ℕ
frames_of r = r.reservation.frames

abbrev pub claim_of : IncarnationRecord → ℕ
claim_of r = r.reservation.claim_bytes

abbrev pub bytes_of : ℕ → ℕ
bytes_of bytes = bytes

-- Every limit is a word of its declared width.
pub record IsWord (l : AdmissionLimits) : Type 0 where
  pub capacity_word : l.resource_capacity < u32_mod
  pub budget_word : l.memory_budget < u64_mod

-- What a replacement in progress has reserved is charged at its upper bound.
abbrev pub Reserved : ℕ → Option ℕ → Dict ℕ → Type 0
Reserved upper none m = Unit {0}
Reserved upper (some id) m = lookup id m ≡ some upper

-- Either an allocation is current and charged, or a replacement is pending: never both.
abbrev pub Staged : Option ℕ → Option PendingAllocation → Dict ℕ → Type 0
Staged none none m = ⊥
Staged (some id) none m = (bytes : ℕ) × (lookup id m ≡ some bytes)
Staged (some id) (some p) m = ⊥
Staged none (some p) m = Reserved p.upper_bound p.reserved m

pub record IsValid (b : AdmissionBook) : Type 0 where
  pub word : IsWord b.limits
  pub first : (1 ≤ b.next_incarnation) × (1 ≤ b.next_allocation)
  pub next_word : b.next_incarnation < u64_mod
  pub next_allocation_word : b.next_allocation < u64_mod
  pub capacity :
      b.limits.retained_history + b.limits.producer_reserve + b.reserved_frames
      ≤ b.limits.resource_capacity
  pub frames : b.reserved_frames ≡ total frames_of b.reservations
  pub bytes :
      b.committed_bytes
      ≡ b.limits.fixed_bytes + total claim_of b.reservations + total bytes_of b.allocations
  pub budget : b.committed_bytes ≤ b.limits.memory_budget
  pub count : length b.reservations ≤ b.limits.max_incarnations
  pub incarnations : Within 1 b.next_incarnation b.reservations
  pub allocated : Within 1 b.next_allocation b.allocations
  pub staged : Staged b.current_allocation b.pending_allocation b.allocations

initial-IsValid :
    (l : AdmissionLimits)
    → IsWord l
    → l.retained_history + l.producer_reserve ≤ l.resource_capacity
    → l.allocated_bytes + l.fixed_bytes ≤ l.memory_budget
    → IsValid (initial l (l.allocated_bytes + l.fixed_bytes))
unfolding initial total lookup
initial-IsValid l w h k = record {
  word = w;
  first = omega arith;
  next_word = omega arith;
  next_allocation_word = omega arith;
  capacity = omega arith;
  frames = refl;
  bytes = omega arith;
  budget = k;
  count = omega arith;
  incarnations = tt;
  allocated = (omega arith, omega arith, tt);
  staged = (l.allocated_bytes, refl);
}

-- What `new` accepts starts out valid.
pub new-IsValid : (l : AdmissionLimits) {b : AdmissionBook} → IsWord l → new l ≡ ok b → IsValid b
unfolding new
new-IsValid l {b} w h = ground (arith, initial-IsValid l w)

module _ (b : AdmissionBook) (v : IsValid b) where
  pub available_frames-exact :
      available_frames b
      ≡ b.limits.resource_capacity - b.limits.retained_history - b.limits.producer_reserve
        - b.reserved_frames
  unfolding available_frames
  available_frames-exact = omega arith

  pub grant-IsValid :
      (r : HoldingRequest) (next : ℕ)
      → r.frames ≤ available_frames b
      → length b.reservations < b.limits.max_incarnations
      → r.claim_bytes ≤ b.limits.memory_budget - b.committed_bytes
      → next ≡ b.next_incarnation + 1
      → next < u64_mod
      → IsValid (grant b r next).0
  unfolding grant
  grant-IsValid r next hf hl hb e hn = record {
    word = v.word;
    first = omega arith;
    next_word = hn;
    next_allocation_word = v.next_allocation_word;
    capacity = omega (arith, available_frames-exact, roomy);
    frames =
        omega (
          arith,
          roomy,
          total-insert_fresh frames_of b.next_incarnation entry b.reservations fresh,
        );
    bytes =
        omega (arith, total-insert_fresh claim_of b.next_incarnation entry b.reservations fresh);
    budget = omega arith;
    count = omega (arith, length-insert_fresh b.next_incarnation entry b.reservations fresh);
    incarnations =
        Within-insert 1 next b.next_incarnation entry b.reservations (omega arith) (omega arith) (
          Within-widen 1 b.next_incarnation 1 next b.reservations (omega arith) (omega arith)
            v.incarnations);
    allocated = v.allocated;
    staged = v.staged;
  }
    where
      entry : IncarnationRecord
      entry = record {
        reservation = record {
          incarnation = b.next_incarnation;
          frames = r.frames;
          claim_bytes = r.claim_bytes;
        };
        closing = false;
      }

      fresh : lookup b.next_incarnation b.reservations ≡ none
      fresh =
          lookup_high 1 b.next_incarnation b.next_incarnation b.reservations v.incarnations
            (omega arith)

      roomy :
          b.limits.retained_history + b.limits.producer_reserve + b.reserved_frames + r.frames
          ≤ b.limits.resource_capacity
      roomy = omega (arith, available_frames-exact)

  pub admit-IsValid : (r : HoldingRequest) → IsValid (admit b r).0
  unfolding admit
  admit-IsValid r = ground (arith, grant-IsValid r (b.next_incarnation + 1))

  pub close-IsValid : (id : ℕ) → IsValid (close b id).0
  unfolding close
  close-IsValid id = elim (Option-cases (lookup id b.reservations)) [
    | inl e ↦ rw (e, close) v
    | inr (r, e) ↦ rw (e, close) (closed r e)
  ]
    where
      closed :
          (r : IncarnationRecord)
          → lookup id b.reservations ≡ some r
          → IsValid
              (record b { reservations = insert id (record r { closing = true }) b.reservations })
      closed r e =
          let r' : IncarnationRecord = record r { closing = true } in
          let m : Dict IncarnationRecord = b.reservations in
          record {
            word = v.word;
            first = v.first;
            next_word = v.next_word;
            next_allocation_word = v.next_allocation_word;
            capacity = v.capacity;
            frames = omega (
              arith,
              total-insert_present frames_of 1 b.next_incarnation id r' r m v.incarnations e,
            );
            bytes = omega (
              arith,
              total-insert_present claim_of 1 b.next_incarnation id r' r m v.incarnations e,
            );
            budget = v.budget;
            count =
                omega
                  (arith, length-insert_present 1 b.next_incarnation id r' r m v.incarnations e);
            incarnations = Within-overwrite 1 b.next_incarnation id r' r m v.incarnations e;
            allocated = v.allocated;
            staged = v.staged;
          }

  pub complete_cleanup-IsValid : (id : ℕ) → IsValid (complete_cleanup b id).0
  unfolding complete_cleanup
  complete_cleanup-IsValid id = elim (Option-cases (lookup id b.reservations)) [
    | inl e ↦ rw (e, complete_cleanup) v
    | inr (r, e) ↦ rw (e, complete_cleanup) (ground (arith, removed r e))
  ]
    where
      removed :
          (r : IncarnationRecord)
          → lookup id b.reservations ≡ some r
          → IsValid (record b {
            reservations = remove id b.reservations;
            reserved_frames = sub32 b.reserved_frames r.reservation.frames;
            committed_bytes = sub64 b.committed_bytes r.reservation.claim_bytes;
          })
      removed r e =
          let m : Dict IncarnationRecord = b.reservations in
          record {
            word = v.word;
            first = v.first;
            next_word = v.next_word;
            next_allocation_word = v.next_allocation_word;
            capacity =
                omega (arith, total-remove frames_of 1 b.next_incarnation id r m v.incarnations e);
            frames =
                omega (arith, total-remove frames_of 1 b.next_incarnation id r m v.incarnations e);
            bytes =
                omega (arith, total-remove claim_of 1 b.next_incarnation id r m v.incarnations e);
            budget =
                omega (arith, total-remove claim_of 1 b.next_incarnation id r m v.incarnations e);
            count = omega (arith, length-remove-le id m);
            incarnations = Within-remove 1 b.next_incarnation id m v.incarnations;
            allocated = v.allocated;
            staged = v.staged;
          }
