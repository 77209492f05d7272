-- ===== src/Admission.antt =====
-- The admission book of crates/jackstay/src/acquisition.rs: which consumers hold how much of the
-- frame resources and of the memory budget.
pub mod Allocation
pub mod Invariant
pub mod Replacement
pub mod Calls
pub mod Lifecycle
pub mod Cycle
mod Tests
use Prim.Native.String.{String}
use jackstay.Base.{
  ℕ, suc, ◌+◌, ◌-◌, Bool, true, false, ◌||◌, Option, none, some, List, [], ◌∷◌, ltb, leb, ◌==◌,
  if◌then◌else◌, is_some, length, add32, sub32, add64, sub64, checked_add32, checked_add64,
}
use jackstay.Base.Result.{Result, ok, err, Outcome, ◌>>=◌, ◌>>◌, ok_or, reject_if}
use jackstay.Base.Dict.{Dict, lookup, insert, remove}

pub record AdmissionLimits : Type 0 where
  pub resource_capacity : ℕ
  pub retained_history : ℕ
  pub producer_reserve : ℕ
  pub allocated_bytes : ℕ
  pub fixed_bytes : ℕ
  pub memory_budget : ℕ
  pub max_incarnations : ℕ

pub record HoldingRequest : Type 0 where
  pub frames : ℕ
  pub claim_bytes : ℕ

pub record HoldingReservation : Type 0 where
  pub incarnation : ℕ
  pub frames : ℕ
  pub claim_bytes : ℕ

-- `insufficient_resources` and `insufficient_memory` carry what was requested and what is left.
pub data AdmissionError : Type 0 where
  invalid_limits : String → AdmissionError
  invalid_request : AdmissionError
  insufficient_resources : ℕ → ℕ → AdmissionError
  insufficient_memory : ℕ → ℕ → AdmissionError
  incarnation_capacity ids_exhausted unknown_incarnation still_active : AdmissionError
  reconfiguration_pending no_reconfiguration allocation_not_reserved : AdmissionError
  unknown_allocation allocation_in_use invalid_allocation_size : AdmissionError

pub record IncarnationRecord : Type 0 where
  pub reservation : HoldingReservation
  pub closing : Bool

pub record PendingAllocation : Type 0 where
  pub upper_bound : ℕ
  pub reserved : Option ℕ

pub record AdmissionBook : Type 0 where
  pub limits : AdmissionLimits
  pub next_incarnation : ℕ
  pub reservations : Dict IncarnationRecord
  pub reserved_frames : ℕ
  pub committed_bytes : ℕ
  pub allocations : Dict ℕ
  pub current_allocation : Option ℕ
  pub next_allocation : ℕ
  pub pending_allocation : Option PendingAllocation

unfoldable pub initial : AdmissionLimits → ℕ → AdmissionBook
initial limits committed = record {
  limits = limits;
  next_incarnation = 1;
  reservations = [];
  reserved_frames = 0;
  committed_bytes = committed;
  allocations = (1, limits.allocated_bytes) ∷ [];
  current_allocation = some 1;
  next_allocation = 2;
  pending_allocation = none;
}

unfoldable pub new : AdmissionLimits → Result AdmissionError AdmissionBook
unfolding initial
new limits = do
  protected ←
      ok_or (checked_add32 limits.retained_history limits.producer_reserve)
        (invalid_limits "history and producer reserve overflow")
  reject_if (limits.producer_reserve == 0 || ltb limits.resource_capacity protected)
      (invalid_limits "resource capacity must cover history and a nonzero producer reserve")
  committed ←
      ok_or (checked_add64 limits.allocated_bytes limits.fixed_bytes)
        (invalid_limits "initial allocation byte total overflows")
  reject_if (ltb limits.memory_budget committed)
      (invalid_limits "existing allocation exceeds the memory budget")
  reject_if (limits.max_incarnations == 0) (invalid_limits "incarnation capacity must be nonzero")
  ok (initial limits committed)

unfoldable pub available_frames : AdmissionBook → ℕ
available_frames b =
    sub32 (sub32 (sub32 l.resource_capacity l.retained_history) l.producer_reserve)
      b.reserved_frames
  where
    open b use {limits as l}

-- The last step of `admit`, once the next identity is known to exist.
unfoldable pub grant : AdmissionBook → HoldingRequest → ℕ → AdmissionBook × HoldingReservation
grant b request next = (
  record b {
    next_incarnation = next;
    reserved_frames = add32 b.reserved_frames request.frames;
    committed_bytes = add64 b.committed_bytes request.claim_bytes;
    reservations =
        insert b.next_incarnation (record { reservation = reservation; closing = false })
          b.reservations;
  },
  reservation,
)
  where
    reservation : HoldingReservation
    reservation = record {
      incarnation = b.next_incarnation;
      frames = request.frames;
      claim_bytes = request.claim_bytes;
    }

unfoldable pub admit :
    AdmissionBook → HoldingRequest → Outcome AdmissionBook AdmissionError HoldingReservation
unfolding grant
admit b request =
    let frames = available_frames b in
    let bytes = sub64 b.limits.memory_budget b.committed_bytes in
    if is_some b.pending_allocation
    then (b, err reconfiguration_pending)
    else if request.frames == 0 || request.claim_bytes == 0
    then (b, err invalid_request)
    else if ltb frames request.frames
    then (b, err (insufficient_resources request.frames frames))
    else if leb b.limits.max_incarnations (length b.reservations)
    then (b, err incarnation_capacity)
    else if ltb bytes request.claim_bytes
    then (b, err (insufficient_memory request.claim_bytes bytes))
    else elim (checked_add64 b.next_incarnation 1) [
      | none ↦ (b, err ids_exhausted)
      | some next ↦ let (b', reservation) = grant b request next in (b', ok reservation)
    ]

unfoldable pub close : AdmissionBook → ℕ → Outcome AdmissionBook AdmissionError (Unit {0})
close b incarnation = elim (lookup incarnation b.reservations) [
  | none ↦ (b, err unknown_incarnation)
  | some r ↦ (
    record b { reservations = insert incarnation (record r { closing = true }) b.reservations },
    ok tt,
  )
]

unfoldable pub complete_cleanup :
    AdmissionBook → ℕ → Outcome AdmissionBook AdmissionError (Unit {0})
complete_cleanup b incarnation = elim (lookup incarnation b.reservations) [
  | none ↦ (b, err unknown_incarnation)
  | some r ↦
      if r.closing
      then (
        record b {
          reservations = remove incarnation b.reservations;
          reserved_frames = sub32 b.reserved_frames r.reservation.frames;
          committed_bytes = sub64 b.committed_bytes r.reservation.claim_bytes;
        },
        ok tt,
      )
      else (b, err still_active)
]
