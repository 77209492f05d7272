-- ===== src/Admission/Calls.antt =====
-- Histories of calls on one admission book.
use jackstay.Base.{ℕ, ◌+◌, ◌≤◌, ◌<◌, ◌≡◌, Option, none, some, List, [], ◌∷◌, arith}
use jackstay.Base.Result.{Result, ok, err}
use jackstay.Admission.{
  AdmissionLimits, HoldingRequest, HoldingReservation, AdmissionBook, AdmissionError, new, admit,
  close, complete_cleanup, grant,
}
use jackstay.Admission.Allocation.{
  begin_reconfiguration, reserve_reconfiguration, install_reconfiguration, reserve_bound,
  abandon_reconfiguration_allocation, complete_allocation_cleanup,
}
use jackstay.Admission.Invariant.{
  IsWord, IsValid, new-IsValid, admit-IsValid, close-IsValid, complete_cleanup-IsValid,
}
use jackstay.Admission.Replacement.{
  begin_reconfiguration-IsValid, reserve_reconfiguration-IsValid, install_reconfiguration-IsValid,
  abandon-IsValid, complete_allocation_cleanup-IsValid,
}

-- The methods that take `&mut self`.
pub data Call : Type 0 where
  admits : HoldingRequest → Call
  closes cleans begins installs retires : ℕ → Call
  reserves abandons : Call

-- The error of a result, if it is one.
abbrev pub failure {ℓ κ} : {E : Type ℓ} {A : Type κ} → Result E A → Option E
failure (ok a) = none
failure (err e) = some e

unfoldable pub step : AdmissionBook → Call → AdmissionBook × Option AdmissionError
step b (admits r) = let (b', result) = admit b r in (b', failure result)
step b (closes id) = let (b', result) = close b id in (b', failure result)
step b (cleans id) = let (b', result) = complete_cleanup b id in (b', failure result)
step b (begins upper) = let (b', result) = begin_reconfiguration b upper in (b', failure result)
step b (installs actual) =
    let (b', result) = install_reconfiguration b actual in (b', failure result)
step b (retires id) = let (b', result) = complete_allocation_cleanup b id in (b', failure result)
step b reserves = let (b', result) = reserve_reconfiguration b in (b', failure result)
step b abandons = let (b', result) = abandon_reconfiguration_allocation b in (b', failure result)

unfoldable pub run : AdmissionBook → List Call → AdmissionBook
run b [] = b
run b (c ∷ cs) = run (step b c).0 cs

pub step-IsValid : (b : AdmissionBook) (c : Call) → IsValid b → IsValid (step b c).0
unfolding step
step-IsValid b (admits r) v = admit-IsValid b v r
step-IsValid b (closes id) v = close-IsValid b v id
step-IsValid b (cleans id) v = complete_cleanup-IsValid b v id
step-IsValid b (begins upper) v = begin_reconfiguration-IsValid b v upper
step-IsValid b (installs actual) v = install_reconfiguration-IsValid b v actual
step-IsValid b (retires id) v = complete_allocation_cleanup-IsValid b v id
step-IsValid b reserves v = reserve_reconfiguration-IsValid b v
step-IsValid b abandons v = abandon-IsValid b v

pub run-IsValid : (b : AdmissionBook) (cs : List Call) → IsValid b → IsValid (run b cs)
unfolding run
run-IsValid b [] v = v
run-IsValid b (c ∷ cs) v = run-IsValid (step b c).0 cs (step-IsValid b c v)

-- A book that `new` accepts, at limits of the declared widths, stays valid through every history of
-- calls: the frames reserved are those of the incarnations on record and leave history and producer
-- reserve free, the bytes committed are the fixed ones, the claims and the allocations and stay
-- within the budget, and the current or reserved allocation is charged.
pub run-new-IsValid :
    (l : AdmissionLimits) (b : AdmissionBook) (cs : List Call)
    → IsWord l
    → new l ≡ ok b
    → IsValid (run b cs)
run-new-IsValid l b cs w h = run-IsValid b cs (new-IsValid l w h)

-- A call that returns an error leaves the book as it was.
pub step_refused :
    (b : AdmissionBook) (c : Call) {e : AdmissionError} → (step b c).1 ≡ some e → (step b c).0 ≡ b
unfolding step admit grant close complete_cleanup begin_reconfiguration install_reconfiguration
    complete_allocation_cleanup reserve_reconfiguration reserve_bound
    abandon_reconfiguration_allocation
step_refused b (admits r) h = ground arith
step_refused b (closes id) h = ground arith
step_refused b (cleans id) h = ground arith
step_refused b (begins upper) h = ground arith
step_refused b (installs actual) h = ground arith
step_refused b (retires id) h = ground arith
step_refused b reserves h = ground arith
step_refused b abandons h = ground arith

-- The next identities never go down.
step_identities :
    (b : AdmissionBook) (c : Call)
    → (b.next_incarnation ≤ (step b c).0.next_incarnation)
      × (b.next_allocation ≤ (step b c).0.next_allocation)
unfolding step admit grant close complete_cleanup begin_reconfiguration install_reconfiguration
    complete_allocation_cleanup reserve_reconfiguration reserve_bound
    abandon_reconfiguration_allocation
step_identities b (admits r) = ground arith
step_identities b (closes id) = ground arith
step_identities b (cleans id) = ground arith
step_identities b (begins upper) = ground arith
step_identities b (installs actual) = ground arith
step_identities b (retires id) = ground arith
step_identities b reserves = ground arith
step_identities b abandons = ground arith

run_identities :
    (b : AdmissionBook) (cs : List Call)
    → (b.next_incarnation ≤ (run b cs).next_incarnation)
      × (b.next_allocation ≤ (run b cs).next_allocation)
unfolding run
run_identities b [] = omega arith
run_identities b (c ∷ cs) = omega (arith, step_identities b c, run_identities (step b c).0 cs)

granted :
    (b b' : AdmissionBook) (r : HoldingRequest) (g : HoldingReservation)
    → admit b r ≡ (b', ok g)
    → (g.incarnation ≡ b.next_incarnation) × (b'.next_incarnation ≡ b.next_incarnation + 1)
unfolding admit grant
granted b b' r g h = ground arith

-- No incarnation identity is granted twice, whatever is called between the two admissions.
pub admit-fresh :
    (b b₁ b₂ : AdmissionBook) (r₁ r₂ : HoldingRequest) (g₁ g₂ : HoldingReservation) (cs : List Call)
    → admit b r₁ ≡ (b₁, ok g₁)
    → admit (run b₁ cs) r₂ ≡ (b₂, ok g₂)
    → g₁.incarnation < g₂.incarnation
admit-fresh b b₁ b₂ r₁ r₂ g₁ g₂ cs h k =
    omega (arith, granted b b₁ r₁ g₁ h, run_identities b₁ cs, granted (run b₁ cs) b₂ r₂ g₂ k)
