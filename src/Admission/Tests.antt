-- ===== src/Admission/Tests.antt =====
-- A producer with eight resources and two consumers: runs of the admission book.
use jackstay.Base.{◌↔◌, ◌+◌, ◌≡◌, ◌<◌, refl, false, none, some, List, [], ◌∷◌, arith}
use jackstay.Base.Result.{ok}
use jackstay.Base.Dict.{lookup, insert, remove, total}
use jackstay.Admission.{
  AdmissionLimits, HoldingRequest, AdmissionBook, new, initial, admit, grant, close,
  complete_cleanup, available_frames, insufficient_resources, unknown_incarnation,
}
use jackstay.Admission.Allocation.{
  begin_reconfiguration, reserve_reconfiguration, install_reconfiguration, reserve_bound,
  complete_allocation_cleanup, abandon_reconfiguration_allocation,
}
use jackstay.Admission.Invariant.{IsWord, IsValid, new-IsValid}
use jackstay.Admission.Calls.{
  Call, admits, closes, cleans, begins, installs, retires, reserves, step, run, run-new-IsValid,
  step_refused, admit-fresh,
}
use jackstay.Admission.Lifecycle.{Fits, admit_iff, reservation_for, complete_cleanup-close-admit}
use jackstay.Admission.Cycle.{abandon-reserve, replacement_lem}

abbrev limits : AdmissionLimits
limits = record {
  resource_capacity = 8;
  retained_history = 3;
  producer_reserve = 1;
  allocated_bytes = 100;
  fixed_bytes = 20;
  memory_budget = 1000;
  max_incarnations = 2;
}

abbrev book : AdmissionBook
book = record {
  limits = limits;
  next_incarnation = 1;
  reservations = [];
  reserved_frames = 0;
  committed_bytes = 120;
  allocations = (1, 100) ∷ [];
  current_allocation = some 1;
  next_allocation = 2;
  pending_allocation = none;
}

abbrev three : HoldingRequest
three = record { frames = 3; claim_bytes = 64 }

new-limits : new limits ≡ ok book
unfolding new initial
new-limits = refl

limits-IsWord : IsWord limits
limits-IsWord = omega arith

book-IsValid : IsValid book
book-IsValid = new-IsValid limits limits-IsWord new-limits

abbrev history : List Call
history =
    admits three
    ∷ begins 200
    ∷ admits three
    ∷ reserves
    ∷ closes 1
    ∷ installs 150
    ∷ retires 1
    ∷ cleans 1
    ∷ admits three
    ∷ []

history_runs : (run book history).committed_bytes ≡ 234
unfolding run step admit grant available_frames lookup insert remove total close complete_cleanup
    begin_reconfiguration reserve_reconfiguration reserve_bound install_reconfiguration
    complete_allocation_cleanup
history_runs = refl

second_consumer_refused :
    (step (run book (admits three ∷ [])) (admits three)).1 ≡ some (insufficient_resources 3 1)
unfolding run step admit grant available_frames lookup insert
second_consumer_refused = refl

run-new-IsValid_example : IsValid (run book history)
run-new-IsValid_example = run-new-IsValid limits book history limits-IsWord new-limits

step_refused_example : (step book (cleans 7)).0 ≡ book
unfolding step complete_cleanup lookup
step_refused_example = step_refused book (cleans 7) {e = unknown_incarnation} refl

admit_iff_example : Fits book three ↔ ((admit book three).1 ≡ ok (reservation_for book three))
admit_iff_example = admit_iff book book-IsValid three

abbrev admitted : AdmissionBook
admitted = record book {
  next_incarnation = 2;
  reservations = (1, record { reservation = reservation_for book three; closing = false }) ∷ [];
  reserved_frames = 3;
  committed_bytes = 184;
}

admit-book : admit book three ≡ (admitted, ok (reservation_for book three))
unfolding admit grant available_frames insert
admit-book = refl

abbrev gone : AdmissionBook
gone = record book { next_incarnation = 2 }

admit-fresh_example : 1 < 2
unfolding admit grant available_frames insert run step close complete_cleanup lookup remove
admit-fresh_example =
    admit-fresh book admitted
      (record admitted {
        next_incarnation = 3;
        reservations =
            (2, record { reservation = reservation_for gone three; closing = false }) ∷ [];
      })
      three three (reservation_for book three) (reservation_for gone three)
      (closes 1 ∷ cleans 1 ∷ []) refl refl

complete_cleanup-close-admit_example :
    ((close admitted 1).1 ≡ ok tt) × (complete_cleanup (close admitted 1).0 1 ≡ (gone, ok tt))
complete_cleanup-close-admit_example =
    complete_cleanup-close-admit book book-IsValid three admit-book

abbrev proposed : AdmissionBook
proposed = record book {
  current_allocation = none;
  pending_allocation = some (record { upper_bound = 200; reserved = none });
}

abbrev reserved : AdmissionBook
reserved = record proposed {
  next_allocation = 3;
  committed_bytes = 320;
  allocations = (1, 100) ∷ (2, 200) ∷ [];
  pending_allocation = some (record { upper_bound = 200; reserved = some 2 });
}

abandon-reserve_example :
    abandon_reconfiguration_allocation reserved ≡ (record proposed { next_allocation = 3 }, ok tt)
unfolding begin_reconfiguration reserve_reconfiguration reserve_bound insert total
abandon-reserve_example =
    abandon-reserve book book-IsValid 200 {b₁ = proposed} {b₂ = reserved} {id = 2} refl refl

abbrev installed : AdmissionBook
installed = record book {
  next_allocation = 3;
  committed_bytes = 270;
  allocations = (1, 100) ∷ (2, 150) ∷ [];
  current_allocation = some 2;
}

replacement_lem_example :
    (complete_allocation_cleanup installed 1).0.committed_bytes + 100 ≡ 120 + 150
unfolding begin_reconfiguration reserve_reconfiguration reserve_bound install_reconfiguration insert
    total lookup
replacement_lem_example =
    (replacement_lem book book-IsValid 200 {b₁ = proposed} {b₂ = reserved} {b₃ = installed} {id = 2}
      {new_id = 2} 150 1 100 refl refl refl refl).4
