-- ===== src/Lease/Tests.antt =====
-- Tests of the lease book, and the instances at which its theorems are applied.
use jackstay.Base.{ℕ, ◌≡◌, refl, true, List, [], ◌∷◌, arith}
use jackstay.Base.Result.{ok, err}
use jackstay.Base.Dict.{lookup, insert, remove, retain}
use jackstay.Lease.{
  LeaseIdentity, now, timeline_value, LeaseError, new, acquire, register_release_sync, release,
  complete_release_sync, slot_has_unresolved_leases, outstanding_count,
}
use jackstay.Lease.Calls.{
  IsValid, Call, acquires, registers, releases, completes, step, run, run-book-IsValid,
}
use jackstay.Lease.Holding.{slot-acquire}
use jackstay.Lease.Spending.{release-release}

abbrev frame : LeaseIdentity
frame = record { cursor = 7; sequence = 70; pool_id = 1; slot_id = 2 }

-- Two leases of one frame, the first of which waits for a timeline.
abbrev history : List Call
history = acquires frame ∷ acquires frame ∷ registers ∷ releases 1 (timeline_value 1 5) ∷ []

run-book-IsValid_example : IsValid (run new history)
run-book-IsValid_example = run-book-IsValid history (tt, (tt, (tt, (tt, tt))))

completed_lem : outstanding_count (complete_release_sync (run new history) 1 6).0 ≡ 1
unfolding run step acquire register_release_sync release complete_release_sync lookup insert remove
    retain
completed_lem = refl

early_lem : outstanding_count (complete_release_sync (run new history) 1 4).0 ≡ 2
unfolding run step acquire register_release_sync release complete_release_sync lookup insert remove
    retain
early_lem = refl

third_lem : (acquire (run new history) frame).1 ≡ ok 3
unfolding run step acquire register_release_sync release lookup insert remove
third_lem = refl

two-ne-three : (n : ℕ) → n ≡ 3 → n ≡ 2 → ⊥
two-ne-three n h k = omega arith

slot-acquire_example :
    slot_has_unresolved_leases
      (run (acquire (run new history) frame).0 (releases 2 now ∷ completes 1 9 ∷ []))
      1
      2
    ≡ true
slot-acquire_example =
    slot-acquire 3 (run new history) frame (releases 2 now ∷ completes 1 9 ∷ [])
      run-book-IsValid_example (tt, (tt, tt)) (λ h. two-ne-three 2 h refl, (tt, tt)) third_lem

released_lem : (release (run new history) 2 now).1 ≡ ok (record { lease_id = 2; identity = frame })
unfolding run step acquire register_release_sync release lookup insert remove
released_lem = refl

release-release_example :
    (e : LeaseError) × ((release
        (run (release (run new history) 2 now).0 (acquires frame ∷ []))
        2
        (timeline_value 1 8)).1
      ≡ err e)
release-release_example =
    release-release 2 (run new history) now (record { lease_id = 2; identity = frame })
      (acquires frame ∷ []) (timeline_value 1 8) run-book-IsValid_example (tt, tt) released_lem
