-- ===== src/Admission/Lifecycle.antt =====
-- What an admission needs, and what a whole admission or a whole replacement leaves in the accounts.
use jackstay.Base.{ℕ, ◌+◌, ◌≤◌, ◌<◌, ◌≡◌, ◌↔◌, Bool, true, none, arith, length, u64_mod, ap, ◌∙◌}
use jackstay.Base.Result.{ok}
use jackstay.Base.Dict.{
  lookup, insert, lookup-insert_self, remove-insert_fresh, insert_twice, lookup_high,
}
use jackstay.Admission.{
  IncarnationRecord, HoldingRequest, HoldingReservation, AdmissionBook, admit, close,
  complete_cleanup, grant,
}
use jackstay.Admission.Invariant.{IsValid, available_frames-exact}

-- All that `admit` asks of a request.
pub record Fits (b : AdmissionBook) (r : HoldingRequest) : Type 0 where
  pub settled : b.pending_allocation ≡ none
  pub frames_asked : 0 < r.frames
  pub bytes_asked : 0 < r.claim_bytes
  pub frames_left :
      b.limits.retained_history + b.limits.producer_reserve + b.reserved_frames + r.frames
      ≤ b.limits.resource_capacity
  pub place_left : length b.reservations < b.limits.max_incarnations
  pub bytes_left : b.committed_bytes + r.claim_bytes ≤ b.limits.memory_budget
  pub identity_left : b.next_incarnation + 1 < u64_mod

abbrev pub reservation_for : AdmissionBook → HoldingRequest → HoldingReservation
reservation_for b r = record {
  incarnation = b.next_incarnation;
  frames = r.frames;
  claim_bytes = r.claim_bytes;
}

module _ (b : AdmissionBook) (v : IsValid b) (r : HoldingRequest) where
  -- On a valid book a request is granted exactly when no replacement is pending, it asks for frames
  -- and bytes, the frames fit beside history, reserve and what is reserved, a place and the bytes
  -- are left, and an identity is left; what is granted is then the request under the next identity.
  pub admit_iff : Fits b r ↔ ((admit b r).1 ≡ ok (reservation_for b r))
  unfolding admit grant
  admit_iff = (
    λ f. ground (arith, available_frames-exact b v),
    λ h. ground (arith, available_frames-exact b v),
  )

  fresh : lookup b.next_incarnation b.reservations ≡ none
  fresh =
      lookup_high 1 b.next_incarnation b.next_incarnation b.reservations v.incarnations
        (omega arith)

  abbrev entry : Bool → IncarnationRecord
  entry closing = record { reservation = reservation_for b r; closing = closing }

  closed : (next : ℕ) → AdmissionBook
  closed next = record ((grant b r next).0) {
    reservations = insert b.next_incarnation (entry true) b.reservations;
  }

  close-grant : (next : ℕ) → close (grant b r next).0 b.next_incarnation ≡ (closed next, ok tt)
  unfolding close grant closed
  close-grant next = rw (lookup-insert_self, close, insert_twice)

  cleanup-closed :
      (next : ℕ)
      → Fits b r
      → complete_cleanup (closed next) b.next_incarnation
        ≡ (record b { next_incarnation = next }, ok tt)
  unfolding complete_cleanup grant closed
  cleanup-closed next f =
      rw
        (
          lookup-insert_self,
          complete_cleanup,
          remove-insert_fresh b.next_incarnation (entry true) b.reservations fresh,
        )
        (ground arith)

  admit_ok :
      {b₁ : AdmissionBook} {g : HoldingReservation}
      → admit b r ≡ (b₁, ok g)
      → (b₁ ≡ (grant b r (b.next_incarnation + 1)).0) × (g ≡ reservation_for b r)
  unfolding admit grant
  admit_ok h = ground arith

  -- An admission that is closed and cleaned up gives all of it back: on a valid book, whatever
  -- `admit` grants, `close` and `complete_cleanup` of the granted incarnation succeed and leave the
  -- book as before but for the identity, which is spent.
  pub complete_cleanup-close-admit :
      {b₁ : AdmissionBook} {g : HoldingReservation}
      → admit b r ≡ (b₁, ok g)
      → let (b₂, closed_ok) = close b₁ g.incarnation in
        (closed_ok ≡ ok tt)
        × (complete_cleanup b₂ g.incarnation
            ≡ (record b { next_incarnation = b.next_incarnation + 1 }, ok tt))
  complete_cleanup-close-admit {b₁} {g} h =
      let (e, f) = admit_ok h in
      let closes : close b₁ g.incarnation ≡ (closed (b.next_incarnation + 1), ok tt) =
        rw (e, f) (close-grant (b.next_incarnation + 1)) in
      let cleans =
        cleanup-closed (b.next_incarnation + 1) (admit_iff.1 (ap (λ o. o.1) h ∙ ap ok f)) in
      (ap (λ o. o.1) closes, rw (closes, f) cleans)
