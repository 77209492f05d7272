-- ===== src/Framing/Queueing.antt =====
-- `send` queues a message behind all others, within the bound of the buffer.
use mathlib.Core.List.{append_assoc, append-nil}
use jackstay.Base.{
  ℕ, ◌+◌, ◌≤◌, ◌<◌, ◌≡◌, inl, inr, refl, sym, ◌∙◌, ap, false, List, [], ◌∷◌, ◌++◌, arith, length,
  length-append, drop, drop-append, Bool-cases,
}
use jackstay.Base.Result.{Result, ok, err}
use jackstay.Framing.{max_frame, IoError, Framed, frame_of, too_long, send}
use jackstay.Framing.Sending.{flatten, pending, Started, Filled, IsValid}

flatten-append : (xs : List (List ℕ)) (x : List ℕ) → flatten (xs ++ (x ∷ [])) ≡ flatten xs ++ x
flatten-append [] x = append-nil x
flatten-append (y ∷ ys) x =
    ap (λ zs. y ++ zs) (flatten-append ys x) ∙ sym (append_assoc y (flatten ys) x)

Filled-append :
    (xs : List (List ℕ)) (x : List ℕ) → Filled xs → 0 < length x → Filled (xs ++ (x ∷ []))
Filled-append [] x h l = (l, tt)
Filled-append (y ∷ ys) x h l = (h.0, Filled-append ys x h.1 l)

Started-append :
    (offset : ℕ) (xs : List (List ℕ)) (x : List ℕ)
    → Started offset xs
    → 0 < length x
    → Started offset (xs ++ (x ∷ []))
Started-append offset [] x h l = omega arith
Started-append offset (y ∷ ys) x h l = h

Started-le : (offset : ℕ) (xs : List (List ℕ)) → Started offset xs → offset ≤ length (flatten xs)
Started-le offset [] h = omega arith
Started-le offset (y ∷ ys) h = omega (arith, length-append y (flatten ys))

module _ {M : Type 0} (to_vec : M → Result IoError (List ℕ)) where
  -- A message that `send` accepts on a valid buffer stands as one frame, its length first, behind all
  -- bytes queued before, and the buffer stays valid and within its bound.
  pub send-pending :
      (f : Framed) (msg : M) (json : List ℕ)
      → IsValid f
      → to_vec msg ≡ ok json
      → (send to_vec f msg).1 ≡ ok tt
      → IsValid (send to_vec f msg).0
        × (pending (send to_vec f msg).0 ≡ pending f ++ frame_of json)
        × (0 < length json)
        × (length json ≤ max_frame)
  unfolding send
  send-pending f msg json v e =
      rw (e, send)
        (elim (Bool-cases (too_long f json)) [
          | inl g ↦ rw g (λ h. absurd (refused _ refl h))
          | inr g ↦ rw g (λ h. (queued-IsValid g, behind, full g, small g))
        ])
    where
      refused : (r : Result IoError (Unit {0})) → r ≡ err IoError.bound_exceeded → r ≡ ok tt → ⊥
      refused r p h = cc

      frame : List ℕ
      frame = frame_of json

      queued-IsValid :
          too_long f json ≡ false
          → IsValid
              (record f { queued = f.queued + length frame; output = f.output ++ (frame ∷ []) })
      queued-IsValid g = record {
        started = Started-append f.offset f.output frame v.started (omega arith);
        filled = Filled-append f.output frame v.filled (omega arith);
        counted = omega (
          arith,
          v.counted,
          ap length (flatten-append f.output frame),
          length-append (flatten f.output) frame,
        );
        bounded = ground arith;
      }

      behind : drop f.offset (flatten (f.output ++ (frame ∷ []))) ≡ pending f ++ frame
      behind =
          ap (drop f.offset) (flatten-append f.output frame)
          ∙ drop-append f.offset (flatten f.output) frame (Started-le f.offset f.output v.started)

      full : too_long f json ≡ false → 0 < length json
      full g = ground arith

      small : too_long f json ≡ false → length json ≤ max_frame
      small g = ground arith
