-- ===== src/Framing/Sending.antt =====
-- Queued frames reach the stream whole and in order.
use mathlib.Core.List.{append_assoc, append-nil}
use jackstay.Base.{
  ℕ, ◌+◌, ◌-◌, ◌≤◌, ◌<◌, ◌≡◌, inl, inr, refl, sym, ◌∙◌, ap, subst, true, false, Option, none, some,
  List, [], ◌∷◌, ◌++◌, ◌==◌, arith, length, length-append, take, drop, drop_zero, drop-nil,
  drop-drop, drop-append, drop-length, append-take-drop, Bool-cases,
}
use jackstay.Base.Result.{Result, ok, err}
use jackstay.Framing.{
  max_buffer, IoError, WriteAnswer, wrote, write_blocks, write_interrupted, write_fails, Framed,
  new, advance, accepted, flush_from, flush,
}

abbrev pub flatten : List (List ℕ) → List ℕ
flatten [] = []
flatten (x ∷ xs) = x ++ flatten xs

-- The bytes that are queued and not yet taken by the stream.
abbrev pub pending : Framed → List ℕ
pending f = drop f.offset (flatten f.output)

-- The front frame is taken in part at most.
abbrev pub Started : ℕ → List (List ℕ) → Type 0
Started offset [] = offset ≡ 0
Started offset (frame ∷ rest) = offset < length frame

abbrev pub Filled : List (List ℕ) → Type 0
Filled [] = Unit {0}
Filled (frame ∷ rest) = (0 < length frame) × Filled rest

-- `queued` counts the bytes that are left, within the bound of the buffer.
pub record IsValid (f : Framed) : Type 0 where
  pub started : Started f.offset f.output
  pub filled : Filled f.output
  pub counted : f.queued + f.offset ≡ length (flatten f.output)
  pub bounded : f.queued ≤ max_buffer

-- Other results than `Ok(())`.
failed : (e : IoError) (r : Result IoError (Unit {0})) → r ≡ err e → some r ≡ some (ok tt) → ⊥
failed e r p h = cc

unfinished : (o : Option (Result IoError (Unit {0}))) → o ≡ none → o ≡ some (ok tt) → ⊥
unfinished o p h = cc

pub new-IsValid : IsValid new
new-IsValid = record { started = refl; filled = tt; counted = refl; bounded = omega arith }

next-Started : (rest : List (List ℕ)) → Filled rest → Started 0 rest
next-Started [] h = refl
next-Started (frame ∷ rest) h = h.0

-- One write moves bytes from the queue to the stream.
module _ (f : Framed) (frame : List ℕ) (rest : List (List ℕ)) (k : ℕ)
    (here : f.output ≡ frame ∷ rest) (v : IsValid f) (few : k ≤ length frame - f.offset) where
  begun : f.offset < length frame
  begun = subst (Started f.offset) here v.started

  filled : (0 < length frame) × Filled rest
  filled = subst Filled here v.filled

  counted : f.queued + f.offset ≡ length frame + length (flatten rest)
  counted = v.counted ∙ ap (λ o. length (flatten o)) here ∙ length-append frame (flatten rest)

  advance-IsValid : IsValid (advance f frame rest k)
  advance-IsValid = elim (Bool-cases (f.offset + k == length frame)) [
    | inl e ↦ rw e (record {
      started = next-Started rest filled.1;
      filled = filled.1;
      counted = over e;
      bounded = omega (arith, v.bounded);
    })
    | inr e ↦ rw e (record {
      started = subst (Started (f.offset + k)) (sym here) (short e);
      filled = v.filled;
      counted = partly e;
      bounded = omega (arith, v.bounded);
    })
  ]
    where
      over : (f.offset + k == length frame) ≡ true → f.queued - k + 0 ≡ length (flatten rest)
      over e = ground (arith, counted, begun)

      short : (f.offset + k == length frame) ≡ false → f.offset + k < length frame
      short e = ground (arith, begun, few)

      partly :
          (f.offset + k == length frame) ≡ false
          → f.queued - k + (f.offset + k) ≡ length (flatten f.output)
      partly e = ground (arith, v.counted, counted, begun, few)

  -- What is left after the write.
  pending-advance : pending (advance f frame rest k) ≡ drop (f.offset + k) frame ++ flatten rest
  pending-advance = elim (Bool-cases (f.offset + k == length frame)) [
    | inl e ↦ rw e (
        drop_zero (flatten rest)
        ∙ sym (ap (λ xs. xs ++ flatten rest) (ap (λ i. drop i frame) (all e) ∙ drop-length frame)))
    | inr e ↦ rw e (
        ap (λ o. drop (f.offset + k) (flatten o)) here
        ∙ drop-append (f.offset + k) frame (flatten rest) (omega (arith, begun, few)))
  ]
    where
      all : (f.offset + k == length frame) ≡ true → f.offset + k ≡ length frame
      all e = ground arith

  pub advance-pending : pending f ≡ take k (drop f.offset frame) ++ pending (advance f frame rest k)
  advance-pending =
      ap (λ o. drop f.offset (flatten o)) here
      ∙ drop-append f.offset frame (flatten rest) (omega (arith, begun))
      ∙ ap (λ xs. xs ++ flatten rest)
          (sym (append-take-drop k (drop f.offset frame))
            ∙ ap (λ xs. take k (drop f.offset frame) ++ xs) (drop-drop k f.offset frame))
      ∙ append_assoc (take k (drop f.offset frame)) (drop (f.offset + k) frame) (flatten rest)
      ∙ ap (λ xs. take k (drop f.offset frame) ++ xs) (sym pending-advance)

-- What a call of `flush` keeps: the books, and the bytes in their order.
pub record Flushed (f : Framed) (g : Framed) (sent : List ℕ) : Type 0 where
  pub valid : IsValid g
  pub ordered : pending f ≡ sent ++ pending g

-- A write and what the loop does afterwards.
wrote-Flushed :
    (n : ℕ) (f : Framed) (frame : List ℕ) (rest : List (List ℕ)) (answers : List WriteAnswer)
    → f.output ≡ frame ∷ rest
    → IsValid f
    → let k = accepted f frame n in
      let f' = advance f frame rest k in
      Flushed f' (flush_from answers f' f'.output).0 (flush_from answers f' f'.output).1
      → Flushed f
          (flush_from answers f' f'.output).0
          (take k (drop f.offset frame) ++ (flush_from answers f' f'.output).1)
wrote-Flushed n f frame rest answers e v later = record {
  valid = later.valid;
  ordered =
      advance-pending f frame rest k e v (omega arith)
      ∙ ap (λ xs. take k (drop f.offset frame) ++ xs) later.ordered
      ∙ sym (
          append_assoc (take k (drop f.offset frame)) (flush_from answers f' f'.output).1
            (pending (flush_from answers f' f'.output).0));
}
  where
    k : ℕ
    k = accepted f frame n

    f' : Framed
    f' = advance f frame rest k

flush_from-Flushed :
    (answers : List WriteAnswer) (f : Framed) (output : List (List ℕ))
    → f.output ≡ output
    → IsValid f
    → Flushed f (flush_from answers f output).0 (flush_from answers f output).1
unfolding flush_from
flush_from-Flushed answers f [] e v = record { valid = v; ordered = refl }
flush_from-Flushed [] f (frame ∷ rest) e v = record { valid = v; ordered = refl }
flush_from-Flushed (write_blocks ∷ answers) f (frame ∷ rest) e v = record {
  valid = v;
  ordered = refl;
}
flush_from-Flushed (write_interrupted ∷ answers) f (frame ∷ rest) e v =
    flush_from-Flushed answers f (frame ∷ rest) e v
flush_from-Flushed (write_fails ∷ answers) f (frame ∷ rest) e v = record {
  valid = v;
  ordered = refl;
}
flush_from-Flushed (wrote n ∷ answers) f (frame ∷ rest) e v =
    elim (Bool-cases (accepted f frame n == 0)) [
      | inl h ↦ rw h (record { valid = v; ordered = refl })
      | inr h ↦ rw h (
          wrote-Flushed n f frame rest answers e v (
            flush_from-Flushed answers _ _ refl
              (advance-IsValid f frame rest (accepted f frame n) e v (omega arith))))
    ]

-- Whatever the stream answers to its writes, a call of `flush` sends the queued bytes from the front,
-- each once and in order, keeps the rest queued, and leaves the buffer's count right.
pub flush-ordered :
    (answers : List WriteAnswer) (f : Framed)
    → IsValid f
    → Flushed f (flush answers f).0 (flush answers f).1
unfolding flush
flush-ordered answers f v = flush_from-Flushed answers f f.output refl v

abbrev pub Unblocked : List WriteAnswer → Type 0
Unblocked [] = Unit {0}
Unblocked (wrote n ∷ answers) = Unblocked answers
Unblocked (write_blocks ∷ answers) = ⊥
Unblocked (write_interrupted ∷ answers) = Unblocked answers
Unblocked (write_fails ∷ answers) = Unblocked answers

flush_from-done :
    (answers : List WriteAnswer) (f : Framed) (output : List (List ℕ))
    → f.output ≡ output
    → Unblocked answers
    → (flush_from answers f output).2 ≡ some (ok tt)
    → (flush_from answers f output).0.output ≡ []
unfolding flush_from
flush_from-done answers f [] e u = λ h. e
flush_from-done [] f (frame ∷ rest) e u = λ h. absurd (unfinished _ refl h)
flush_from-done (write_blocks ∷ answers) f (frame ∷ rest) e u = absurd u
flush_from-done (write_interrupted ∷ answers) f (frame ∷ rest) e u =
    flush_from-done answers f (frame ∷ rest) e u
flush_from-done (write_fails ∷ answers) f (frame ∷ rest) e u = λ h. absurd (failed _ _ refl h)
flush_from-done (wrote n ∷ answers) f (frame ∷ rest) e u =
    elim (Bool-cases (accepted f frame n == 0)) [
      | inl g ↦ rw g (λ h. absurd (failed _ _ refl h))
      | inr g ↦ rw g (flush_from-done answers _ _ refl u)
    ]

-- A `flush` that succeeds on a stream that never blocks has sent everything: a valid buffer's queued
-- bytes are exactly what was sent, and none is counted any more.
pub flush_whole :
    (answers : List WriteAnswer) (f : Framed)
    → IsValid f
    → Unblocked answers
    → (flush answers f).2 ≡ some (ok tt)
    → ((flush answers f).1 ≡ pending f) × ((flush answers f).0.queued ≡ 0)
unfolding flush
flush_whole answers f v u h =
    (sym (k.ordered ∙ ap (λ xs. sent ++ xs) nothing ∙ append-nil sent), omega (arith, none_left))
  where
    g : Framed
    g = (flush_from answers f f.output).0

    sent : List ℕ
    sent = (flush_from answers f f.output).1

    k : Flushed f g sent
    k = flush-ordered answers f v

    empty : g.output ≡ []
    empty = flush_from-done answers f f.output refl u h

    nothing : pending g ≡ []
    nothing = ap (λ o. drop g.offset (flatten o)) empty ∙ drop-nil g.offset

    none_left : g.queued + g.offset ≡ 0
    none_left = k.valid.counted ∙ ap (λ o. length (flatten o)) empty
