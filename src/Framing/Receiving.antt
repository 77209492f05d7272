-- ===== src/Framing/Receiving.antt =====
-- A frame arrives whole, however the stream cuts it.
use mathlib.Core.List.{append_assoc, append-nil}
use jackstay.Base.{
  ℕ, ◌+◌, ◌≤◌, ◌<◌, ◌≡◌, inl, inr, refl, sym, ◌∙◌, ap, subst, true, false, ◌||◌, Option, none, some,
  List, [], ◌∷◌, ◌++◌, ◌==◌, ltb, leb, arith, length, length-append, take, drop, append-split,
  drop-length-append, take-length-append, Bool-cases,
}
use jackstay.Base.Result.{Result, ok}
use jackstay.Framing.{
  max_frame, IoError, ReadAnswer, came, read_blocks, read_interrupted, read_fails, Framed,
  to_be_bytes, from_be_bytes, frame_of, scan, receive,
}

-- The bytes that the answers bring.
abbrev pub arriving : List ReadAnswer → List ℕ
arriving [] = []
arriving (came xs ∷ answers) = xs ++ arriving answers
arriving (read_blocks ∷ answers) = arriving answers
arriving (read_interrupted ∷ answers) = arriving answers
arriving (read_fails ∷ answers) = arriving answers

-- A stream that brings bytes, with interruptions at most.
abbrev pub Flowing : List ReadAnswer → Type 0
Flowing [] = Unit {0}
Flowing (came [] ∷ answers) = ⊥
Flowing (came (x ∷ xs) ∷ answers) = Flowing answers
Flowing (read_blocks ∷ answers) = ⊥
Flowing (read_interrupted ∷ answers) = Flowing answers
Flowing (read_fails ∷ answers) = ⊥

-- The length comes back from the bytes that carry it, whatever follows them.
from_be_bytes-to_be_bytes :
    (n : ℕ) (xs : List ℕ) → n ≤ max_frame → from_be_bytes (to_be_bytes n ++ xs) ≡ n
unfolding from_be_bytes
from_be_bytes-to_be_bytes n xs h = omega arith

-- Once four bytes of a frame are there, its length is known.
from_be_bytes_prefix :
    (xs ys : List ℕ) (n : ℕ) (zs : List ℕ)
    → xs ++ ys ≡ to_be_bytes n ++ zs
    → 4 ≤ length xs
    → n ≤ max_frame
    → from_be_bytes xs ≡ n
from_be_bytes_prefix xs ys n zs e l h =
    ap from_be_bytes (append-split xs ys (to_be_bytes n) zs e l).0
    ∙ from_be_bytes-to_be_bytes n (drop 4 xs) h

module _ {M : Type 0} (from_slice : List ℕ → Result IoError M) where
  scan_found :
      (b : List ℕ) (size : ℕ) (msg : M)
      → from_be_bytes b ≡ size
      → (0 < size) × (size ≤ max_frame)
      → size + 4 ≤ length b
      → from_slice (take size (drop 4 b)) ≡ ok msg
      → scan from_slice b ≡ some (ok (msg, drop (size + 4) b))
  unfolding scan
  scan_found b size msg s (p, q) l g =
      rw (there, scan)
        (rw fits (rw enough (rw parsed (ap (λ i. some (ok (msg, drop (i + 4) b))) s))))
    where
      there : leb 4 (length b) ≡ true
      there = ground arith

      fits : (from_be_bytes b == 0 || ltb max_frame (from_be_bytes b)) ≡ false
      fits = ground arith

      enough : leb (from_be_bytes b + 4) (length b) ≡ true
      enough = ground arith

      parsed : from_slice (take (from_be_bytes b) (drop 4 b)) ≡ ok msg
      parsed = subst (λ i. from_slice (take i (drop 4 b)) ≡ ok msg) (sym s) g

  scan_waits :
      (b : List ℕ) (size : ℕ)
      → (4 ≤ length b → from_be_bytes b ≡ size)
      → (0 < size) × (size ≤ max_frame)
      → length b < size + 4
      → scan from_slice b ≡ none
  unfolding scan
  scan_waits b size s (p, q) l = elim (Bool-cases (leb 4 (length b))) [
    | inr e ↦ rw e refl
    | inl e ↦ rw e (rw (s (long e)) (rw fits (rw short refl)))
  ]
    where
      long : leb 4 (length b) ≡ true → 4 ≤ length b
      long e = ground arith

      fits : (size == 0 || ltb max_frame size) ≡ false
      fits = ground arith

      short : leb (size + 4) (length b) ≡ false
      short = ground arith

module _ {M : Type 0} (from_slice : List ℕ → Result IoError M) (json : List ℕ) (msg : M)
    (good : from_slice json ≡ ok msg) (full : 0 < length json)
    (small : length json ≤ max_frame) where
  abbrev n : ℕ
  n = length json

  scan-frame_of : (rest : List ℕ) → scan from_slice (frame_of json ++ rest) ≡ some (ok (msg, rest))
  scan-frame_of rest =
      scan_found from_slice (frame_of json ++ rest) n msg
        (from_be_bytes-to_be_bytes n (json ++ rest) small) (full, small)
        (omega (arith, length-append json rest))
        (ap from_slice (
            ap (take n) (drop-length-append (to_be_bytes n) (json ++ rest))
            ∙ take-length-append json rest)
          ∙ good)
      ∙ ap (λ xs. some (ok (msg, xs)))
          (ap (λ i. drop i (frame_of json ++ rest)) size ∙ drop-length-append (frame_of json) rest)
    where
      size : n + 4 ≡ length (frame_of json)
      size = omega arith

  scan_short :
      (xs ys rest : List ℕ)
      → xs ++ ys ≡ frame_of json ++ rest
      → length xs < n + 4
      → scan from_slice xs ≡ none
  scan_short xs ys rest e l =
      scan_waits from_slice xs n (λ k. from_be_bytes_prefix xs ys n (json ++ rest) e k small)
        (full, small) l

  enough : (f : Framed) → leb (n + 4) (length f.input) ≡ true → n + 4 ≤ length f.input
  enough f h = ground arith

  short : (f : Framed) → leb (n + 4) (length f.input) ≡ false → length f.input < n + 4
  short f h = ground arith

  -- What a call of `receive` does with the frame.
  pub record Received (rest : List ℕ)
      (o : Framed × List ReadAnswer × Option (Result IoError (Option M))) : Type 0 where
    pub got : o.2 ≡ some (ok (some msg))
    pub remaining : o.0.input ++ arriving o.1 ≡ rest

  -- The frame is in the buffer: no answer is used.
  receive_now :
      (answers : List ReadAnswer) (f : Framed) (d : List ℕ)
      → scan from_slice f.input ≡ some (ok (msg, d))
      → receive from_slice answers f ≡ (record f { input = d }, answers, some (ok (some msg)))
  unfolding receive
  receive_now [] f d s = rw (s, receive) refl
  receive_now (came [] ∷ answers) f d s = rw (s, receive) refl
  receive_now (came (x ∷ xs) ∷ answers) f d s = rw (s, receive) refl
  receive_now (read_blocks ∷ answers) f d s = rw (s, receive) refl
  receive_now (read_interrupted ∷ answers) f d s = rw (s, receive) refl
  receive_now (read_fails ∷ answers) f d s = rw (s, receive) refl

  now-Received :
      (answers : List ReadAnswer) (f : Framed) (rest : List ℕ)
      → f.input ++ arriving answers ≡ frame_of json ++ rest
      → n + 4 ≤ length f.input
      → Received rest (receive from_slice answers f)
  now-Received answers f rest e l =
      let (p, q) = append-split f.input (arriving answers) (frame_of json) rest e (omega arith) in
      subst (Received rest)
        (sym (
          receive_now answers f (drop (length (frame_of json)) f.input)
            (ap (scan from_slice) p ∙ scan-frame_of (drop (length (frame_of json)) f.input))))
        (record { got = refl; remaining = q })

  receive_loop :
      (answers : List ReadAnswer) (f : Framed) (rest : List ℕ)
      → Flowing answers
      → f.input ++ arriving answers ≡ frame_of json ++ rest
      → Received rest (receive from_slice answers f)
  unfolding receive
  receive_loop [] f rest w e =
      now-Received [] f rest e
        (omega (arith, ap length (sym (append-nil f.input) ∙ e), length-append json rest))
  receive_loop (came [] ∷ answers) f rest w e = absurd w
  receive_loop (read_blocks ∷ answers) f rest w e = absurd w
  receive_loop (read_fails ∷ answers) f rest w e = absurd w
  receive_loop (read_interrupted ∷ answers) f rest w e =
      elim (Bool-cases (leb (n + 4) (length f.input))) [
        | inl h ↦ now-Received (read_interrupted ∷ answers) f rest e (enough f h)
        | inr h ↦
            rw (scan_short f.input (arriving answers) rest e (short f h), receive)
              (receive_loop answers f rest w e)
      ]
  receive_loop (came (x ∷ xs) ∷ answers) f rest w e =
      elim (Bool-cases (leb (n + 4) (length f.input))) [
        | inl h ↦ now-Received (came (x ∷ xs) ∷ answers) f rest e (enough f h)
        | inr h ↦
            rw (scan_short f.input (arriving (came (x ∷ xs) ∷ answers)) rest e (short f h), receive)
              (receive_loop answers (record f { input = f.input ++ (x ∷ xs) }) rest w
                (append_assoc f.input (x ∷ xs) (arriving answers) ∙ e))
      ]

-- A frame comes through whole, however the stream cuts it: if the buffer and the bytes that a stream
-- without errors brings, in pieces of any size, start with the frame of a message, `receive` returns
-- the message, and the bytes after the frame stay, in the buffer or unread.
pub receive-frame_of :
    {M : Type 0} (from_slice : List ℕ → Result IoError M) (json : List ℕ) (msg : M)
    (answers : List ReadAnswer) (f : Framed) (rest : List ℕ)
    → from_slice json ≡ ok msg
    → 0 < length json
    → length json ≤ max_frame
    → Flowing answers
    → f.input ++ arriving answers ≡ frame_of json ++ rest
    → ((receive from_slice answers f).2 ≡ some (ok (some msg)))
      × ((receive from_slice answers f).0.input ++ arriving (receive from_slice answers f).1 ≡ rest)
receive-frame_of from_slice json msg answers f rest good full small w e =
    let r = receive_loop from_slice json msg good full small answers f rest w e in
    (r.got, r.remaining)
