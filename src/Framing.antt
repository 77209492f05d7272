-- ===== src/Framing.antt =====
-- Length-prefixed JSON frames over a stream, crates/jackstay/src/framing.rs.
-- The messages' JSON (serde_json) and the stream are parameters: `to_vec` and `from_slice`, and the
-- answers that the stream gives to the successive writes or reads of one call.
pub mod Sending
pub mod Queueing
pub mod Receiving
pub mod Roundtrip
mod Tests
use jackstay.Base.{
  ℕ, ◌+◌, ◌-◌, ◌*◌, ◌/◌, ◌%◌, Bool, not, ◌&&◌, ◌||◌, Option, none, some, List, [], ◌∷◌, ◌++◌, ◌==◌,
  ltb, leb, length, take, drop, min, if◌then◌else◌,
}
use jackstay.Base.Result.{Result, ok, err, Outcome}

abbrev pub max_frame : ℕ
max_frame = 128 * 1024

abbrev pub max_buffer : ℕ
max_buffer = 512 * 1024

pub data IoError : Type 0 where
  write_zero unexpected_eof bound_exceeded invalid_size bad_json stream_failed : IoError

-- `wrote n` is a stream with room for `n` bytes, which takes as many of those it is offered; the
-- others are `WouldBlock`, `Interrupted` and another error.
pub data WriteAnswer : Type 0 where
  wrote : ℕ → WriteAnswer
  write_blocks write_interrupted write_fails : WriteAnswer

-- `Ok(n)` with the bytes that came, of which none means the end.
pub data ReadAnswer : Type 0 where
  came : List ℕ → ReadAnswer
  read_blocks read_interrupted read_fails : ReadAnswer

pub record Framed : Type 0 where
  pub input : List ℕ
  pub output : List (List ℕ)
  pub offset : ℕ
  pub queued : ℕ

abbrev pub new : Framed
new = record { input = []; output = []; offset = 0; queued = 0 }

-- `(n as u32).to_be_bytes()`, and back.
abbrev pub to_be_bytes : ℕ → List ℕ
to_be_bytes n = (n / 16777216 % 256) ∷ (n / 65536 % 256) ∷ (n / 256 % 256) ∷ (n % 256) ∷ []

unfoldable pub from_be_bytes : List ℕ → ℕ
from_be_bytes (a ∷ b ∷ c ∷ d ∷ rest) = a * 16777216 + b * 65536 + c * 256 + d
from_be_bytes [] = 0
from_be_bytes (a ∷ []) = 0
from_be_bytes (a ∷ b ∷ []) = 0
from_be_bytes (a ∷ b ∷ c ∷ []) = 0

abbrev pub frame_of : List ℕ → List ℕ
frame_of json = to_be_bytes (length json) ++ json

abbrev pub too_long : Framed → List ℕ → Bool
too_long f json =
    length json == 0 || (ltb max_frame (length json) || ltb max_buffer (f.queued + length json + 4))

-- The front frame after the stream took `n` bytes of it.
abbrev pub advance : Framed → List ℕ → List (List ℕ) → ℕ → Framed
advance f frame rest n =
    if f.offset + n == length frame
    then record f { output = rest; offset = 0; queued = f.queued - n }
    else record f { offset = f.offset + n; queued = f.queued - n }

-- How many bytes a write takes: the stream has room for `n` and is offered the rest of the frame.
abbrev pub accepted : Framed → List ℕ → ℕ → ℕ
accepted f frame n = min n (length frame - f.offset)

-- The loop of `flush` over the stream's answers, `output` being the frames left: the state, the
-- bytes that the stream took, and the result. When the answers run out, the loop has not ended.
unfoldable pub flush_from :
    List WriteAnswer → Framed → List (List ℕ) → Framed × List ℕ × Option (Result IoError (Unit {0}))
flush_from answers f [] = (f, [], some (ok tt))
flush_from [] f (frame ∷ rest) = (f, [], none)
flush_from (write_blocks ∷ answers) f (frame ∷ rest) = (f, [], some (ok tt))
flush_from (write_interrupted ∷ answers) f (frame ∷ rest) = flush_from answers f (frame ∷ rest)
flush_from (write_fails ∷ answers) f (frame ∷ rest) = (f, [], some (err stream_failed))
flush_from (wrote n ∷ answers) f (frame ∷ rest) =
    let k = accepted f frame n in
    let f' = advance f frame rest k in
    let (g, sent, result) = flush_from answers f' f'.output in
    if k == 0
    then (f, [], some (err write_zero))
    else (g, take k (drop f.offset frame) ++ sent, result)

unfoldable pub flush :
    List WriteAnswer → Framed → Framed × List ℕ × Option (Result IoError (Unit {0}))
unfolding flush_from
flush answers f = flush_from answers f f.output

module _ {M : Type 0} (to_vec : M → Result IoError (List ℕ)) where
  unfoldable pub send : Framed → M → Outcome Framed IoError (Unit {0})
  send f msg = elim (to_vec msg) [
    | err e ↦ (f, err e)
    | ok json ↦ if too_long f json then (f, err bound_exceeded) else (
      record f {
        queued = f.queued + length (frame_of json);
        output = f.output ++ (frame_of json ∷ []);
      },
      ok tt,
    )
  ]

module _ {M : Type 0} (from_slice : List ℕ → Result IoError M) where
  -- The whole frame at the head of the buffer, if it is there: the message and what follows it.
  unfoldable pub scan : List ℕ → Option (Result IoError (M × List ℕ))
  unfolding from_be_bytes
  scan input =
      let size = from_be_bytes input in
      if leb 4 (length input)
      then if size == 0 || ltb max_frame size
        then some (err invalid_size)
        else if leb (size + 4) (length input)
        then elim (from_slice (take size (drop 4 input))) [
          | err e ↦ some (err e)
          | ok msg ↦ some (ok (msg, drop (size + 4) input))
        ]
        else none
      else none

  abbrev pub taken : Framed → Result IoError (M × List ℕ) → Framed × Result IoError (Option M)
  taken f (err e) = (f, err e)
  taken f (ok (msg, rest)) = (record f { input = rest }, ok (some msg))

  -- The loop of `receive` over the stream's answers, with the answers it leaves unread.
  unfoldable pub receive :
      List ReadAnswer → Framed → Framed × List ReadAnswer × Option (Result IoError (Option M))
  unfolding scan
  receive [] f = elim (scan f.input) [
    | some r ↦ let (g, result) = taken f r in (g, [], some result)
    | none ↦ (f, [], none)
  ]
  receive (read_blocks ∷ answers) f = elim (scan f.input) [
    | some r ↦ let (g, result) = taken f r in (g, read_blocks ∷ answers, some result)
    | none ↦ (f, answers, some (ok none))
  ]
  receive (read_fails ∷ answers) f = elim (scan f.input) [
    | some r ↦ let (g, result) = taken f r in (g, read_fails ∷ answers, some result)
    | none ↦ (f, answers, some (err stream_failed))
  ]
  receive (read_interrupted ∷ answers) f =
      let later = receive answers f in
      elim (scan f.input) [
        | some r ↦ let (g, result) = taken f r in (g, read_interrupted ∷ answers, some result)
        | none ↦ later
      ]
  receive (came [] ∷ answers) f = elim (scan f.input) [
    | some r ↦ let (g, result) = taken f r in (g, came [] ∷ answers, some result)
    | none ↦ (f, answers, some (err unexpected_eof))
  ]
  receive (came (x ∷ xs) ∷ answers) f =
      let later = receive answers (record f { input = f.input ++ (x ∷ xs) }) in
      elim (scan f.input) [
        | some r ↦ let (g, result) = taken f r in (g, came (x ∷ xs) ∷ answers, some result)
        | none ↦ later
      ]
