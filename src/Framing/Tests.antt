-- ===== src/Framing/Tests.antt =====
-- Tests of the framing, and the instances at which its theorems are applied.
use jackstay.Base.{
  ℕ, ◌+◌, ◌-◌, ◌≤◌, ◌<◌, ◌≡◌, refl, sym, ◌∙◌, drop_zero, some, List, [], ◌∷◌, ◌++◌, arith,
}
use jackstay.Base.Result.{Result, ok, err}
use jackstay.Framing.{
  max_frame, IoError, bad_json, WriteAnswer, wrote, write_interrupted, ReadAnswer, came,
  read_interrupted, Framed, new, frame_of, flush, send, receive,
}
use jackstay.Framing.Sending.{IsValid, new-IsValid, pending, Flushed, flush-ordered, flush_whole}
use jackstay.Framing.Queueing.{send-pending}
use jackstay.Framing.Receiving.{arriving, receive-frame_of}
use jackstay.Framing.Roundtrip.{receive-flush-send}

-- A message is a digit, which is its own JSON.
abbrev to_digit : ℕ → Result IoError (List ℕ)
to_digit n = ok ((48 + n) ∷ [])

abbrev from_digit : List ℕ → Result IoError ℕ
from_digit [] = err bad_json
from_digit (c ∷ []) = ok (c - 48)
from_digit (c ∷ (d ∷ ds)) = err bad_json

abbrev queued : Framed
queued = record { input = []; output = (0 ∷ 0 ∷ 0 ∷ 1 ∷ 55 ∷ []) ∷ []; offset = 0; queued = 5 }

queued_lem : send to_digit new 7 ≡ (queued, ok tt)
unfolding send
queued_lem = refl

queued-IsValid : IsValid queued
queued-IsValid = record {
  started = omega arith;
  filled = (omega arith, tt);
  counted = refl;
  bounded = omega arith;
}

abbrev pieces : List WriteAnswer
pieces = wrote 2 ∷ write_interrupted ∷ wrote 9 ∷ []

send-pending_example :
    IsValid (send to_digit new 7).0
    × (pending (send to_digit new 7).0 ≡ pending new ++ frame_of (55 ∷ []))
    × (0 < 1)
    × (1 ≤ max_frame)
unfolding send
send-pending_example = send-pending to_digit new 7 (55 ∷ []) new-IsValid refl refl

flush-ordered_example : Flushed queued (flush pieces queued).0 (flush pieces queued).1
flush-ordered_example = flush-ordered pieces queued queued-IsValid

flush_whole_example :
    ((flush pieces queued).1 ≡ pending queued) × ((flush pieces queued).0.queued ≡ 0)
unfolding flush
flush_whole_example = flush_whole pieces queued queued-IsValid tt refl

abbrev reads : List ReadAnswer
reads = came (0 ∷ 0 ∷ []) ∷ read_interrupted ∷ came (0 ∷ 1 ∷ 55 ∷ 0 ∷ []) ∷ []

receive-frame_of_example :
    ((receive from_digit reads new).2 ≡ some (ok (some 7)))
    × ((receive from_digit reads new).0.input ++ arriving (receive from_digit reads new).1 ≡ 0 ∷ [])
receive-frame_of_example =
    receive-frame_of from_digit (55 ∷ []) 7 reads new (0 ∷ []) refl (omega arith) (omega arith) tt
      refl

abbrev exact : List ReadAnswer
exact = came (0 ∷ []) ∷ came (0 ∷ 0 ∷ 1 ∷ 55 ∷ []) ∷ []

receive-flush-send_example :
    ((receive from_digit exact new).2 ≡ some (ok (some 7)))
    × ((receive from_digit exact new).0.input ++ arriving (receive from_digit exact new).1 ≡ [])
unfolding send flush
receive-flush-send_example =
    receive-flush-send to_digit from_digit 7 (55 ∷ []) pieces exact refl refl refl tt refl tt (
      sym (
        (flush_whole pieces queued queued-IsValid tt refl).0 ∙ drop_zero (0 ∷ 0 ∷ 0 ∷ 1 ∷ 55 ∷ [])))
