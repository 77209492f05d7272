-- ===== src/Framing/Roundtrip.antt =====
-- From one end's `send` to the other end's `receive`.
use mathlib.Core.List.{append-nil}
use jackstay.Base.{ℕ, ◌≡◌, sym, ◌∙◌, ap, some, List, [], ◌++◌, drop_zero}
use jackstay.Base.Result.{Result, ok}
use jackstay.Framing.{IoError, WriteAnswer, ReadAnswer, new, frame_of, flush, send, receive}
use jackstay.Framing.Sending.{new-IsValid, Unblocked, flush_whole}
use jackstay.Framing.Queueing.{send-pending}
use jackstay.Framing.Receiving.{arriving, Flowing, receive-frame_of}

module _ {M : Type 0} (to_vec : M → Result IoError (List ℕ))
    (from_slice : List ℕ → Result IoError M) where
  -- A message comes through a connection: if its JSON reads back as the message, `send` accepts it, a
  -- `flush` on a stream that never blocks succeeds, and what was sent arrives at the other end in
  -- pieces of any size, then `receive` returns the message and nothing is left over.
  pub receive-flush-send :
      (msg : M) (json : List ℕ) (writes : List WriteAnswer) (reads : List ReadAnswer)
      → to_vec msg ≡ ok json
      → from_slice json ≡ ok msg
      → (send to_vec new msg).1 ≡ ok tt
      → Unblocked writes
      → (flush writes (send to_vec new msg).0).2 ≡ some (ok tt)
      → Flowing reads
      → arriving reads ≡ (flush writes (send to_vec new msg).0).1
      → ((receive from_slice reads new).2 ≡ some (ok (some msg)))
        × ((receive from_slice reads new).0.input ++ arriving (receive from_slice reads new).1 ≡ [])
  receive-flush-send msg json writes reads e good h u k w a =
      let (v, p, l, m) = send-pending to_vec new msg json new-IsValid e h in
      let (q, z) = flush_whole writes (send to_vec new msg).0 v u k in
      receive-frame_of from_slice json msg reads new [] good l m w (
        a
        ∙ q
        ∙ p
        ∙ ap (λ xs. xs ++ frame_of json) (drop_zero [])
        ∙ sym (append-nil (frame_of json)))
