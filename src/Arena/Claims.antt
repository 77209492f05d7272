-- ===== src/Arena/Claims.antt =====
-- The words of one incarnation's claim map (`ClaimMap` in crates/jackstay/src/acquisition/arena.rs,
-- cleanup.rs and wait.rs) and the operations on them that both sides share.
use Prim.Native.Nat.{bit_and}
use jackstay.Base.{ℕ, ◌+◌, ◌-◌, Bool, not, ◌&&◌, ◌==◌, if◌then◌else◌, add64, u64_mod}
use jackstay.Base.Range.{any_below}
use jackstay.Base.Result.{ok, err, Outcome}
use jackstay.Protocol.{update}
use jackstay.Arena.{
  ArenaError, notification, ClaimMap, Environment, signalled, disconnected, failed,
}

-- `wait::DATA`, `CAPACITY`, `RECONFIGURATION` and `CLOSED`.
abbrev pub data_event : ℕ
data_event = 1

abbrev pub capacity_event : ℕ
capacity_event = 2

abbrev pub reconfiguration_event : ℕ
reconfiguration_event = 4

abbrev pub closed_event : ℕ
closed_event = 8

unfoldable pub contains : ClaimMap → ℕ → Bool
contains c generation = any_below c.frames (λ index. c.claim index == generation)

unfoldable pub has_mappings : ClaimMap → Bool
has_mappings c = any_below (c.frames + 2) (λ index. not (c.mapping_slot index == 0))

-- Whether some frame is still claimed.
unfoldable pub has_claims : ClaimMap → Bool
has_claims c = any_below c.frames (λ index. not (c.claim index == 0))

-- The consumer side has acknowledged, and neither a mapping nor a claim is left.
unfoldable pub drained : ClaimMap → Bool
drained c = not (c.quiescent == 0) && (not (has_mappings c) && not (has_claims c))

-- The wakes of `close` and `acknowledge_quiescent` are hints: their results are ignored.
unfoldable pub close : ClaimMap → ClaimMap
close c = record c { active = 0 }

unfoldable pub acknowledge_quiescent : ClaimMap → ClaimMap
acknowledge_quiescent c = record c { quiescent = 1 }

module _ (env : Environment) where
  -- A consumer that has destroyed its reader closes the incarnation; any other failure is reported.
  unfoldable pub signal : ClaimMap → ℕ → Outcome ClaimMap ArenaError (Unit {0})
  signal c interest =
      if bit_and c.wait_interest interest == 0 then (c, ok tt) else elim (env.wake c.incarnation) [
        | signalled ↦ (c, ok tt)
        | disconnected ↦ (record c { active = 0 }, ok tt)
        | failed e ↦ (c, err (notification e))
      ]

  -- The words that `return_credit` writes before it signals.
  unfoldable pub cleared : ClaimMap → ℕ → ClaimMap
  cleared c index = record c {
    release_pending = update c.release_pending index 0;
    claim = update c.claim index 0;
    capacity_epoch = add64 c.capacity_epoch 1;
    active = if c.capacity_epoch == u64_mod - 1 then 0 else c.active;
  }

  unfoldable pub return_credit : ClaimMap → ℕ → ClaimMap
  return_credit c index = (signal (cleared c index) capacity_event).0

-- The first free slot takes the cursor: `find` with `compare_exchange(0, cursor)`.
unfoldable pub claim_slot : ClaimMap → ℕ → ℕ → ClaimMap
claim_slot c index cursor = record c { claim = update c.claim index cursor }
