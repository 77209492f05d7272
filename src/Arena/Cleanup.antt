-- ===== src/Arena/Cleanup.antt =====
-- The producer's observer of one incarnation: process exit, the drain deadline and the completion
-- of deferred releases (crates/jackstay/src/acquisition/arena/cleanup.rs).
pub mod Evidence
pub mod Frames
use Prim.Native.String.{String}
use jackstay.Base.{
  ℕ, zero, suc, ◌+◌, ◌-◌, Bool, true, false, not, ◌&&◌, ◌||◌, Option, none, some, List, [], ◌∷◌,
  ltb, leb, ◌==◌, if◌then◌else◌, is_some, length, get_elem?, u64_mod, ◌++◌,
}
use jackstay.Base.Range.{for_each}
use jackstay.Base.Result.{Result, ok, err, Outcome}
use jackstay.Protocol.{update}
use jackstay.Arena.{
  ArenaError, configuration, closed, notification, recovery_required, ClaimMap, Environment,
  ObservationState, Incarnation,
}
use jackstay.Arena.Claims.{acknowledge_quiescent, close, drained, return_credit}

-- A new observer.
unfoldable pub observe : Bool → Option ℕ → ℕ → ObservationState
observe native_resources process drain_timeout = record {
  native_resources = native_resources;
  process = process;
  unresolved_native_claims = 0;
  drain_timeout = drain_timeout;
  drain_deadline = none;
  drain_expired = false;
  timelines = [];
  armed = λ index. false;
  failure = none;
  notification_failed = false;
  released = 0;
}

unfoldable pub fail : Incarnation → String → Incarnation
fail s reason = record {
  claims = close s.claims;
  observer = record s.observer { failure = some reason };
}

unfoldable pub fail_notification : Incarnation → String → Incarnation
fail_notification s reason =
    fail (record s { observer = record s.observer { notification_failed = true } }) reason

-- `usize::saturating_add(1)`.
unfoldable pub count_up : ℕ → ℕ
count_up n = if n == u64_mod - 1 then n else n + 1

-- Why an incarnation needs recovery: a failure that was reported, claims of an exited process
-- without completion evidence, or a drain deadline that has passed.
pub data FailureReason : Type 0 where
  reported : String → FailureReason
  unresolved : ℕ → FailureReason
  deadline_expired : FailureReason

unfoldable pub failure_reason : Incarnation → Option FailureReason
failure_reason s = if drained s.claims then none else elim s.observer.failure [
  | some reason ↦ some (reported reason)
  | none ↦
      if not (s.observer.unresolved_native_claims == 0)
      then some (unresolved s.observer.unresolved_native_claims)
      else if s.observer.drain_expired
      then some deadline_expired
      else none
]

unfoldable pub wake_deadline : Incarnation → Option ℕ
wake_deadline s =
    if drained s.claims || is_some (failure_reason s) then none else s.observer.drain_deadline

-- A process whose exit is known: every mapping word is cleared, since no thread of it can read or
-- claim any more.
unfoldable pub exit_observed : Incarnation → Incarnation
exit_observed s = record {
  claims = record (acknowledge_quiescent (close s.claims)) { mapping_slot = λ index. 0 };
  observer = record s.observer { process = none };
}

-- `id.checked_sub(1).and_then(|id| self.timelines.get(id as usize))`.
unfoldable pub timeline_of : List ℕ → ℕ → Option ℕ
timeline_of timelines id = if id == 0 then none else get_elem? timelines (id - 1)

module _ (env : Environment) where
  -- Credit goes back, and is counted for the next `poll_cleanup`.
  unfoldable pub release : Incarnation → ℕ → Incarnation
  release s index = record {
    claims = return_credit env s.claims index;
    observer = record s.observer { released = count_up s.observer.released };
  }

  -- One claim of an exited process.
  unfoldable pub recover_slot : ℕ → Incarnation → Incarnation
  recover_slot index s =
      let pending = s.claims.release_pending index in
      if s.claims.claim index == 0
      then s
      else if pending == 1 || pending == 2
      then record s {
        claims = record s.claims { release_pending = update s.claims.release_pending index 2 };
      }
      else if pending == 0
      then if not s.observer.native_resources && length s.observer.timelines == 0
        then release s index
        else record s {
          observer = record s.observer {
            unresolved_native_claims = s.observer.unresolved_native_claims + 1;
          };
        }
      else fail s "invalid release state at process exit"

  -- The process is known to have exited.
  unfoldable pub recover : Incarnation → Incarnation
  recover s = for_each s.claims.frames 0 recover_slot (exit_observed s)

  unfoldable pub observe_exit : Incarnation → Result String Bool → Incarnation
  observe_exit s (ok false) = s
  observe_exit s (ok true) = recover s
  observe_exit s (err e) =
      fail_notification (record s { observer = record s.observer { process = none } }) e

  unfoldable pub observe_process : Incarnation → Incarnation
  observe_process s = elim s.observer.process [
    | none ↦ s
    | some process ↦ observe_exit s (env.exited process)
  ]

  -- The deadline is set once, and expires when the clock has reached it.
  unfoldable pub set_deadline : Incarnation → Incarnation
  set_deadline s = elim s.observer.drain_deadline [
    | some deadline ↦ s
    | none ↦ elim (env.deadline_after s.observer.drain_timeout) [
      | some deadline ↦ record s { observer = record s.observer { drain_deadline = some deadline } }
      | none ↦ fail s "drain deadline is not representable; resources remain quarantined"
    ]
  ]

  unfoldable pub expire : Incarnation → Incarnation
  expire s = elim s.observer.drain_deadline [
    | none ↦ s
    | some deadline ↦
        if leb deadline env.now
        then record s { observer = record s.observer { drain_expired = true } }
        else s
  ]

  unfoldable pub observe_deadline : Incarnation → Incarnation
  observe_deadline s =
      if not (s.claims.active == 0) || drained s.claims then s else expire (set_deadline s)

  -- Credit for a completed release that the consumer has finished with, or an armed notification
  -- for an incomplete one.
  unfoldable pub settle : ℕ → ℕ → ℕ → Incarnation → ℕ → Incarnation × Bool
  settle index timeline value s completed =
      if leb value completed && s.claims.release_pending index == 2
      then (release s index, true)
      else if ltb completed value && not (s.observer.armed index)
      then elim (env.notify_at timeline value) [
        | ok u ↦ (
          record s {
            observer = record s.observer {
              armed = λ other. if other == index then true else s.observer.armed other;
            };
          },
          true,
        )
        | err e ↦ (fail s e, false)
      ]
      else (s, true)

  -- A deferred release of one slot; false leaves the loop.
  unfoldable pub poll_release : ℕ → Incarnation → Incarnation × Bool
  poll_release index s = elim (timeline_of s.observer.timelines (s.claims.release_id index)) [
    | none ↦ (fail s "deferred release names an unregistered timeline", false)
    | some timeline ↦ elim (env.completed_value timeline) [
      | err e ↦ (fail s e, false)
      | ok completed ↦ settle index timeline (s.claims.release_value index) s completed
    ]
  ]

  unfoldable pub disarm : ℕ → Incarnation → Incarnation
  disarm index s = record s {
    observer = record s.observer {
      armed = λ other.
          if other == index && env.has_fired s.claims.incarnation index
          then false
          else s.observer.armed other;
    };
  }

  unfoldable pub poll_slot : ℕ → Incarnation → Incarnation × Bool
  poll_slot index s =
      let pending = s.claims.release_pending index in
      if pending == 0
      then (disarm index s, true)
      else if pending == 1 || pending == 2
      then poll_release index (disarm index s)
      else (fail (disarm index s) "invalid deferred release state", false)

  unfoldable pub poll_slots : ℕ → ℕ → Incarnation → Incarnation
  poll_slots zero index s = s
  poll_slots (suc n) index s =
      let (s', more) = poll_slot index s in
      let rest = poll_slots n (suc index) s' in if more then rest else s'

  unfoldable pub poll : Incarnation → Incarnation
  poll s =
      let s' = observe_deadline (observe_process s) in
      if is_some s'.observer.failure then s' else poll_slots s'.claims.frames 0 s'

  -- `register_release_timeline`, once the incarnation is found.
  unfoldable pub register : Incarnation → ℕ → Incarnation × Result ArenaError ℕ
  register s timeline =
      let index = length s.observer.timelines in
      if s.claims.active == 0
      then (s, err closed)
      else if leb s.claims.frames index
      then (s, err (configuration "release timeline capacity equals the holding reservation"))
      else (
        record {
          claims = record s.claims {
            registered_timeline = update s.claims.registered_timeline index (index + 1);
          };
          observer = record s.observer { timelines = s.observer.timelines ++ timeline ∷ [] };
        },
        ok (index + 1),
      )
