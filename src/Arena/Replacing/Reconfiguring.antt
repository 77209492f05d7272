-- ===== src/Arena/Replacing/Reconfiguring.antt =====
-- The whole calls of a replacement keep the producer well-formed (`reconfigure_cpu`,
-- `advance_reconfiguration` and `begin_native_reconfiguration` of
-- crates/jackstay/src/acquisition/arena/reconfiguration.rs).
use jackstay.Base.{ℕ, Bool, true, false, not, is_some, if_cases}
use jackstay.Base.Result.{Outcome, ok, err}
use jackstay.Arena.{ArenaError, ArenaProducer, Environment}
use jackstay.Arena.Publishing.Invariant.{IsSound}
use jackstay.Arena.Replacing.{
  ReconfigurationStatus, ready, paused_capacity, start, announced, advance_reconfiguration,
  advance_begun, reconfigure_cpu, begin_native_reconfiguration, advance_with_allocation,
}
use jackstay.Arena.Replacing.Advancing.{advance_with_allocation-IsSound}
use jackstay.Arena.Replacing.Starting.{signal_reconfiguration-IsSound, start-IsSound}

module _ (env : Environment) where
  abbrev Kept : Outcome ArenaProducer ArenaError ReconfigurationStatus → Type 0
  Kept o = IsSound o.0

  announced-IsSound :
      (pending : Bool) (o : Outcome ArenaProducer ArenaError ReconfigurationStatus)
      → IsSound o.0
      → IsSound (announced env pending o).0
  unfolding announced
  announced-IsSound pending (p, err e) v = v
  announced-IsSound pending (p, ok (paused_capacity requested available)) v = v
  announced-IsSound pending (p, ok (ready generation)) v =
      if_cases Kept pending _ _ (λ told. signal_reconfiguration-IsSound env p v) (λ silent. v)

  pub advance_reconfiguration-IsSound :
      (p : ArenaProducer) → IsSound p → IsSound (advance_reconfiguration env p).0
  unfolding advance_reconfiguration
  advance_reconfiguration-IsSound p v =
      if_cases Kept p.native_resources _ _ (λ native. v)
        (λ cpu.
          announced-IsSound (is_some p.pending_layout) (advance_with_allocation env p (ok 0))
            (advance_with_allocation-IsSound env p (ok 0) v))

  advance_begun-IsSound :
      (o : Outcome ArenaProducer ArenaError (Unit {0}))
      → IsSound o.0
      → IsSound (advance_begun env o).0
  unfolding advance_begun
  advance_begun-IsSound (p, err e) v = v
  advance_begun-IsSound (p, ok u) v = advance_reconfiguration-IsSound p v

  pub reconfigure_cpu-IsSound :
      (p : ArenaProducer) (capacity : ℕ) → IsSound p → IsSound (reconfigure_cpu env p capacity).0
  unfolding reconfigure_cpu
  reconfigure_cpu-IsSound p capacity v =
      if_cases Kept p.native_resources _ _ (λ native. v)
        (λ cpu.
          advance_begun-IsSound (start env p capacity 0 false)
            (start-IsSound env p capacity 0 false v))

  pub begin_native_reconfiguration-IsSound :
      (p : ArenaProducer) (external : ℕ)
      → IsSound p
      → IsSound (begin_native_reconfiguration env p external).0
  unfolding begin_native_reconfiguration
  begin_native_reconfiguration-IsSound p external v =
      if_cases (λ (o : Outcome ArenaProducer ArenaError (Unit {0})). IsSound o.0)
        (not p.native_resources) _ _ (λ cpu. v) (λ native. start-IsSound env p 0 external true v)
