-- ===== src/Arena/Lifetime.antt =====
-- Every history of calls of one producer of crates/jackstay/src/acquisition/arena.rs.
use jackstay.Base.{ℕ, ◌<◌, ◌≡◌, ◌∙◌, sym, Bool, Option, List, [], ◌∷◌, u32_mod, u64_mod}
use jackstay.Base.Dict.{Dict}
use jackstay.Admission.{IncarnationRecord}
use jackstay.Arena.Matching.{Matches}
use jackstay.Base.Result.{Result, ok}
use jackstay.Arena.{
  ArenaConfig, ArenaError, ArenaProducer, Environment, FrameDescriptor, Incarnation,
}
use jackstay.Arena.Collecting.{poll_cleanup, stop}
use jackstay.Arena.Publishing.{
  CpuReservation, publish_prepared, reserve, bytes_mut, commit, abandon,
}
use jackstay.Arena.Publishing.Invariant.{
  IsSound, publish_prepared-IsSound, poll_cleanup-IsSound, stop-IsSound,
}
use jackstay.Arena.Publishing.Reserving.{
  Owns, reserve-IsSound, bytes_mut-IsSound, commit-IsSound, abandon-IsSound,
}
use jackstay.Arena.Attaching.{create, attach_with_recipient, disconnect}
use jackstay.Arena.Attaching.Creating.{create-IsSound}
use jackstay.Arena.Attaching.Invariant.{attach_with_recipient-IsSound, disconnect-IsSound}
use jackstay.Arena.Replacing.{
  signal_reconfiguration, advance_with_allocation, advance_reconfiguration, reconfigure_cpu,
  begin_native_reconfiguration,
}
use jackstay.Arena.Replacing.Reconfiguring.{
  advance_reconfiguration-IsSound, reconfigure_cpu-IsSound, begin_native_reconfiguration-IsSound,
}
use jackstay.Arena.Replacing.Advancing.{advance_with_allocation-IsSound}
use jackstay.Arena.Replacing.Starting.{signal_reconfiguration-IsSound}

-- Consumers write nothing but the words of their own claim maps: which incarnations there are, and
-- how many holding slots each has, stays as it is.
abbrev pub SameShape : Dict Incarnation → Dict Incarnation → Type 0
SameShape [] [] = Unit {0}
SameShape [] (x ∷ n) = ⊥
SameShape (x ∷ m) [] = ⊥
SameShape ((k, s) ∷ m) ((j, t) ∷ n) = (k ≡ j) × (t.claims.frames ≡ s.claims.frames) × SameShape m n

SameShape-Matches :
    (m m' : Dict Incarnation) (n : Dict IncarnationRecord)
    → SameShape m m'
    → Matches m n
    → Matches m' n
SameShape-Matches [] [] n h k = k
SameShape-Matches [] (x ∷ m') n h k = absurd h
SameShape-Matches (x ∷ m) [] n h k = absurd h
SameShape-Matches (x ∷ m) (y ∷ m') [] h k = absurd k
SameShape-Matches ((k, s) ∷ m) ((j, t) ∷ m') ((i, r) ∷ n) h e =
    (sym h.0 ∙ e.0, h.1 ∙ e.1, SameShape-Matches m m' n h.2 e.2)

-- One call of the producer, each in an environment of its own, or anything that consumers do.
pub data Call (p : ArenaProducer) : ArenaProducer → Type 0 where
  publishing :
      (env : Environment) (bytes : List ℕ)
      (prepare : ℕ → ℕ → Result ArenaError (Option FrameDescriptor))
      → Call p (publish_prepared env p bytes prepare).0
  reserving : (env : Environment) → Call p (reserve env p).0
  writing :
      (r : CpuReservation) (bytes : List ℕ)
      → Call p (record p { resources = bytes_mut p.control.scope p.resources r bytes })
  committing :
      (env : Environment) (r : CpuReservation) (d : FrameDescriptor)
      → Owns p.resources r
      → Call p (commit env p r d).0
  abandoning : (env : Environment) (r : CpuReservation) → Call p (abandon env p r).0
  attaching :
      (env : Environment) (holding pid : ℕ) (process : Option ℕ)
      → Call p (attach_with_recipient env p holding pid process).0
  disconnecting : (incarnation : ℕ) → Call p (disconnect p incarnation).0
  polling : (env : Environment) → Call p (poll_cleanup env p).0
  stopping : Call p (stop p)
  reconfiguring : (env : Environment) (capacity : ℕ) → Call p (reconfigure_cpu env p capacity).0
  advancing_cpu : (env : Environment) → Call p (advance_reconfiguration env p).0
  replacing_native :
      (env : Environment) (external : ℕ) → Call p (begin_native_reconfiguration env p external).0
  signalling : (env : Environment) → Call p (signal_reconfiguration env p).0
  advancing :
      (env : Environment) (external : Result ArenaError ℕ)
      → Call p (advance_with_allocation env p external).0
  consuming :
      (m : Dict Incarnation) → SameShape p.incarnations m → Call p (record p { incarnations = m })

pub data Calls (p : ArenaProducer) : ArenaProducer → Type 0 where
  start_of : Calls p p
  then_call : {q r : ArenaProducer} → Calls p q → Call q r → Calls p r

Call-IsSound : {p q : ArenaProducer} → Call p q → IsSound p → IsSound q
Call-IsSound {p} (publishing env bytes prepare) v = publish_prepared-IsSound env p bytes prepare v
Call-IsSound {p} (reserving env) v = reserve-IsSound env p v
Call-IsSound {p} (writing r bytes) v = bytes_mut-IsSound p r bytes v
Call-IsSound {p} (committing env r d owned) v = commit-IsSound env p r d v owned
Call-IsSound {p} (abandoning env r) v = abandon-IsSound env p r v
Call-IsSound {p} (attaching env holding pid process) v =
    attach_with_recipient-IsSound env p holding pid process v
Call-IsSound {p} (disconnecting incarnation) v = disconnect-IsSound p incarnation v
Call-IsSound {p} (polling env) v = poll_cleanup-IsSound env p v
Call-IsSound {p} stopping v = stop-IsSound p v
Call-IsSound {p} (reconfiguring env capacity) v = reconfigure_cpu-IsSound env p capacity v
Call-IsSound {p} (advancing_cpu env) v = advance_reconfiguration-IsSound env p v
Call-IsSound {p} (replacing_native env external) v =
    begin_native_reconfiguration-IsSound env p external v
Call-IsSound {p} (signalling env) v = signal_reconfiguration-IsSound env p v
Call-IsSound {p} (advancing env external) v = advance_with_allocation-IsSound env p external v
Call-IsSound {p} (consuming m h) v = record {
  accounts = record {
    book = v.accounts.book;
    matches = SameShape-Matches p.incarnations m p.admission.reservations h v.accounts.matches;
  };
  installed = v.installed;
}

Calls-IsSound : {p q : ArenaProducer} → IsSound p → Calls p q → IsSound q
Calls-IsSound v start_of = v
Calls-IsSound v (then_call calls c) = Call-IsSound c (Calls-IsSound v calls)

-- Take a producer that was created with a capacity and a budget of 32 and 64 bits, and any history
-- of publications, reservations, writes by their owners, commits, abandonments, attachments, closings of incarnations,
-- polls, stops, CPU reconfigurations and their advances, native replacements, advances with an
-- allocator and signals, each in any environment, with the claim words and
-- observers of the incarnations changed in any way in between (only how many frames one may hold
-- is fixed), where a reservation that is committed names a resource of the
-- installed allocation if there is one. The producer is well-formed: its book balances and
-- accounts for exactly the admitted incarnations and their frames, and either the installed
-- allocation has the configured resources and history, with generations that are all different
-- and not ahead of the cursor, or a replacement with these resources and this history is pending.
pub create-Calls-IsSound :
    (env : Environment) (config : ArenaConfig) (external : ℕ) (native : Bool) {p q : ArenaProducer}
    → config.resource_capacity < u32_mod
    → config.memory_budget < u64_mod
    → create env config external native ≡ ok p
    → Calls p q
    → IsSound q
create-Calls-IsSound env config external native w w' e calls =
    Calls-IsSound (create-IsSound env config external native w w' e) calls
