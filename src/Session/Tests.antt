-- ===== src/Session/Tests.antt =====
-- Tests of the session state, and the instances at which its theorems are applied.
use jackstay.Base.{ℕ, ◌≡◌, refl, List, [], ◌∷◌, length}
use jackstay.Base.Result.{ok}
use jackstay.Base.Dict.{lookup, insert, remove, retain}
use jackstay.Session.{
  SourceRegistration, new, register_source, update_source, unregister_source, source, track,
  register_track, update_track, Call, registers, updates, unregisters, tracks_on, step, run,
}
use jackstay.Session.Replay.{replay, blank, view, replay-run}
use jackstay.Session.References.{source-track}

abbrev history : List (Call ℕ ℕ)
history =
    registers 10
    ∷ registers 20
    ∷ tracks_on 1 100
    ∷ tracks_on 2 200
    ∷ tracks_on 9 900
    ∷ updates 2 21
    ∷ unregisters 1
    ∷ []

history_lem : length (run new history).tracks ≡ 1
unfolding run step register_source update_source unregister_source register_track update_track
    lookup insert remove retain
history_lem = refl

events_lem : length (run new history).events ≡ 6
unfolding run step register_source update_source unregister_source register_track update_track
    lookup insert remove retain
events_lem = refl

track_lem : track (run new history) 2 ≡ ok (record { track_id = 2; source_id = 2; desc = 200 })
unfolding run step register_source update_source unregister_source track register_track update_track
    lookup insert remove retain
track_lem = refl

replay-run_example : replay blank (run new history).events ≡ view (run new history)
replay-run_example = replay-run history

source-track_example : (r : SourceRegistration ℕ) × (source (run new history) 2 ≡ ok r)
source-track_example =
    source-track history 2 (record { track_id = 2; source_id = 2; desc = 200 }) track_lem
