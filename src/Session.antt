-- ===== src/Session.antt =====
-- The session state of crates/jackstay/src/state.rs: the registered sources and their tracks, and
-- the events that tell of them. The descriptors are whatever the client describes, and an identity
-- is its number.
pub mod Replay
pub mod References
mod Tests
use jackstay.Base.{
  ℕ, ◌+◌, Bool, not, Option, none, some, List, [], ◌∷◌, ◌++◌, ◌==◌, if◌then◌else◌, is_some, add64,
}
use jackstay.Base.Result.{Result, ok, err, Outcome}
use jackstay.Base.Dict.{Dict, lookup, insert, remove, retain}

pub data EventKind : Type 0 where
  producer_started source_registered source_updated track_registered : EventKind
  track_updated source_unregistered producer_stopped : EventKind

pub data SessionError : Type 0 where
  unknown_source unknown_track : ℕ → SessionError

pub record SourceRegistration (S : Type 0) : Type 0 where
  pub source_id : ℕ
  pub desc : S

pub record TrackRegistration (T : Type 0) : Type 0 where
  pub track_id : ℕ
  pub source_id : ℕ
  pub desc : T

pub record SessionEvent (S T : Type 0) : Type 0 where
  pub kind : EventKind
  pub source : Option ℕ
  pub track : Option ℕ
  pub source_desc : Option S
  pub track_desc : Option T

pub record SessionState (S T : Type 0) : Type 0 where
  pub next_source_id : ℕ
  pub next_track_id : ℕ
  pub sources : Dict (SourceRegistration S)
  pub tracks : Dict (TrackRegistration T)
  pub events : List (SessionEvent S T)

module _ {S T : Type 0} where
  abbrev pub new : SessionState S T
  new = record { next_source_id = 1; next_track_id = 1; sources = []; tracks = []; events = [] }

  abbrev pub source_event : EventKind → ℕ → Option S → SessionEvent S T
  source_event kind id desc = record {
    kind = kind;
    source = some id;
    track = none;
    source_desc = desc;
    track_desc = none;
  }

  abbrev pub track_event : EventKind → ℕ → ℕ → T → SessionEvent S T
  track_event kind track source desc = record {
    kind = kind;
    source = some source;
    track = some track;
    source_desc = none;
    track_desc = some desc;
  }

  abbrev pub push : SessionState S T → SessionEvent S T → SessionState S T
  push s e = record s { events = s.events ++ (e ∷ []) }

  unfoldable pub register_source : SessionState S T → S → Outcome (SessionState S T) SessionError ℕ
  register_source s desc =
      let id = s.next_source_id in
      (
        push
            (record s {
              next_source_id = add64 id 1;
              sources = insert id (record { source_id = id; desc = desc }) s.sources;
            })
            (source_event source_registered id (some desc)),
        ok id,
      )

  unfoldable pub update_source :
      SessionState S T → ℕ → S → Outcome (SessionState S T) SessionError (Unit {0})
  update_source s id desc = elim (lookup id s.sources) [
    | none ↦ (s, err (unknown_source id))
    | some r ↦ (
      push (record s { sources = insert id (record r { desc = desc }) s.sources })
          (source_event source_updated id (some desc)),
      ok tt,
    )
  ]

  unfoldable pub unregister_source :
      SessionState S T → ℕ → Outcome (SessionState S T) SessionError (Unit {0})
  unregister_source s id = elim (lookup id s.sources) [
    | none ↦ (s, err (unknown_source id))
    | some r ↦ (
      push
          (record s {
            sources = remove id s.sources;
            tracks = retain (λ k t. not (t.source_id == id)) s.tracks;
          })
          (source_event source_unregistered id none),
      ok tt,
    )
  ]

  unfoldable pub source : SessionState S T → ℕ → Result SessionError (SourceRegistration S)
  source s id = elim (lookup id s.sources) [ none ↦ err (unknown_source id) | some r ↦ ok r ]

  unfoldable pub track : SessionState S T → ℕ → Result SessionError (TrackRegistration T)
  track s id = elim (lookup id s.tracks) [ none ↦ err (unknown_track id) | some r ↦ ok r ]

  unfoldable pub register_track :
      SessionState S T → ℕ → T → Outcome (SessionState S T) SessionError ℕ
  unfolding source
  register_track s source_id desc = elim (source s source_id) [
    | err e ↦ (s, err e)
    | ok r ↦
        let id = s.next_track_id in
        (
          push
              (record s {
                next_track_id = add64 id 1;
                tracks =
                    insert id (record { track_id = id; source_id = source_id; desc = desc })
                      s.tracks;
              })
              (track_event track_registered id source_id desc),
          ok id,
        )
  ]

  unfoldable pub update_track :
      SessionState S T → ℕ → T → Outcome (SessionState S T) SessionError (Unit {0})
  update_track s id desc = elim (lookup id s.tracks) [
    | none ↦ (s, err (unknown_track id))
    | some r ↦ (
      push (record s { tracks = insert id (record r { desc = desc }) s.tracks })
          (track_event track_updated id r.source_id desc),
      ok tt,
    )
  ]

-- The methods that take `&mut self`: `tracks_on source desc` registers a track.
pub data Call (S T : Type 0) : Type 0 where
  registers : S → Call S T
  updates : ℕ → S → Call S T
  unregisters : ℕ → Call S T
  tracks_on retracks : ℕ → T → Call S T

module _ {S T : Type 0} where
  unfoldable pub step : SessionState S T → Call S T → SessionState S T
  step s (registers desc) = (register_source s desc).0
  step s (updates id desc) = (update_source s id desc).0
  step s (unregisters id) = (unregister_source s id).0
  step s (tracks_on id desc) = (register_track s id desc).0
  step s (retracks id desc) = (update_track s id desc).0

  unfoldable pub run : SessionState S T → List (Call S T) → SessionState S T
  run s [] = s
  run s (c ∷ cs) = run (step s c) cs
