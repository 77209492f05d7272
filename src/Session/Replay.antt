-- ===== src/Session/Replay.antt =====
-- What a late subscriber learns from `replay_events`.
use jackstay.Base.{
  ℕ, ◌≡◌, refl, ◌∙◌, ap, inl, inr, not, Option, none, some, List, [], ◌∷◌, ◌++◌, ◌==◌, Option-cases,
}
use jackstay.Base.Dict.{Dict, lookup, insert, remove, retain}
use jackstay.Base.Every.{Every, Every-insert, Every-remove, Every-retain, Every-lookup}
use jackstay.Session.{
  producer_started, source_registered, source_updated, track_registered, track_updated,
  source_unregistered, producer_stopped, SourceRegistration, TrackRegistration, SessionEvent,
  SessionState, new, source_event, track_event, push, register_source, update_source,
  unregister_source, source, register_track, update_track, Call, registers, updates, unregisters,
  tracks_on, retracks, step, run,
}

-- What a subscriber knows: sources and tracks under their identities.
pub record View (S T : Type 0) : Type 0 where
  pub sources : Dict (SourceRegistration S)
  pub tracks : Dict (TrackRegistration T)

module _ {S T : Type 0} where
  abbrev pub see_source : View S T → Option ℕ → Option S → View S T
  see_source v none d = v
  see_source v (some id) none = v
  see_source v (some id) (some desc) = record v {
    sources = insert id (record { source_id = id; desc = desc }) v.sources;
  }

  abbrev pub see_track : View S T → Option ℕ → Option ℕ → Option T → View S T
  see_track v none src d = v
  see_track v (some id) none d = v
  see_track v (some id) (some src) none = v
  see_track v (some id) (some src) (some desc) = record v {
    tracks = insert id (record { track_id = id; source_id = src; desc = desc }) v.tracks;
  }

  abbrev pub forget_source : View S T → Option ℕ → View S T
  forget_source v none = v
  forget_source v (some id) = record {
    sources = remove id v.sources;
    tracks = retain (λ k t. not (t.source_id == id)) v.tracks;
  }

  -- How a subscriber reads an event: by what it carries.
  abbrev pub see : View S T → SessionEvent S T → View S T
  see v e = elim e.kind [
    | producer_started ↦ v
    | source_registered ↦ see_source v e.source e.source_desc
    | source_updated ↦ see_source v e.source e.source_desc
    | track_registered ↦ see_track v e.track e.source e.track_desc
    | track_updated ↦ see_track v e.track e.source e.track_desc
    | source_unregistered ↦ forget_source v e.source
    | producer_stopped ↦ v
  ]

  unfoldable pub replay : View S T → List (SessionEvent S T) → View S T
  replay v [] = v
  replay v (e ∷ es) = replay (see v e) es

  abbrev pub blank : View S T
  blank = record { sources = []; tracks = [] }

  abbrev pub view : SessionState S T → View S T
  view s = record { sources = s.sources; tracks = s.tracks }

  replay-append :
      (v : View S T) (es fs : List (SessionEvent S T))
      → replay v (es ++ fs) ≡ replay (replay v es) fs
  unfolding replay
  replay-append v [] fs = refl
  replay-append v (e ∷ es) fs = replay-append (see v e) es fs

  -- Registrations carry the identity they stand under, and the events tell of all of them.
  record Told (s : SessionState S T) : Type 0 where
    source_keys : Every (λ (k : ℕ) (r : SourceRegistration S). r.source_id ≡ k) s.sources
    track_keys : Every (λ (k : ℕ) (r : TrackRegistration T). r.track_id ≡ k) s.tracks
    told : replay blank s.events ≡ view s

  told-push :
      (s : SessionState S T) (e : SessionEvent S T) {es : List (SessionEvent S T)} {v : View S T}
      → replay blank s.events ≡ view s
      → es ≡ s.events ++ (e ∷ [])
      → see (view s) e ≡ v
      → replay blank es ≡ v
  unfolding replay
  told-push s e h p q =
      ap (replay blank) p ∙ replay-append blank s.events (e ∷ []) ∙ ap (λ v. see v e) h ∙ q

  step-Told : (s : SessionState S T) (c : Call S T) → Told s → Told (step s c)
  unfolding step register_source update_source unregister_source register_track source update_track
  step-Told s (registers desc) v = record {
    source_keys = Every-insert _ s.next_source_id _ s.sources refl v.source_keys;
    track_keys = v.track_keys;
    told = told-push s _ v.told refl refl;
  }
  step-Told s (updates id desc) v = elim (Option-cases (lookup id s.sources)) [
    | inl e ↦ rw (e, step, update_source) v
    | inr (r, e) ↦
        rw (e, step, update_source) (updated r (Every-lookup _ id r s.sources v.source_keys e))
  ]
    where
      updated :
          (r : SourceRegistration S)
          → r.source_id ≡ id
          → Told (
              push
                (record s { sources = insert id (record r { desc = desc }) s.sources })
                (source_event source_updated id (some desc)))
      updated r k = record {
        source_keys = Every-insert _ id _ s.sources k v.source_keys;
        track_keys = v.track_keys;
        told = told-push s (source_event source_updated id (some desc)) v.told refl (rw k refl);
      }
  step-Told s (unregisters id) v = elim (Option-cases (lookup id s.sources)) [
    | inl e ↦ rw (e, step, unregister_source) v
    | inr (r, e) ↦
        rw (e, step, unregister_source)
          (record {
            source_keys = Every-remove _ id s.sources v.source_keys;
            track_keys = Every-retain _ _ _ s.tracks (λ k t p q. p) v.track_keys;
            told = told-push s _ v.told refl refl;
          })
  ]
  step-Told s (tracks_on id desc) v = elim (Option-cases (lookup id s.sources)) [
    | inl e ↦ rw (e, step, register_track, source) v
    | inr (r, e) ↦
        rw (e, step, register_track, source)
          (record {
            source_keys = v.source_keys;
            track_keys = Every-insert _ s.next_track_id _ s.tracks refl v.track_keys;
            told = told-push s _ v.told refl refl;
          })
  ]
  step-Told s (retracks id desc) v = elim (Option-cases (lookup id s.tracks)) [
    | inl e ↦ rw (e, step, update_track) v
    | inr (r, e) ↦
        rw (e, step, update_track) (updated r (Every-lookup _ id r s.tracks v.track_keys e))
  ]
    where
      updated :
          (r : TrackRegistration T)
          → r.track_id ≡ id
          → Told (
              push
                (record s { tracks = insert id (record r { desc = desc }) s.tracks })
                (track_event track_updated id r.source_id desc))
      updated r k = record {
        source_keys = v.source_keys;
        track_keys = Every-insert _ id _ s.tracks k v.track_keys;
        told = told-push s (track_event track_updated id r.source_id desc) v.told refl (rw k refl);
      }

  run-Told : (s : SessionState S T) (cs : List (Call S T)) → Told s → Told (run s cs)
  unfolding run
  run-Told s [] v = v
  run-Told s (c ∷ cs) v = run-Told (step s c) cs (step-Told s c v)

  -- The events tell everything: a subscriber that reads `replay_events` of a session after any
  -- history of calls knows exactly its registered sources and tracks, with their last descriptors.
  pub replay-run : (cs : List (Call S T)) → replay blank (run new cs).events ≡ view (run new cs)
  unfolding replay
  replay-run cs = (run-Told new cs (record { source_keys = tt; track_keys = tt; told = refl })).told
