-- ===== src/Session/References.antt =====
-- Tracks refer to registered sources.
use jackstay.Base.{
  ℕ, ◌≡◌, refl, sym, subst, inl, inr, true, false, not, some, List, [], ◌∷◌, arith, ◌==◌, is_some,
  Option-cases,
}
use jackstay.Base.Result.{ok}
use jackstay.Base.Dict.{Dict, lookup, insert, remove, lookup-insert, lookup-remove}
use jackstay.Base.Every.{Every, Every-insert, Every-map, Every-retain, Every-lookup}
use jackstay.Session.{
  SourceRegistration, TrackRegistration, SessionState, new, register_source, update_source,
  unregister_source, source, track, register_track, update_track, Call, registers, updates,
  unregisters, tracks_on, retracks, step, run,
}

module _ {S T : Type 0} where
  abbrev On : Dict (SourceRegistration S) → ℕ → TrackRegistration T → Type 0
  On sources k t = is_some (lookup t.source_id sources) ≡ true

  -- Every track stands on a source of the dictionary.
  abbrev Backed : SessionState S T → Type 0
  Backed s = Every (On s.sources) s.tracks

  inserted :
      (id : ℕ) (r : SourceRegistration S) (m : Dict (SourceRegistration S)) (k : ℕ)
      (t : TrackRegistration T)
      → On m k t
      → On (insert id r m) k t
  inserted id r m k t h = ground (arith, lookup-insert t.source_id id r m)

  removed :
      (id : ℕ) (m : Dict (SourceRegistration S)) (k : ℕ) (t : TrackRegistration T)
      → On m k t
      → not (t.source_id == id) ≡ true
      → On (remove id m) k t
  removed id m k t h n = ground (arith, lookup-remove t.source_id id m)

  step-Backed : (s : SessionState S T) (c : Call S T) → Backed s → Backed (step s c)
  unfolding step register_source update_source unregister_source register_track source update_track
  step-Backed s (registers desc) v = Every-map _ _ s.tracks (inserted _ _ s.sources) v
  step-Backed s (updates id desc) v = elim (Option-cases (lookup id s.sources)) [
    | inl e ↦ rw (e, step, update_source) v
    | inr (r, e) ↦
        rw (e, step, update_source)
          (Every-map _ _ s.tracks (inserted id (record r { desc = desc }) s.sources) v)
  ]
  step-Backed s (unregisters id) v = elim (Option-cases (lookup id s.sources)) [
    | inl e ↦ rw (e, step, unregister_source) v
    | inr (r, e) ↦
        rw (e, step, unregister_source) (Every-retain _ _ _ s.tracks (removed id s.sources) v)
  ]
  step-Backed s (tracks_on id desc) v = elim (Option-cases (lookup id s.sources)) [
    | inl e ↦ rw (e, step, register_track, source) v
    | inr (r, e) ↦
        rw (e, step, register_track, source)
          (Every-insert (On s.sources) s.next_track_id _ s.tracks
            (subst (λ o. is_some o ≡ true) (sym e) refl) v)
  ]
  step-Backed s (retracks id desc) v = elim (Option-cases (lookup id s.tracks)) [
    | inl e ↦ rw (e, step, update_track) v
    | inr (r, e) ↦
        rw (e, step, update_track)
          (Every-insert (On s.sources) id _ s.tracks (Every-lookup (On s.sources) id r s.tracks v e)
            v)
  ]

  run-Backed : (s : SessionState S T) (cs : List (Call S T)) → Backed s → Backed (run s cs)
  unfolding run
  run-Backed s [] v = v
  run-Backed s (c ∷ cs) v = run-Backed (step s c) cs (step-Backed s c v)

  track-lookup :
      (s : SessionState S T) (id : ℕ) (t : TrackRegistration T)
      → track s id ≡ ok t
      → lookup id s.tracks ≡ some t
  unfolding track
  track-lookup s id t h = ground arith

  source-lookup :
      (s : SessionState S T) (id : ℕ)
      → is_some (lookup id s.sources) ≡ true
      → (r : SourceRegistration S) × (source s id ≡ ok r)
  unfolding source
  source-lookup s id h = elim (Option-cases (lookup id s.sources)) [
    | inl e ↦ absurd (no_source (subst (λ o. is_some o ≡ true) e h))
    | inr (r, e) ↦ (r, rw (e, source) refl)
  ]
    where
      no_source : false ≡ true → ⊥
      no_source h = cc

  -- A track that the session knows has a source that it knows, after any history of calls.
  pub source-track :
      (cs : List (Call S T)) (id : ℕ) (t : TrackRegistration T)
      → track (run new cs) id ≡ ok t
      → (r : SourceRegistration S) × (source (run new cs) t.source_id ≡ ok r)
  source-track cs id t h = source-lookup (run new cs) t.source_id (
      Every-lookup (On (run new cs).sources) id t (run new cs).tracks (run-Backed new cs tt)
        (track-lookup (run new cs) id t h))
