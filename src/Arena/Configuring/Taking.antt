-- ===== src/Arena/Configuring/Taking.antt =====
-- What the acquisitions of arena.rs do to the words of the claim map.
use jackstay.Base.{
  ℕ, ◌+◌, ◌-◌, ◌≡◌, ◌≢◌, refl, subst, inl, inr, not, ◌||◌, Option, none, some, arith, Option-cases,
  if_cases, ltb, ◌==◌, if◌then◌else◌,
}
use jackstay.Base.Range.{find_from-some}
use jackstay.Base.Result.{Result, Result-cases, Outcome, ok, err}
use jackstay.Protocol.{ring_word, live_word}
use jackstay.Arena.{ArenaError, configuration, mapping, ClaimMap, Environment, ResourceMap}
use jackstay.Arena.Claims.{claim_slot, return_credit, cleared, signal}
use jackstay.Arena.Acquiring.{
  AcquireOutcome, ArenaConsumer, FrameLease, frame, empty, miss, gap, holding_limit,
  reconfiguration, closed, is_closed, is_configured, contradicts, oldest_visible, free_slot,
  unclaimed, validate, acquire_from, acquire, checked, acquire_latest, acquire_next, acquire_exact,
}

-- The words of the mappings stay, no claim is lost, and a frame has taken a free claim slot.
pub record Taken (c : ClaimMap) (o : Outcome ClaimMap ArenaError AcquireOutcome) : Type 0 where
  pub frames : o.0.frames ≡ c.frames
  pub words : (m : ℕ) → o.0.mapping_slot m ≡ c.mapping_slot m
  pub offered : o.0.offered_generation ≡ c.offered_generation
  pub claim : (j : ℕ) → o.0.claim j ≡ 0 → c.claim j ≡ 0
  pub lease : (l : FrameLease) → o.1 ≡ ok (frame l) → (c.claim l.slot ≡ 0) × (o.0.claim l.slot ≢ 0)

-- Not a frame.
abbrev NoFrame : Result ArenaError AcquireOutcome → Type 0
NoFrame (err e) = Unit {0}
NoFrame (ok (frame l)) = ⊥
NoFrame (ok o) = Unit {0}

NoFrame-ne : (r : Result ArenaError AcquireOutcome) (l : FrameLease) → NoFrame r → r ≢ ok (frame l)
NoFrame-ne r l h e = subst NoFrame e h

untouched : (c : ClaimMap) (r : Result ArenaError AcquireOutcome) → NoFrame r → Taken c (c, r)
untouched c r h = record {
  frames = refl;
  words = λ m. refl;
  offered = refl;
  claim = λ j e. e;
  lease = λ l e. absurd (NoFrame-ne r l h e);
}

-- What giving credit back does to the words.
pub record Returned (c u : ClaimMap) (slot : ℕ) : Type 0 where
  pub frames : u.frames ≡ c.frames
  pub words : (m : ℕ) → u.mapping_slot m ≡ c.mapping_slot m
  pub offered : u.offered_generation ≡ c.offered_generation
  pub claim : (j : ℕ) → u.claim j ≡ (if j == slot then 0 else c.claim j)

module _ (env : Environment) where
  pub return_credit-Returned :
      (c : ClaimMap) (slot : ℕ) → Returned c (return_credit env c slot) slot
  unfolding return_credit cleared signal
  return_credit-Returned c slot = record {
    frames = ground arith;
    words = λ m. ground arith;
    offered = ground arith;
    claim = λ j. ground arith;
  }

  unclaimed-Taken :
      (c : ArenaConsumer) (slot cursor : ℕ) (r : Result ArenaError AcquireOutcome)
      → c.claims.claim slot ≡ 0
      → NoFrame r
      → Taken c.claims
          (unclaimed env (record c { claims = claim_slot c.claims slot cursor }) slot r)
  unfolding unclaimed claim_slot
  unclaimed-Taken c slot cursor r free h =
      let b = return_credit-Returned (claim_slot c.claims slot cursor) slot in
      record {
        frames = b.frames;
        words = b.words;
        offered = b.offered;
        claim = λ j e. ground (arith, b.claim j);
        lease = λ l e. absurd (NoFrame-ne r l h e);
      }

  validate-Taken :
      (c : ArenaConsumer) (map : ResourceMap) (index cursor slot : ℕ)
      → c.claims.claim slot ≡ 0
      → cursor ≢ 0
      → Taken c.claims (
          validate env
            (record c { claims = claim_slot c.claims slot cursor })
            map
            index
            cursor
            slot)
  unfolding validate claim_slot
  validate-Taken c map index cursor slot free some_cursor =
      if_cases (Taken c.claims) (not (map.state index == live_word cursor)) _ _
        (λ e. unclaimed-Taken c slot cursor (ok (miss cursor)) free tt)
        (λ live.
          if_cases (Taken c.claims)
            (is_closed (record c { claims = claim_slot c.claims slot cursor })) _ _
            (λ e. unclaimed-Taken c slot cursor (ok closed) free tt)
            (λ still.
              if_cases (Taken c.claims)
                (not (is_configured (record c { claims = claim_slot c.claims slot cursor }))) _ _
                (λ e. unclaimed-Taken c slot cursor (ok reconfiguration) free tt)
                (λ usable.
                  if_cases (Taken c.claims) (contradicts map index cursor (map.descriptor index)) _
                    _
                    (λ e.
                      unclaimed-Taken c slot cursor
                        (err (mapping "leased descriptor contradicts resource identity or bounds"))
                        free tt)
                    (λ fits. elim (Result-cases (c.validate_descriptor (map.descriptor index))) [
                      | inr (x, e) ↦ rw e (unclaimed-Taken c slot cursor (err x) free tt)
                      | inl (u, e) ↦ rw e (record {
                        frames = refl;
                        words = λ m. refl;
                        offered = refl;
                        claim = λ j k. ground arith;
                        lease = λ l k. ground arith;
                      })
                    ]))))

  acquire_from-Taken :
      (c : ArenaConsumer) (map : ResourceMap) (cursor : ℕ)
      → cursor ≢ 0
      → Taken c.claims (acquire_from env c map cursor)
  unfolding acquire_from free_slot
  acquire_from-Taken c map cursor some_cursor =
      if_cases (Taken c.claims)
        (c.control.ring (ring_word cursor c.control.history) == 0
          || ltb map.layout.resources (c.control.ring (ring_word cursor c.control.history)))
        _ _ (λ e. untouched c.claims (err (mapping "advertised resource index is invalid")) tt)
        (λ there. elim (Option-cases (free_slot c.claims)) [
          | inl e ↦ rw e (untouched c.claims (ok holding_limit) tt)
          | inr (slot, e) ↦
              let (a, b, free) =
                find_from-some c.claims.frames 0 slot (λ i. c.claims.claim i == 0) e in
              rw e (validate-Taken c map _ cursor slot (ground arith) some_cursor)
        ])

  acquire-Taken :
      (c : ArenaConsumer) (cursor : ℕ) → cursor ≢ 0 → Taken c.claims (acquire env c cursor)
  unfolding acquire
  acquire-Taken c cursor some_cursor =
      installed c.resources (λ map. acquire_from-Taken c map cursor some_cursor)
    where
      installed :
          (o : Option ResourceMap)
          → ((map : ResourceMap) → Taken c.claims (acquire_from env c map cursor))
          → Taken c.claims (elim o [
            | none ↦ (c.claims, ok reconfiguration)
            | some map ↦ acquire_from env c map cursor
          ])
      installed none h = untouched c.claims (ok reconfiguration) tt
      installed (some map) h = h map

  checked-Taken :
      (c : ArenaConsumer) (o : Outcome ClaimMap ArenaError AcquireOutcome)
      → Taken c.claims o
      → Taken c.claims (checked env c o)
  unfolding checked
  checked-Taken c o t =
      if_cases (Taken c.claims) (is_closed c) _ _ (λ e. untouched c.claims (ok closed) tt)
        (λ still.
          if_cases (Taken c.claims) (not (is_configured c)) _ _
            (λ e. untouched c.claims (ok reconfiguration) tt) (λ usable. t))

  pub acquire_latest-Taken :
      (c : ArenaConsumer) (after : ℕ) → Taken c.claims (acquire_latest env c after)
  unfolding acquire_latest
  acquire_latest-Taken c after = checked-Taken c _ (
      if_cases (Taken c.claims)
        (c.control.latest == 0
          || (not (ltb after c.control.latest) || ltb c.control.latest c.control.first_cursor))
        _ _ (λ e. untouched c.claims (ok empty) tt)
        (λ e. acquire-Taken c c.control.latest (ground arith)))

  pub acquire_next-Taken :
      (c : ArenaConsumer) (after : ℕ)
      → c.control.first_cursor ≢ 0
      → Taken c.claims (acquire_next env c after)
  unfolding acquire_next oldest_visible
  acquire_next-Taken c after numbered =
      let oldest = oldest_visible c.control in
      let cursor = if after == 0 then oldest else after + 1 in
      checked-Taken c _ (
        if_cases (Taken c.claims) (c.control.latest == 0 || not (ltb after c.control.latest)) _ _
          (λ e. untouched c.claims (ok empty) tt)
          (λ there.
            if_cases (Taken c.claims) (ltb cursor oldest) _ _
              (λ e. untouched c.claims (ok (gap cursor (oldest - 1))) tt)
              (λ visible.
                if_cases (Taken c.claims) (ltb c.control.latest cursor) _ _
                  (λ e. untouched c.claims (ok empty) tt)
                  (λ e. acquire-Taken c cursor (ground arith)))))

  pub acquire_exact-Taken :
      (c : ArenaConsumer) (cursor : ℕ) → Taken c.claims (acquire_exact env c cursor)
  unfolding acquire_exact
  acquire_exact-Taken c cursor =
      if_cases (Taken c.claims) (cursor == 0) _ _
        (λ e. untouched c.claims (err (configuration "frame cursors start at one")) tt)
        (λ some_cursor. checked-Taken c _ (
          if_cases (Taken c.claims) (ltb c.control.latest cursor) _ _
            (λ e. untouched c.claims (ok empty) tt)
            (λ there.
              if_cases (Taken c.claims) (ltb cursor (oldest_visible c.control)) _ _
                (λ e. untouched c.claims (ok (miss cursor)) tt)
                (λ e. acquire-Taken c cursor (ground arith)))))
