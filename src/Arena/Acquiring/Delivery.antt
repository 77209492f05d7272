-- ===== src/Arena/Acquiring/Delivery.antt =====
-- A published frame reaches the consumer (`acquire_latest` of
-- crates/jackstay/src/acquisition/arena.rs).
use jackstay.Base.{
  ℕ, ◌+◌, ◌-◌, ◌≤◌, ◌<◌, ◌≡◌, refl, ap, ◌∙◌, true, false, Option, none, some, List, length, arith,
  ltb, ◌==◌, not, ◌||◌,
}
use jackstay.Base.Result.{Outcome, ok}
use jackstay.Protocol.{live_word, ring_word}
use jackstay.Arena.{
  ArenaError, ArenaProducer, ClaimMap, Environment, FrameDescriptor, published, ResourceMap,
}
use jackstay.Arena.Layout.{payload_offset}
use jackstay.Arena.Claims.{claim_slot}
use jackstay.Arena.Publishing.{publish}
use jackstay.Arena.Publishing.Invariant.{IsSound}
use jackstay.Arena.Acquiring.{
  AcquireOutcome, ArenaConsumer, FrameLease, frame, free_slot, is_closed, is_configured,
  lease_bytes, reconfiguration, contradicts, validate, acquire_from, acquire, checked,
  acquire_latest,
}
use jackstay.Arena.Publishing.Showing.{Shows, labelled, publish-Shown}

module _ (env : Environment) where
  labelled-fits :
      (map : ResourceMap) (index x : ℕ) (d : FrameDescriptor) (bytes : List ℕ)
      → length bytes ≤ map.layout.payload_capacity
      → contradicts map index x (labelled env map index x (length bytes) d) ≡ false
  unfolding contradicts payload_offset
  labelled-fits map index x d bytes h = ground arith

  validate-live :
      (c : ArenaConsumer) (map : ResourceMap) (index x slot : ℕ)
      → map.state index ≡ live_word x
      → is_closed c ≡ false
      → is_configured c ≡ true
      → contradicts map index x (map.descriptor index) ≡ false
      → c.validate_descriptor (map.descriptor index) ≡ ok tt
      → validate env c map index x slot ≡ (
        c.claims,
        ok (frame (record { descriptor = map.descriptor index; slot = slot; index = index })),
      )
  unfolding validate
  validate-live c map index x slot live opened configured fits valid =
      let same : (map.state index == live_word x) ≡ true = ground arith in
      rw (same, opened, configured, fits, valid) refl

  acquire_from-live :
      (c : ArenaConsumer) (map : ResourceMap) (index x slot : ℕ)
      → c.control.ring (ring_word x c.control.history) ≡ index + 1
      → index < map.layout.resources
      → map.state index ≡ live_word x
      → is_closed c ≡ false
      → is_configured c ≡ true
      → free_slot c.claims ≡ some slot
      → contradicts map index x (map.descriptor index) ≡ false
      → c.validate_descriptor (map.descriptor index) ≡ ok tt
      → acquire_from env c map x ≡ (
        claim_slot c.claims slot x,
        ok (frame (record { descriptor = map.descriptor index; slot = slot; index = index })),
      )
  unfolding acquire_from is_closed is_configured claim_slot
  acquire_from-live c map index x slot ring h live opened configured free fits valid =
      let named : (index + 1 == 0) ≡ false = ground arith in
      let inside : ltb map.layout.resources (index + 1) ≡ false = ground arith in
      let back : index + 1 - 1 ≡ index = omega arith in
      rw (ring, named, inside, free, ring, back)
        (validate-live (record c { claims = claim_slot c.claims slot x }) map index x slot live
          opened configured fits valid)

  acquire_installed :
      (c : ArenaConsumer) (map : ResourceMap) (x : ℕ)
      → c.resources ≡ some map
      → acquire env c x ≡ acquire_from env c map x
  unfolding acquire
  acquire_installed c map x e =
      ap
        (λ (o : Option ResourceMap).
          let r : Outcome ClaimMap ArenaError AcquireOutcome = elim o [
            | none ↦ (c.claims, ok reconfiguration)
            | some m ↦ acquire_from env c m x
          ] in
          r)
        e

  -- Acquisition of a frame that is on show: the claim is taken and validated.
  acquire-Shows :
      (p : ArenaProducer) (c : ArenaConsumer) (x slot : ℕ) (d : FrameDescriptor) (bytes : List ℕ)
      (map : ResourceMap) (index : ℕ)
      → Shows env p x d bytes map index
      → length bytes ≤ map.layout.payload_capacity
      → c.control ≡ p.control
      → c.resources ≡ p.resources
      → is_closed c ≡ false
      → is_configured c ≡ true
      → free_slot c.claims ≡ some slot
      → ((e : FrameDescriptor) → c.validate_descriptor e ≡ ok tt)
      → acquire env c x ≡ (
        claim_slot c.claims slot x,
        ok (
            frame (record {
              descriptor = labelled env map index x (length bytes) d;
              slot = slot;
              index = index;
            })),
      )
  acquire-Shows p c x slot d bytes map index s fits same_control same_map opened configured free
        valid =
      let stamp = labelled-fits map index x d bytes fits in
      let here : map.descriptor index ≡ labelled env map index x (length bytes) d = s.descriptor in
      acquire_installed c map x (same_map ∙ s.installed)
      ∙ acquire_from-live c map index x slot (rw same_control s.ring) s.in_map s.live opened
          configured free (rw here stamp) (valid (map.descriptor index))
      ∙ rw here refl

  -- What the consumer gets for a published frame, and what it can read through the lease.
  abbrev pub Gets :
      Outcome ClaimMap ArenaError AcquireOutcome
      → ArenaConsumer
      → ℕ
      → ℕ
      → FrameDescriptor
      → List ℕ
      → Type 0
  Gets o c slot x d bytes =
      (lease : FrameLease) × (map : ResourceMap) × (o
        ≡ (claim_slot c.claims slot x, ok (frame lease)))
      × (c.resources ≡ some map)
      × (lease.slot ≡ slot)
      × (lease.index < map.layout.resources)
      × (lease.descriptor ≡ labelled env map lease.index x (length bytes) d)
      × (lease_bytes map lease ≡ bytes)

  acquire_latest_takes :
      (c : ArenaConsumer) (after : ℕ)
      → is_closed c ≡ false
      → is_configured c ≡ true
      → 0 < c.control.latest
      → after < c.control.latest
      → c.control.first_cursor ≤ c.control.latest
      → acquire_latest env c after ≡ acquire env c c.control.latest
  unfolding acquire_latest checked
  acquire_latest_takes c after opened configured started h first =
      let usable : (c.control.latest == 0
            || (not (ltb after c.control.latest) || ltb c.control.latest c.control.first_cursor))
          ≡ false =
        ground arith in
      rw (opened, configured, usable) refl

  shown-Gets :
      (p : ArenaProducer) (c : ArenaConsumer) (x slot after : ℕ) (d : FrameDescriptor)
      (bytes : List ℕ) (map : ResourceMap) (index : ℕ)
      → Shows env p x d bytes map index
      → length bytes ≤ map.layout.payload_capacity
      → c.control ≡ p.control
      → c.resources ≡ p.resources
      → is_closed c ≡ false
      → is_configured c ≡ true
      → free_slot c.claims ≡ some slot
      → ((e : FrameDescriptor) → c.validate_descriptor e ≡ ok tt)
      → after < x
      → p.control.first_cursor ≤ x
      → Gets (acquire_latest env c after) c slot x d bytes
  unfolding lease_bytes
  shown-Gets p c x slot after d bytes map index s fits same_control same_map opened configured free
        valid h first =
      let latest : c.control.latest ≡ x = rw same_control s.latest in
      let got =
        acquire-Shows p c x slot d bytes map index s fits same_control same_map opened configured
          free valid in
      let taken =
        acquire_latest_takes c after opened configured (rw latest s.started) (rw latest h)
          (rw (latest, same_control) first) in
      (
        record {
          descriptor = labelled env map index x (length bytes) d;
          slot = slot;
          index = index;
        },
        map,
        taken ∙ ap (λ (y : ℕ). acquire env c y) latest ∙ got,
        same_map ∙ s.installed,
        refl,
        s.in_map,
        refl,
        s.content,
      )

  -- A frame that `publish` of a well-formed producer has published is what `acquire_latest` gives to
  -- a consumer that sees the maps as `publish` leaves them, has seen only earlier cursors, is open,
  -- has installed the current allocation, has a holding slot free and whose attachment accepts every
  -- descriptor, unless the cursor is below the first visible one: the free slot's claim names the
  -- frame's cursor, the lease's descriptor is the caller's in every field but those that the arena
  -- fills in, which name the frame, its resource, its allocation, its place and its length, and the
  -- host's time if the caller gave none; and the bytes that the lease reads at that place are exactly
  -- those that were published.
  pub publish-acquire_latest :
      (p : ArenaProducer) (c : ArenaConsumer) (d : FrameDescriptor) (bytes : List ℕ)
      (x slot after : ℕ)
      → IsSound p
      → (publish env p d bytes).1 ≡ ok (published x)
      → c.control ≡ (publish env p d bytes).0.control
      → c.resources ≡ (publish env p d bytes).0.resources
      → is_closed c ≡ false
      → is_configured c ≡ true
      → free_slot c.claims ≡ some slot
      → ((e : FrameDescriptor) → c.validate_descriptor e ≡ ok tt)
      → after < x
      → (publish env p d bytes).0.control.first_cursor ≤ x
      → Gets (acquire_latest env c after) c slot x d bytes
  publish-acquire_latest p c d bytes x slot after v e same_control same_map opened configured free
        valid h first =
      let (map, index, shows, fits) = publish-Shown env p bytes d v x e in
      shown-Gets (publish env p d bytes).0 c x slot after d bytes map index shows fits same_control
        same_map opened configured free valid h first
