-- ===== src/Arena/Acquiring.antt =====
-- Acquisition by a consumer (`ArenaConsumer` and `FrameLease` in
-- crates/jackstay/src/acquisition/arena.rs), and the predicate of a wait (arena/wait.rs). The maps
-- are those that the producer writes.
pub mod Delivery
pub mod Order
use Prim.Native.Nat.{bit_and}
use jackstay.Base.{
  ℕ, ◌+◌, ◌-◌, Bool, true, false, not, ◌&&◌, ◌||◌, Option, none, some, List, ltb, max, ◌==◌,
  if◌then◌else◌,
}
use jackstay.Base.Bytes.{slice}
use jackstay.Base.Range.{find_from}
use jackstay.Base.Result.{Result, ok, err, Outcome}
use jackstay.Protocol.{live_word, ring_word}
use jackstay.Arena.{
  ArenaError, configuration, mapping, ClaimMap, ControlMap, Environment, FrameDescriptor,
  ResourceMap,
}
use jackstay.Arena.Layout.{payload_offset}
use jackstay.Arena.Claims.{claim_slot, return_credit, data_event, capacity_event}

-- A frame and the claim that keeps it: the holding slot, and the resource that the claim pins.
pub record FrameLease : Type 0 where
  pub descriptor : FrameDescriptor
  pub slot : ℕ
  pub index : ℕ

pub data AcquireOutcome : Type 0 where
  frame : FrameLease → AcquireOutcome
  empty : AcquireOutcome
  miss : ℕ → AcquireOutcome
  gap : ℕ → ℕ → AcquireOutcome
  holding_limit reconfiguration closed : AcquireOutcome

-- What a consumer sees: the control map, its own claim map, and the resource map that it has
-- installed, if any. `validate_descriptor` is the check of a native attachment.
pub record ArenaConsumer : Type 0 where
  pub control : ControlMap
  pub claims : ClaimMap
  pub resources : Option ResourceMap
  pub validate_descriptor : FrameDescriptor → Result ArenaError (Unit {0})

unfoldable pub is_closed : ArenaConsumer → Bool
is_closed c = c.claims.active == 0 || not (c.control.terminal == 0)

unfoldable pub is_current : Option ResourceMap → ℕ → Bool
is_current none generation = false
is_current (some map) generation = map.generation == generation

unfoldable pub is_configured : ArenaConsumer → Bool
is_configured c = is_current c.resources c.control.current

-- `bytes()`: the slice of the payload storage that the descriptor names.
unfoldable pub lease_bytes : ResourceMap → FrameLease → List ℕ
lease_bytes map lease =
    slice map.storage lease.descriptor.payload_offset lease.descriptor.payload_len

-- The oldest cursor that a consumer may still ask for.
unfoldable pub oldest_visible : ControlMap → ℕ
oldest_visible control = max (control.latest - (control.history - 1)) control.first_cursor

-- The free holding slot with the lowest index.
unfoldable pub free_slot : ClaimMap → Option ℕ
free_slot c = find_from c.frames 0 (λ slot. c.claim slot == 0)

-- A descriptor that names another frame, or bytes outside its resource.
unfoldable pub contradicts : ResourceMap → ℕ → ℕ → FrameDescriptor → Bool
contradicts map index cursor d =
    not (d.cursor == cursor)
    || (not (d.payload_offset == payload_offset map.layout index)
        || ltb map.layout.payload_capacity d.payload_len)

module _ (env : Environment) where
  -- A claim that leads to no frame gives its credit back.
  unfoldable pub unclaimed :
      ArenaConsumer
      → ℕ
      → Result ArenaError AcquireOutcome
      → Outcome ClaimMap ArenaError AcquireOutcome
  unclaimed c slot result = (return_credit env c.claims slot, result)

  -- `acquire` with a claim on `cursor` in place: validation of the generation is what acquires.
  unfoldable pub validate :
      ArenaConsumer → ResourceMap → ℕ → ℕ → ℕ → Outcome ClaimMap ArenaError AcquireOutcome
  validate c map index cursor slot =
      let d = map.descriptor index in
      if not (map.state index == live_word cursor)
      then unclaimed c slot (ok (miss cursor))
      else if is_closed c
      then unclaimed c slot (ok closed)
      else if not (is_configured c)
      then unclaimed c slot (ok reconfiguration)
      else if contradicts map index cursor d
      then unclaimed c slot
          (err (mapping "leased descriptor contradicts resource identity or bounds"))
      else elim (c.validate_descriptor d) [
        | err e ↦ unclaimed c slot (err e)
        | ok u ↦ (c.claims, ok (frame (record { descriptor = d; slot = slot; index = index })))
      ]

  unfoldable pub acquire_from :
      ArenaConsumer → ResourceMap → ℕ → Outcome ClaimMap ArenaError AcquireOutcome
  acquire_from c map cursor =
      let advertised = c.control.ring (ring_word cursor c.control.history) in
      if advertised == 0 || ltb map.layout.resources advertised
      then (c.claims, err (mapping "advertised resource index is invalid"))
      else elim (free_slot c.claims) [
        | none ↦ (c.claims, ok holding_limit)
        | some slot ↦
            validate (record c { claims = claim_slot c.claims slot cursor }) map (advertised - 1)
              cursor slot
      ]

  -- The callers have checked the configuration, so that a resource map is installed.
  unfoldable pub acquire : ArenaConsumer → ℕ → Outcome ClaimMap ArenaError AcquireOutcome
  acquire c cursor = elim c.resources [
    | none ↦ (c.claims, ok reconfiguration)
    | some map ↦ acquire_from c map cursor
  ]

  -- The two checks that every acquisition makes first.
  unfoldable pub checked :
      ArenaConsumer
      → Outcome ClaimMap ArenaError AcquireOutcome
      → Outcome ClaimMap ArenaError AcquireOutcome
  checked c outcome =
      if is_closed c
      then (c.claims, ok closed)
      else if not (is_configured c)
      then (c.claims, ok reconfiguration)
      else outcome

  unfoldable pub acquire_latest : ArenaConsumer → ℕ → Outcome ClaimMap ArenaError AcquireOutcome
  acquire_latest c after =
      let cursor = c.control.latest in
      checked c (
        if cursor == 0 || (not (ltb after cursor) || ltb cursor c.control.first_cursor)
        then (c.claims, ok empty)
        else acquire c cursor)

  unfoldable pub acquire_next : ArenaConsumer → ℕ → Outcome ClaimMap ArenaError AcquireOutcome
  acquire_next c after =
      let latest = c.control.latest in
      let oldest = oldest_visible c.control in
      let cursor = if after == 0 then oldest else after + 1 in
      checked c (
        if latest == 0 || not (ltb after latest)
        then (c.claims, ok empty)
        else if ltb cursor oldest
        then (c.claims, ok (gap cursor (oldest - 1)))
        else if ltb latest cursor
        then (c.claims, ok empty)
        else acquire c cursor)

  unfoldable pub acquire_exact : ArenaConsumer → ℕ → Outcome ClaimMap ArenaError AcquireOutcome
  acquire_exact c cursor =
      if cursor == 0
      then (c.claims, err (configuration "frame cursors start at one"))
      else checked c (
          if ltb c.control.latest cursor
          then (c.claims, ok empty)
          else if ltb cursor (oldest_visible c.control)
          then (c.claims, ok (miss cursor))
          else acquire c cursor)

-- A snapshot of what can wake a consumer.
pub record WaitEvents : Type 0 where
  pub data_cursor : ℕ
  pub capacity_epoch : ℕ
  pub reconfiguration_epoch : ℕ
  pub closed : Bool

unfoldable pub events : ArenaConsumer → WaitEvents
events c = record {
  data_cursor = c.control.latest;
  capacity_epoch = c.claims.capacity_epoch;
  reconfiguration_epoch = c.control.reconfiguration_epoch;
  closed = is_closed c;
}

-- `WaitInterest::changed`: closure and reconfiguration concern every wait.
unfoldable pub changed : ℕ → WaitEvents → WaitEvents → Bool
changed interest before after =
    after.closed
    || (not (before.reconfiguration_epoch == after.reconfiguration_epoch)
        || ((not (bit_and interest data_event == 0)
              && not (before.data_cursor == after.data_cursor))
            || (not (bit_and interest capacity_event == 0)
                && not (before.capacity_epoch == after.capacity_epoch))))
