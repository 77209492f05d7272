-- ===== src/Arena/Publishing.antt =====
-- Publication: `publish_prepared`, `publish` and `publish_resource` of
-- crates/jackstay/src/acquisition/arena.rs, and the reservations of arena/writer.rs.
pub mod Invariant
pub mod Showing
pub mod Progress
pub mod Reserving
use jackstay.Base.{
  ℕ, suc, ◌+◌, ◌-◌, ◌%◌, Bool, true, false, not, ◌&&◌, ◌||◌, Option, none, some, List, [], ◌∷◌, ltb,
  leb, ◌==◌, if◌then◌else◌, length,
}
use jackstay.Base.Bytes.{copy_to}
use jackstay.Base.Dict.{Dict}
use jackstay.Base.Result.{Result, ok, err, Outcome}
use jackstay.Protocol.{update, live_word, ring_word}
use jackstay.Arena.{
  ArenaError, configuration, closed, payload_too_large, generations_exhausted, max_generation,
  ArenaProducer, ControlMap, Environment, FrameDescriptor, Incarnation, PublishOutcome, published,
  dropped, ResourceMap,
}
use jackstay.Arena.Layout.{payload_offset}
use jackstay.Arena.Claims.{signal, data_event}
use jackstay.Arena.Collecting.{poll_cleanup, stop}
use jackstay.Arena.Selecting.{select}

-- Every incarnation is signalled in turn, until one fails.
unfoldable pub signal_all :
    Environment → Dict Incarnation → ℕ → Outcome (Dict Incarnation) ArenaError (Unit {0})
signal_all env [] interest = ([], ok tt)
signal_all env ((k, s) ∷ m) interest =
    let (c, result) = signal env s.claims interest in
    let (m', rest) = signal_all env m interest in
    elim result [
      | ok u ↦ ((k, record s { claims = c }) ∷ m', rest)
      | err e ↦ ((k, record s { claims = c }) ∷ m, err e)
    ]

-- The descriptor that goes with a frame; a zero timestamp becomes the host's time.
unfoldable pub stamped : Environment → ResourceMap → ℕ → ℕ → ℕ → FrameDescriptor → FrameDescriptor
stamped env map index cursor len d = record d {
  cursor = cursor;
  slot_id = index;
  config_generation = map.generation;
  payload_offset = payload_offset map.layout index;
  payload_len = len;
  timestamp_ns = if d.timestamp_ns == 0 then env.host_time_ns else d.timestamp_ns;
}

-- The payload of a resource is copied into the payload storage.
unfoldable pub copied : ResourceMap → ℕ → List ℕ → ResourceMap
copied map index bytes = record map {
  storage = copy_to map.storage (payload_offset map.layout index) bytes;
}

-- The descriptor is written, then the resource is made live, then advertised.
unfoldable pub written : ResourceMap → ℕ → ℕ → FrameDescriptor → ResourceMap
written map index cursor d = record map {
  descriptor = update map.descriptor index d;
  state = update map.state index (live_word cursor);
}

unfoldable pub advertised : ControlMap → ℕ → ℕ → ControlMap
advertised c index cursor = record c {
  ring = update c.ring (ring_word cursor c.history) (index + 1);
  latest = cursor;
}

-- An installed allocation with inline payload.
unfoldable pub has_storage : Option ResourceMap → Bool
has_storage none = false
has_storage (some map) = not (map.layout.payload_capacity == 0)

module _ (env : Environment) where
  -- The end of both ways to publish, with the payload in place: one frame under the next cursor, and a wake for everyone.
  unfoldable pub deliver :
      ArenaProducer
      → ResourceMap
      → ℕ
      → FrameDescriptor
      → Outcome ArenaProducer ArenaError PublishOutcome
  deliver p map index d =
      let cursor = p.cursor + 1 in
      let (m, result) = signal_all env p.incarnations data_event in
      (
        record p {
          resources =
              some (written map index cursor (stamped env map index cursor d.payload_len d));
          control = advertised p.control index cursor;
          cursor = cursor;
          next_slot = (index + 1) % map.layout.resources;
          incarnations = m;
        },
        elim result [ ok u ↦ ok (published cursor) | err e ↦ err e ],
      )

  -- The search among the resources of the installed allocation, and the publication if it succeeds.
  unfoldable pub publish_found :
      ArenaProducer
      → List ℕ
      → ResourceMap × Result ArenaError (Option (ℕ × FrameDescriptor))
      → Outcome ArenaProducer ArenaError PublishOutcome
  publish_found p bytes (map, err e) = (record p { resources = some map }, err e)
  publish_found p bytes (map, ok none) = (record p { resources = some map }, ok dropped)
  publish_found p bytes (map, ok (some (index, d))) =
      deliver p (copied map index bytes) index (record d { payload_len = length bytes })

  unfoldable pub publish_into :
      ArenaProducer
      → ResourceMap
      → List ℕ
      → (ℕ → ℕ → Result ArenaError (Option FrameDescriptor))
      → Outcome ArenaProducer ArenaError PublishOutcome
  publish_into p map bytes prepare =
      if ltb map.layout.payload_capacity (length bytes)
      then (p, err payload_too_large)
      else if p.cursor == max_generation
      then (stop p, err generations_exhausted)
      else publish_found p bytes
          (select p.incarnations p.cursor p.next_slot prepare map.layout.resources 0 map)

  unfoldable pub publish_polled :
      Outcome ArenaProducer ArenaError ℕ
      → List ℕ
      → (ℕ → ℕ → Result ArenaError (Option FrameDescriptor))
      → Outcome ArenaProducer ArenaError PublishOutcome
  publish_polled (p, err e) bytes prepare = (p, err e)
  publish_polled (p, ok released) bytes prepare = elim p.resources [
    | none ↦ (p, ok dropped)
    | some map ↦ publish_into p map bytes prepare
  ]

  unfoldable pub publish_prepared :
      ArenaProducer
      → List ℕ
      → (ℕ → ℕ → Result ArenaError (Option FrameDescriptor))
      → Outcome ArenaProducer ArenaError PublishOutcome
  publish_prepared p bytes prepare =
      if not (p.control.terminal == 0)
      then (p, err closed)
      else publish_polled (poll_cleanup env p) bytes prepare

  unfoldable pub publish :
      ArenaProducer → FrameDescriptor → List ℕ → Outcome ArenaProducer ArenaError PublishOutcome
  publish p d bytes = publish_prepared p bytes (λ index generation. ok (some d))

  unfoldable pub publish_resource :
      ArenaProducer
      → (ℕ → ℕ → Result ArenaError (Option FrameDescriptor))
      → Outcome ArenaProducer ArenaError PublishOutcome
  publish_resource p prepare =
      if has_storage p.resources
      then (p, err (configuration "native resources require no inline CPU storage"))
      else publish_prepared p [] prepare

-- An exclusive retired slot of one allocation, as `CpuReservation` names it.
pub record CpuReservation : Type 0 where
  pub generation : ℕ
  pub index : ℕ
  pub scope : ℕ

-- Dropping a reservation clears its mark, if its allocation is the installed one of this arena. The
-- scope is that of the arena's control map.
unfoldable pub unreserve : ℕ → Option ResourceMap → CpuReservation → Option ResourceMap
unreserve scope none r = none
unreserve scope (some map) r = some (
    if r.scope == scope && map.generation == r.generation
    then record map { reserved = λ i. if i == r.index then false else map.reserved i }
    else map)

-- The owner of a reservation overwrites the start of its slot through `bytes_mut`, by no more than
-- the slot holds, if its allocation is the installed one of this arena.
unfoldable pub bytes_mut : ℕ → Option ResourceMap → CpuReservation → List ℕ → Option ResourceMap
bytes_mut scope none r bytes = none
bytes_mut scope (some map) r bytes = some (
    if (r.scope == scope && map.generation == r.generation)
      && leb (length bytes) map.layout.payload_capacity
    then copied map r.index bytes
    else map)

module _ (env : Environment) where
  unfoldable pub reserve_found :
      ArenaProducer
      → ResourceMap × Result ArenaError (Option (ℕ × Unit {0}))
      → Outcome ArenaProducer ArenaError (Option CpuReservation)
  reserve_found p (map, err e) = (record p { resources = some map }, err e)
  reserve_found p (map, ok none) = (record p { resources = some map }, ok none)
  reserve_found p (map, ok (some (index, u))) = (
    record p {
      resources = some (record map { reserved = λ i. if i == index then true else map.reserved i });
    },
    ok (some (record { generation = map.generation; index = index; scope = p.control.scope })),
  )

  unfoldable pub reserve_into :
      ArenaProducer → ResourceMap → Outcome ArenaProducer ArenaError (Option CpuReservation)
  reserve_into p map =
      if map.layout.payload_capacity == 0
      then (p, err (configuration "CPU reservation requires nonzero storage"))
      else reserve_found p (
          select p.incarnations p.cursor p.next_slot (λ i g. ok (some tt)) map.layout.resources 0
            map)

  unfoldable pub reserve_polled :
      Outcome ArenaProducer ArenaError ℕ → Outcome ArenaProducer ArenaError (Option CpuReservation)
  reserve_polled (p, err e) = (p, err e)
  reserve_polled (p, ok released) =
      if p.cursor == max_generation
      then (stop p, err generations_exhausted)
      else elim p.resources [ none ↦ (p, ok none) | some map ↦ reserve_into p map ]

  unfoldable pub reserve : ArenaProducer → Outcome ArenaProducer ArenaError (Option CpuReservation)
  reserve p =
      if p.native_resources
      then (p, err (configuration "CPU reservation requires CPU arena"))
      else if not (p.control.terminal == 0)
      then (p, err closed)
      else reserve_polled (poll_cleanup env p)

  -- `commit` with a reservation of the installed allocation. The mark of a consumed reservation is
  -- cleared at the end on every branch. The payload stays what the writer has left in the storage.
  unfoldable pub commit_into :
      ArenaProducer
      → ResourceMap
      → CpuReservation
      → FrameDescriptor
      → Outcome ArenaProducer ArenaError PublishOutcome
  commit_into p map r d =
      if ltb map.layout.payload_capacity d.payload_len
      then (p, err payload_too_large)
      else if p.cursor == max_generation
      then (stop p, err generations_exhausted)
      else deliver env p map r.index d

  unfoldable pub is_foreign : ArenaProducer → CpuReservation → Bool
  is_foreign p r = elim p.resources [
    | none ↦ true
    | some map ↦ not (r.scope == p.control.scope) || not (map.generation == r.generation)
  ]

  unfoldable pub committed :
      ArenaProducer
      → CpuReservation
      → FrameDescriptor
      → Outcome ArenaProducer ArenaError PublishOutcome
  committed p r d =
      if not (p.control.terminal == 0)
      then (p, err closed)
      else if is_foreign p r
      then (p, err (configuration "stale or foreign CPU reservation"))
      else elim p.resources [ none ↦ (p, err closed) | some map ↦ commit_into p map r d ]

  unfoldable pub commit :
      ArenaProducer
      → CpuReservation
      → FrameDescriptor
      → Outcome ArenaProducer ArenaError PublishOutcome
  commit p r d = (
    record (committed p r d).0 {
      resources = unreserve p.control.scope (committed p r d).0.resources r;
    },
    (committed p r d).1,
  )

  unfoldable pub abandon :
      ArenaProducer → CpuReservation → Outcome ArenaProducer ArenaError (Unit {0})
  abandon p r = (
    record p { resources = unreserve p.control.scope p.resources r },
    if r.scope == p.control.scope then ok tt else err (configuration "foreign CPU reservation"),
  )
