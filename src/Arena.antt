-- ===== src/Arena.antt =====
-- The acquisition arena of crates/jackstay/src/acquisition/arena.rs and its children, one call at
-- a time: what each method of the producer and of a consumer does to the shared maps. Protocol
-- has the same accesses interleaved.
pub mod Layout
pub mod Claims
pub mod Cleanup
pub mod Collecting
pub mod Matching
pub mod Selecting
pub mod Publishing
pub mod Attaching
pub mod Acquiring
pub mod Replacing
pub mod Configuring
pub mod Lifetime
mod Tests
use Prim.Native.String.{String}
use jackstay.Base.{ℕ, ◌+◌, ◌-◌, ◌^◌, Bool, true, false, Option, none, some, List}
use jackstay.Base.Result.{Result, ok, err}
use jackstay.Base.Dict.{Dict}
use jackstay.Admission.{AdmissionBook, AdmissionError}

pub data ArenaError : Type 0 where
  notification storage : String → ArenaError
  admission : AdmissionError → ArenaError
  configuration mapping : String → ArenaError
  generations_exhausted closed payload_too_large : ArenaError
  recovery_required : String → ArenaError

-- `u64::MAX >> 1`.
abbrev pub max_generation : ℕ
max_generation = 2 ^ 63 - 1

pub record ArenaConfig : Type 0 where
  pub resource_capacity : ℕ
  pub retained_history : ℕ
  pub producer_reserve : ℕ
  pub payload_capacity : ℕ
  pub memory_budget : ℕ
  pub max_incarnations : ℕ
  pub drain_timeout : ℕ

pub record FrameDescriptor : Type 0 where
  pub cursor : ℕ
  pub sequence : ℕ
  pub timestamp_ns : ℕ
  pub config_generation : ℕ
  pub pool_id : ℕ
  pub payload_offset : ℕ
  pub payload_len : ℕ
  pub modifier : ℕ
  pub fence_id : ℕ
  pub fence_value : ℕ
  pub damage_base_sequence : ℕ
  pub producer_drop_count : ℕ
  pub width : ℕ
  pub height : ℕ
  pub stride : ℕ
  pub pixel_format : ℕ
  pub slot_id : ℕ
  pub color_space : ℕ
  pub sync_kind : ℕ
  pub payload_kind : ℕ
  pub damage_kind : ℕ
  pub dropped_before_publish : ℕ
  pub flags : ℕ
  pub reserved : ℕ

-- `FrameDescriptor::default()`.
abbrev pub default_descriptor : FrameDescriptor
default_descriptor = record {
  cursor = 0;
  sequence = 0;
  timestamp_ns = 0;
  config_generation = 0;
  pool_id = 0;
  payload_offset = 0;
  payload_len = 0;
  modifier = 0;
  fence_id = 0;
  fence_value = 0;
  damage_base_sequence = 0;
  producer_drop_count = 0;
  width = 0;
  height = 0;
  stride = 0;
  pixel_format = 0;
  slot_id = 0;
  color_space = 0;
  sync_kind = 0;
  payload_kind = 0;
  damage_kind = 0;
  dropped_before_publish = 0;
  flags = 0;
  reserved = 0;
}

-- `records` and `payload` are offsets into the two storage objects of `len` and `payload_len`.
pub record ResourceLayout : Type 0 where
  pub resources : ℕ
  pub history : ℕ
  pub payload_capacity : ℕ
  pub records : ℕ
  pub payload : ℕ
  pub len : ℕ
  pub payload_len : ℕ

-- One allocation: the state word and the descriptor of each resource, the bytes of the payload storage,
-- and the producer's own marks on the resources that a writer has reserved.
pub record ResourceMap : Type 0 where
  pub layout : ResourceLayout
  pub generation : ℕ
  pub state : ℕ → ℕ
  pub descriptor : ℕ → FrameDescriptor
  pub storage : ℕ → ℕ
  pub reserved : ℕ → Bool

-- The words of the persistent control map; `ring` is indexed by the word, not by the cursor.
pub record ControlMap : Type 0 where
  pub history : ℕ
  pub scope : ℕ
  pub latest : ℕ
  pub terminal : ℕ
  pub reconfiguration_epoch : ℕ
  pub current : ℕ
  pub first_cursor : ℕ
  pub ring : ℕ → ℕ

-- The words of one incarnation's claim map: `claim`, the three release words and the mapping words
-- are indexed by their slot.
pub record ClaimMap : Type 0 where
  pub incarnation : ℕ
  pub frames : ℕ
  pub scope : ℕ
  pub recipient_pid : ℕ
  pub active : ℕ
  pub quiescent : ℕ
  pub capacity_epoch : ℕ
  pub wait_interest : ℕ
  pub offered_generation : ℕ
  pub claim : ℕ → ℕ
  pub release_id : ℕ → ℕ
  pub release_value : ℕ → ℕ
  pub release_pending : ℕ → ℕ
  pub registered_timeline : ℕ → ℕ
  pub mapping_slot : ℕ → ℕ

-- What the wake primitive of an incarnation reports. `disconnected` stands for `BrokenPipe` and
-- `ConnectionReset`.
pub data WakeOutcome : Type 0 where
  signalled disconnected : WakeOutcome
  failed : String → WakeOutcome

-- What the arena reads of the operating system and of the backends: the clock, wakes, process
-- watches by PID, release timelines by handle, whether the notification armed for a slot has fired,
-- whether another owner still shares a retired allocation, and whether storage can be had.
pub record Environment : Type 0 where
  pub page_size : ℕ
  pub host_time_ns : ℕ
  pub now : ℕ
  pub deadline_after : ℕ → Option ℕ
  pub wake : ℕ → WakeOutcome
  pub exited : ℕ → Result String Bool
  pub completed_value : ℕ → Result String ℕ
  pub notify_at : ℕ → ℕ → Result String (Unit {0})
  pub has_fired : ℕ → ℕ → Bool
  pub is_shared : ℕ → Bool
  pub native_ready : ℕ → Result ArenaError Bool
  pub new_storage : ℕ → Result ArenaError (Unit {0})
  pub new_scope : ℕ → ℕ

-- The observer of one admitted incarnation, without the claim map that it shares.
pub record ObservationState : Type 0 where
  pub native_resources : Bool
  pub process : Option ℕ
  pub unresolved_native_claims : ℕ
  pub drain_timeout : ℕ
  pub drain_deadline : Option ℕ
  pub drain_expired : Bool
  pub timelines : List ℕ
  pub armed : ℕ → Bool
  pub failure : Option String
  pub notification_failed : Bool
  pub released : ℕ

-- `claims` and `cleanup.observers` of the producer have the same keys: both gain an entry at the
-- end of `attach_with_recipient` and lose it in `collect_quiescent`.
pub record Incarnation : Type 0 where
  pub claims : ClaimMap
  pub observer : ObservationState

pub record RetiredAllocation : Type 0 where
  pub id : ℕ
  pub map : ResourceMap
  pub native : Bool

pub record ArenaProducer : Type 0 where
  pub resources : Option ResourceMap
  pub retired : List RetiredAllocation
  pub pending_layout : Option ResourceLayout
  pub control : ControlMap
  pub admission : AdmissionBook
  pub incarnations : Dict Incarnation
  pub cursor : ℕ
  pub next_slot : ℕ
  pub native_resources : Bool
  pub drain_timeout : ℕ

pub data PublishOutcome : Type 0 where
  published : ℕ → PublishOutcome
  dropped : PublishOutcome
