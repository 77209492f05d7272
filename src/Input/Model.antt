-- ===== src/Input/Model.antt =====
-- The vocabulary of crates/jackstay/src/input/model.rs. A text is the list of its UTF-8 bytes, and a
-- duration a number of nanoseconds.
use jackstay.Base.{
  ℕ, ◌+◌, ◌/◌, ◌%◌, Bool, true, false, not, ◌&&◌, Option, none, some, List, ◌==◌, length, min,
  u64_mod, ◌-◌,
}
use jackstay.Base.Float.{F64, is_finite, ltb_F64, zero_F64}

abbrev pub Text : Type 0
Text = List ℕ

pub data Mode : Type 0 where
  physical source_text cooperative : Mode

abbrev pub mode_bit : Mode → ℕ
mode_bit physical = 1
mode_bit source_text = 2
mode_bit cooperative = 4

pub data Action : Type 0 where
  down up repeat : Action

pub data Key : Type 0 where
  physical_key logical_key : Text → Key

pub data ScrollUnit : Type 0 where
  pixel line page : ScrollUnit

pub data ScrollPhase : Type 0 where
  no_phase may_begin began stationary changed ended cancelled : ScrollPhase

pub data MomentumPhase : Type 0 where
  no_momentum momentum_began momentum_changed momentum_ended : MomentumPhase

pub record Position : Type 0 where
  pub revision : ℕ
  pub x : F64
  pub y : F64

pub record ScrollEvent : Type 0 where
  pub x : F64
  pub y : F64
  pub unit : ScrollUnit
  pub phase : Option ScrollPhase
  pub momentum_phase : Option MomentumPhase
  pub inverted_from_device : Option Bool
  pub position : Position

-- `key press action key modifiers` and `button button action position`.
pub data Event : Type 0 where
  key : ℕ → Action → Key → ℕ → Event
  text : Text → Event
  motion : Position → Event
  button : ℕ → Action → Position → Event
  scroll : ScrollEvent → Event

abbrev pub key_name : Key → Text
key_name (physical_key name) = name
key_name (logical_key name) = name

unfoldable pub event_bytes : Event → ℕ
event_bytes (text t) = 112 + length t
event_bytes (key press action k modifiers) = 112 + length (key_name k)
event_bytes (motion p) = 112
event_bytes (button b action p) = 112
event_bytes (scroll e) = 112

unfoldable pub is_pointer : Event → Bool
is_pointer (motion p) = true
is_pointer (button b action p) = true
is_pointer (scroll e) = true
is_pointer (key press action k modifiers) = false
is_pointer (text t) = false

abbrev pub cap_physical : ℕ
cap_physical = 1

abbrev pub cap_logical : ℕ
cap_logical = 2

abbrev pub cap_text : ℕ
cap_text = 4

abbrev pub cap_pointer : ℕ
cap_pointer = 8

abbrev pub cap_scroll : ℕ
cap_scroll = 16

-- `mask & bit != 0` for a power of two.
abbrev pub has_bit : ℕ → ℕ → Bool
has_bit mask bit = mask / bit % 2 == 1

pub record Geometry : Type 0 where
  pub revision : ℕ
  pub width : F64
  pub height : F64

abbrev pub is_valid_geometry : Geometry → Bool
is_valid_geometry g =
    not (g.revision == 0)
    && (is_finite g.width
        && (is_finite g.height && (ltb_F64 zero_F64 g.width && ltb_F64 zero_F64 g.height)))

pub record Config : Type 0 where
  pub modes : ℕ
  pub capabilities : ℕ
  pub max_events : ℕ
  pub max_bytes : ℕ
  pub max_text_bytes : ℕ
  pub idle_timeout : ℕ
  pub geometry : Geometry
  pub independent_contributions : Bool
  pub interaction_cancel : Bool

pub data Error : Type 0 where
  invalid unsupported busy closed stale overflow cleanup_failed : Error

pub data ExecutorOutcome : Type 0 where
  executed rejected_by_executor unsupported_by_executor partial uncertain : ExecutorOutcome

pub data Scope : Type 0 where
  all pointer : Scope

pub data Reason : Type 0 where
  focus geometry_changed disconnect expired overflowed execution : Reason

pub data Operation : Type 0 where
  event : Event → Operation
  cleanup : Scope → Reason → Operation

pub record Work : Type 0 where
  pub mode : Mode
  pub id : ℕ
  pub controller : ℕ
  pub epoch : ℕ
  pub sequence : ℕ
  pub operation : Operation

pub data Status : Type 0 where
  coalesced : ℕ → Status
  completed : ℕ → ExecutorOutcome → Status
  rejected : ℕ → Error → Status
  reset : ℕ → Geometry → Status
  closed_for : Reason → Bool → Status

-- `merge_coalesced`: the pending status with the newer one folded in, if both count motions.
abbrev pub merge_coalesced : Status → Status → Option Status
merge_coalesced (coalesced count) (coalesced delta) =
    some (coalesced (min (count + delta) (u64_mod - 1)))
merge_coalesced (coalesced count) (completed s o) = none
merge_coalesced (coalesced count) (rejected s e) = none
merge_coalesced (coalesced count) (reset e g) = none
merge_coalesced (coalesced count) (closed_for r c) = none
merge_coalesced (completed s o) newer = none
merge_coalesced (rejected s e) newer = none
merge_coalesced (reset e g) newer = none
merge_coalesced (closed_for r c) newer = none
