-- ===== src/Arena/Layout.antt =====
-- Sizes and offsets of the shared maps: crates/jackstay/src/acquisition/arena/mapping.rs and the
-- claim map of arena.rs. A `usize` has 64 bits.
pub mod Bounds
pub mod Words
use jackstay.Base.{
  ℕ, ◌+◌, ◌-◌, ◌*◌, ◌/◌, ◌%◌, ◌^◌, ◌||◌, some, none, ltb, leb, ◌==◌, if◌then◌else◌, u64_mod,
  checked_add64,
}
use jackstay.Base.Result.{Result, ok, err, ◌>>=◌, ◌>>◌, ok_or, reject_if}
use jackstay.Arena.{ArenaError, configuration, ResourceLayout}

-- The bytes of a map before its records, of a `ResourceRecord` and of a claim slot.
abbrev pub header_len : ℕ
header_len = 256

abbrev pub record_len : ℕ
record_len = 256

abbrev pub claim_slot_len : ℕ
claim_slot_len = 32

unfoldable pub checked_add : ℕ → ℕ → Result ArenaError ℕ
checked_add a b = ok_or (checked_add64 a b) (configuration "mapping size overflow")

unfoldable pub checked_mul : ℕ → ℕ → Result ArenaError ℕ
checked_mul a b =
    ok_or (if ltb (a * b) u64_mod then some (a * b) else none)
      (configuration "mapping size overflow")

unfoldable pub rounded : ℕ → ℕ → Result ArenaError ℕ
rounded value alignment = do
  padded ← checked_add value (alignment - 1)
  ok (padded / alignment * alignment)

-- `page` is the page size that the operating system reports, 0 if it reports none.
unfoldable pub page_rounded : ℕ → ℕ → Result ArenaError ℕ
page_rounded page value =
    if page == 0 then err (configuration "cannot determine OS page size") else rounded value page

-- The bytes of the payload storage; an arena without inline payload has none.
unfoldable pub payload_size : ℕ → ℕ → ℕ → Result ArenaError ℕ
payload_size page resources payload_capacity =
    if payload_capacity == 0
    then ok 0
    else checked_mul resources payload_capacity >>= page_rounded page

unfoldable pub new : ℕ → ℕ → ℕ → ℕ → Result ArenaError ResourceLayout
new page resources history payload_capacity = do
  reject_if (history == 0 || leb resources history)
      (configuration "resources must exceed a nonzero history")
  records_len ← checked_mul resources record_len
  end ← checked_add header_len records_len
  len ← page_rounded page end
  payload_len ← payload_size page resources payload_capacity
  _ ← checked_add len payload_len
  reject_if (ltb (2 ^ 63 - 1) payload_capacity)
      (configuration "payload slice exceeds addressable size")
  ok (record {
    resources = resources;
    history = history;
    payload_capacity = payload_capacity;
    records = header_len;
    payload = 0;
    len = len;
    payload_len = payload_len;
  })

unfoldable pub record_offset : ResourceLayout → ℕ → ℕ
record_offset l index = l.records + index * record_len

unfoldable pub payload_offset : ResourceLayout → ℕ → ℕ
payload_offset l index = l.payload + index * l.payload_capacity

-- The control map: the header and one word for each cursor of retained history.
unfoldable pub control_len : ℕ → ℕ → Result ArenaError ℕ
control_len page history = do
  reject_if (history == 0) (configuration "history must be nonzero")
  ring_len ← checked_mul history 8
  end ← checked_add header_len ring_len
  page_rounded page end

unfoldable pub ring_offset : ℕ → ℕ → ℕ
ring_offset history cursor = header_len + (cursor - 1) % history * 8

-- The claim map: for each holding slot the claim and release words and a timeline word, and the
-- mapping words.
unfoldable pub claim_len : ℕ → ℕ → Result ArenaError ℕ
claim_len page frames = do
  slots ← checked_mul frames (claim_slot_len + 8)
  start ← checked_add header_len slots
  mappings ← checked_mul (frames + 2) 8
  end ← checked_add start mappings
  page_rounded page end

unfoldable pub slot_offset : ℕ → ℕ
slot_offset index = header_len + index * claim_slot_len

-- `field` is 8, 16 or 24: the release's timeline, value and state.
unfoldable pub release_offset : ℕ → ℕ → ℕ
release_offset index field = header_len + index * claim_slot_len + field

unfoldable pub timeline_offset : ℕ → ℕ → ℕ
timeline_offset frames index = header_len + frames * claim_slot_len + index * 8

unfoldable pub mapping_offset : ℕ → ℕ → ℕ
mapping_offset frames index = header_len + frames * (claim_slot_len + 8) + index * 8
