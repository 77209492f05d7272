-- ===== src/Arena/Layout/Words.antt =====
-- Every word that the code names in the control map and in a claim map stands inside the map,
-- aligned, and apart from every other: `word` never fails its assertion, and no store to one word
-- changes another.
use native.Mathlib.Nat.{mod-lt}
use jackstay.Base.{ℕ, ◌+◌, ◌-◌, ◌*◌, ◌%◌, ◌≤◌, ◌<◌, ◌≡◌, ◌≢◌, arith, inl, inr}
use jackstay.Base.Result.{ok, Returns-cases}
use jackstay.Arena.Layout.{
  control_len, claim_len, ring_offset, slot_offset, release_offset, timeline_offset, mapping_offset,
}
use jackstay.Protocol.Retention.{add-mod-ne}
use jackstay.Arena.Layout.Bounds.{checked_add_lem, checked_mul_lem, page_rounded_lem}

-- The words of a claim map: the fields of its header page, the claim word and the three release
-- words of a holding slot, the timeline words and the mapping words.
pub data Word : Type 0 where
  active quiescent capacity_epoch wait_interest offered_generation : Word
  claim release_id release_value release_pending timeline mapping : ℕ → Word

-- The words that a claim map of so many holding slots has.
abbrev pub IsWord : ℕ → Word → Type 0
IsWord frames (claim i) = i < frames
IsWord frames (release_id i) = i < frames
IsWord frames (release_value i) = i < frames
IsWord frames (release_pending i) = i < frames
IsWord frames (timeline i) = i < frames
IsWord frames (mapping i) = i < frames + 2
IsWord frames _ = Unit {0}

-- Where the code finds each of them.
unfoldable pub offset : ℕ → Word → ℕ
offset frames active = 128
offset frames quiescent = 136
offset frames capacity_epoch = 144
offset frames wait_interest = 152
offset frames offered_generation = 160
offset frames (claim i) = slot_offset i
offset frames (release_id i) = release_offset i 8
offset frames (release_value i) = release_offset i 16
offset frames (release_pending i) = release_offset i 24
offset frames (timeline i) = timeline_offset frames i
offset frames (mapping i) = mapping_offset frames i

claim_len-fits :
    (page frames : ℕ) {len : ℕ}
    → claim_len page frames ≡ ok len
    → 256 + frames * 40 + (frames + 2) * 8 ≤ len
unfolding claim_len
claim_len-fits page frames {len} e = elim (Returns-cases _ (checked_mul_lem frames 40)) [
  | inr (x, p) ↦ ground arith
  | inl (n, p, n_is) ↦ elim (Returns-cases _ (checked_add_lem 256 n)) [
    | inr (x, q) ↦ ground arith
    | inl (start, q, start_is) ↦ elim (Returns-cases _ (checked_mul_lem (frames + 2) 8)) [
      | inr (x, r) ↦ ground arith
      | inl (mappings, r, mappings_is) ↦ elim (Returns-cases _ (checked_add_lem start mappings)) [
        | inr (x, t) ↦ ground arith
        | inl (end, t, end_is) ↦ elim (Returns-cases _ (page_rounded_lem page end)) [
          | inr (x, u) ↦ ground arith
          | inl (total, u, total_is) ↦ ground arith
        ]
      ]
    ]
  ]
]

offset-in :
    (frames len : ℕ) (w : Word)
    → 256 + frames * 40 + (frames + 2) * 8 ≤ len
    → IsWord frames w
    → (128 ≤ offset frames w) × (offset frames w % 8 ≡ 0) × (offset frames w + 8 ≤ len)
unfolding offset slot_offset release_offset timeline_offset mapping_offset
offset-in frames len w h k = grind arith

offset-injective :
    (frames : ℕ) (v w : Word)
    → IsWord frames v
    → IsWord frames w
    → offset frames v ≡ offset frames w
    → v ≡ w
unfolding offset slot_offset release_offset timeline_offset mapping_offset
offset-injective frames v w h k e = grind arith

-- In a claim map of the size that `allocation_len` gives, every word that the code names lies
-- behind the immutable header, aligned to 8 bytes and inside the map, and two names never stand
-- for one place.
pub claim_len-apart :
    (page frames : ℕ) (v w : Word) {len : ℕ}
    → claim_len page frames ≡ ok len
    → IsWord frames v
    → IsWord frames w
    → (128 ≤ offset frames v)
      × (offset frames v % 8 ≡ 0)
      × (offset frames v + 8 ≤ len)
      × (offset frames v ≡ offset frames w → v ≡ w)
claim_len-apart page frames v w {len} e h k =
    let (a, b, c) = offset-in frames len v (claim_len-fits page frames e) h in
    (a, b, c, offset-injective frames v w h k)

control_len-fits :
    (page history : ℕ) {len : ℕ}
    → control_len page history ≡ ok len
    → (0 < history) × (256 + history * 8 ≤ len)
unfolding control_len
control_len-fits page history {len} e = elim (Returns-cases _ (checked_mul_lem history 8)) [
  | inr (x, p) ↦ ground arith
  | inl (n, p, n_is) ↦ elim (Returns-cases _ (checked_add_lem 256 n)) [
    | inr (x, q) ↦ ground arith
    | inl (end, q, end_is) ↦ elim (Returns-cases _ (page_rounded_lem page end)) [
      | inr (x, u) ↦ ground arith
      | inl (total, u, total_is) ↦ ground arith
    ]
  ]
]

-- In a control map of the size that `allocation_len` gives, the ring word of every cursor lies
-- behind the header words, aligned and inside the map, and no later cursor that is less than the
-- history away shares it. Cursors start at one.
pub control_len-ring :
    (page history cursor : ℕ) {len : ℕ}
    → control_len page history ≡ ok len
    → 0 < cursor
    → (256 ≤ ring_offset history cursor)
      × (ring_offset history cursor % 8 ≡ 0)
      × (ring_offset history cursor + 8 ≤ len)
      × ((later : ℕ)
          → cursor < later
          → later < cursor + history
          → ring_offset history cursor ≢ ring_offset history later)
unfolding ring_offset
control_len-ring page history cursor {len} e p =
    let (pos, fits) = control_len-fits page history e in
    let m = mod-lt (cursor - 1) pos in
    (
      omega arith,
      omega arith,
      omega arith,
      λ later q r same.
          let differ =
            add-mod-ne (cursor - 1) (later - cursor) history (omega arith) (omega arith) in
          let there : cursor - 1 + (later - cursor) ≡ later - 1 = omega arith in
          differ (rw there (omega (arith, same))),
    )
