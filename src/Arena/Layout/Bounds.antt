-- ===== src/Arena/Layout/Bounds.antt =====
-- The layout of an allocation fits: what `word` asserts, and what the unsafe slices rely on.
use native.Mathlib.Nat.{div-add-mod', mod-lt, mul-mod_left, zero-mod}
use jackstay.Base.{
  ℕ, suc, zero, ◌+◌, ◌-◌, ◌*◌, ◌/◌, ◌%◌, ◌≤◌, ◌<◌, ◌≡◌, refl, arith, inl, inr, u64_mod,
}
use jackstay.Base.Result.{ok, Returns, Returns-cases}
use jackstay.Arena.{ResourceLayout}
use jackstay.Arena.Layout.{
  checked_add, checked_mul, rounded, page_rounded, payload_size, new, record_offset, payload_offset,
}

pub checked_add_lem : (a b : ℕ) → Returns (checked_add a b) (λ r. (r ≡ a + b) × (a + b < u64_mod))
unfolding checked_add
checked_add_lem a b = record { result = λ r e. ground arith }

pub checked_mul_lem : (a b : ℕ) → Returns (checked_mul a b) (λ r. r ≡ a * b)
unfolding checked_mul
checked_mul_lem a b = record { result = λ r e. ground arith }

-- To round up to whole units gives a multiple that is no smaller.
round_up :
    (v a : ℕ)
    → 0 < a
    → (v ≤ (v + (a - 1)) / a * a)
      × ((v + (a - 1)) / a * a ≤ v + (a - 1))
      × ((v + (a - 1)) / a * a % a ≡ 0)
round_up v a h =
    let m = mod-lt (v + (a - 1)) h in
    let d = div-add-mod' (v + (a - 1)) a in
    (omega arith, omega arith, mul-mod_left ((v + (a - 1)) / a) a)

pub page_rounded_lem :
    (page v : ℕ) → Returns (page_rounded page v) (λ r. (v ≤ r) × (r < u64_mod) × (r % page ≡ 0))
unfolding page_rounded rounded checked_add
page_rounded_lem page v = record { result = λ r e. ground (arith, round_up v page) }

payload_size_lem :
    (page resources capacity : ℕ)
    → Returns
        (payload_size page resources capacity)
        (λ r. (resources * capacity ≤ r) × (r % page ≡ 0))
unfolding payload_size
payload_size_lem page resources zero = record {
  result = λ r e.
      let none_left : r ≡ 0 = cc in (rw none_left (omega arith), rw none_left (zero-mod page));
}
payload_size_lem page resources (suc c) = record {
  result = λ r e.
      elim (Returns-cases (checked_mul resources (suc c)) (checked_mul_lem resources (suc c))) [
        | inl (n, p, q) ↦
            let e' : page_rounded page n ≡ ok r = ground arith in
            let (a, b, d) = (page_rounded_lem page n).result r e' in (rw (← q) a, d)
        | inr (x, p) ↦ ground arith
      ];
}

-- What an accepted layout is made of.
pub record Fits (page resources history capacity : ℕ) (l : ResourceLayout) : Type 0 where
  pub counts : (0 < history) × (history < resources)
  pub same : (l.resources ≡ resources) × (l.history ≡ history) × (l.payload_capacity ≡ capacity)
  pub offsets : (l.records ≡ 256) × (l.payload ≡ 0)
  pub pages : (l.len % page ≡ 0) × (l.payload_len % page ≡ 0)
  pub word : l.len + l.payload_len < u64_mod
  pub holds_records : 256 + resources * 256 ≤ l.len
  pub holds_payload : resources * capacity ≤ l.payload_len

pub new-Fits :
    (page resources history capacity : ℕ) {l : ResourceLayout}
    → new page resources history capacity ≡ ok l
    → Fits page resources history capacity l
unfolding new
new-Fits page resources history capacity {l} e =
    elim (Returns-cases _ (checked_mul_lem resources 256)) [
      | inr (x, p) ↦ ground arith
      | inl (n, p, n_is) ↦ elim (Returns-cases _ (checked_add_lem 256 n)) [
        | inr (x, q) ↦ ground arith
        | inl (end, q, end_is) ↦ elim (Returns-cases _ (page_rounded_lem page end)) [
          | inr (x, r) ↦ ground arith
          | inl (len, r, len_is) ↦
              elim (Returns-cases _ (payload_size_lem page resources capacity)) [
                | inr (x, t) ↦ ground arith
                | inl (size, t, size_is) ↦ elim (Returns-cases _ (checked_add_lem len size)) [
                  | inr (x, u) ↦ ground arith
                  | inl (total, u, total_is) ↦ ground arith
                ]
              ]
        ]
      ]
    ]

slice-le : (i j c : ℕ) → i < j → i * c + c ≤ j * c
slice-le i j c h = grind arith

-- Whatever `ResourceLayout::new` accepts fits the two storage objects, of whole pages each and
-- together below 2 ^ 64 bytes: every record lies behind the header, aligned to 128 bytes, and every
-- payload slice lies in the payload storage, apart from the slices of the later resources.
pub new-bounds :
    (page resources history capacity i : ℕ) {l : ResourceLayout}
    → new page resources history capacity ≡ ok l
    → i < resources
    → (0 < l.history)
      × (l.history < l.resources)
      × (l.len % page ≡ 0)
      × (l.payload_len % page ≡ 0)
      × (l.len + l.payload_len < u64_mod)
      × (256 ≤ record_offset l i)
      × (record_offset l i % 128 ≡ 0)
      × (record_offset l i + 256 ≤ l.len)
      × (payload_offset l i + capacity ≤ l.payload_len)
      × ((j : ℕ) → i < j → payload_offset l i + capacity ≤ payload_offset l j)
unfolding new record_offset payload_offset
new-bounds page resources history capacity i {l} e h =
    let f = new-Fits page resources history capacity e in
    let slice = slice-le i resources capacity h in
    let (a, b, c) = f.same in
    let (d, z) = f.offsets in
    let r : record_offset l i ≡ 256 + i * 256 = rw (← d) refl in
    let q : payload_offset l i ≡ i * capacity = rw (z, c) (omega arith) in
    (
      ground arith,
      ground arith,
      f.pages.0,
      f.pages.1,
      f.word,
      omega arith,
      omega arith,
      omega (arith, f.holds_records),
      omega (arith, f.holds_payload),
      λ j k. rw (z, c) (omega (arith, slice-le i j capacity k)),
    )
