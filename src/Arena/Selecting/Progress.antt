-- ===== src/Arena/Selecting/Progress.antt =====
-- The producer's share: while consumers keep within their reservations, a resource is always free.
use native.Mathlib.Nat.{mod-eq_of_lt, mod-eq-sub-mod, mod-lt}
use jackstay.Base.{
  ℕ, ◌+◌, ◌-◌, ◌%◌, ◌≤◌, ◌<◌, ◌≡◌, ◌≢◌, refl, sym, subst, ◌∙◌, ◌⊎◌, inl, inr, true, false, Option,
  some, List, [], ◌∷◌, ◌++◌, length, length-append, arith, Bool-cases, ◌==◌, leb,
}
use jackstay.Base.Range.{any_below, count_below}
use jackstay.Base.Pigeon.{
  member, pigeon, span, length-span, member-span, member-append_left, member-append_right, values,
  length-values, member-values,
}
use jackstay.Base.Dict.{Dict, total}
use jackstay.Base.Result.{Result, ok}
use jackstay.Protocol.{oldest}
use jackstay.Arena.{ArenaError, ResourceMap, Incarnation}
use jackstay.Arena.Claims.{contains}
use jackstay.Arena.Selecting.{any_contains, is_retained, select}
use jackstay.Arena.Selecting.Rounds.{generation, IsFree, Blocked, searched}

abbrev pub frames_of : Incarnation → ℕ
frames_of s = s.claims.frames

-- Every claim word of every admitted incarnation.
held : Dict Incarnation → List ℕ
held [] = []
held ((k, s) ∷ m) = values s.claims.claim s.claims.frames ++ held m

length-held : (m : Dict Incarnation) → length (held m) ≡ total frames_of m
unfolding held total
length-held [] = refl
length-held ((k, s) ∷ m) = omega (
  arith,
  length-append {0} (values s.claims.claim s.claims.frames) (held m),
  length-values s.claims.claim s.claims.frames,
  length-held m,
)

member-held : (m : Dict Incarnation) (g : ℕ) → any_contains m g ≡ true → member g (held m) ≡ true
unfolding held any_contains contains
member-held [] g h = cc
member-held ((k, s) ∷ m) g h =
    elim (Bool-cases (any_below s.claims.frames (λ i. s.claims.claim i == g))) [
      | inl t ↦
          member-append_left g (values s.claims.claim s.claims.frames) (held m)
            (member-values s.claims.claim s.claims.frames g t)
      | inr f ↦
          member-append_right g (values s.claims.claim s.claims.frames) (held m)
            (member-held m g (ground arith))
    ]

-- Every index comes up in one full round of offsets.
rotation : (n start i : ℕ) → start < n → i < n → (k : ℕ) × (k < n) × (i ≡ (start + (0 + k)) % n)
rotation n start i h p = elim (Bool-cases (leb start i)) [
  | inl t ↦
      let le : start ≤ i = ground arith in
      let there : start + (0 + (i - start)) ≡ i = omega arith in
      (i - start, omega arith, rw there (sym (mod-eq_of_lt p)))
  | inr t ↦
      let lt : i < start = ground arith in
      let there : start + (0 + (i + n - start)) ≡ i + n = omega arith in
      let back : i + n - n ≡ i = omega arith in
      (
        i + n - start,
        omega arith,
        rw there (sym (mod-eq-sub-mod (omega arith) ∙ rw back (mod-eq_of_lt p))),
      )
]

-- The generations of the resources are the cursors of the frames last written to them: no two
-- resources have the same, and none is ahead of the producer's cursor.
pub record IsNumbered (map : ResourceMap) (cursor : ℕ) : Type 0 where
  pub bounded : (i : ℕ) → i < map.layout.resources → generation map i ≤ cursor
  pub distinct :
      (i j : ℕ)
      → i < map.layout.resources
      → j < map.layout.resources
      → generation map i ≡ generation map j
      → generation map i ≢ 0
      → i ≡ j

retained_bounds :
    (map : ResourceMap) (cursor i : ℕ)
    → is_retained map cursor i ≡ true
    → (generation map i ≢ 0) × (oldest cursor map.layout.history ≤ generation map i)
unfolding is_retained
retained_bounds map cursor i t = ground arith

below_span : (cursor history g : ℕ) → 0 < history → g ≤ cursor → g < oldest cursor history + history
below_span cursor history g h k = ground arith

Blocked-ne :
    (claims : Dict Incarnation) (cursor : ℕ) (map : ResourceMap) (i : ℕ)
    → Blocked claims cursor map i
    → map.reserved i ≡ false
    → generation map i ≢ 0
Blocked-ne claims cursor map i b r = elim b [
  | inl t ↦ absurd (cc)
  | inr (inl t) ↦ (retained_bounds map cursor i t).0
  | inr (inr c) ↦ c.0
]

-- Blocked resources that no writer has reserved hold a generation of retained history, or one that
-- a claim word names.
Blocked-le :
    (claims : Dict Incarnation) (cursor : ℕ) (map : ResourceMap)
    → IsNumbered map cursor
    → 0 < map.layout.history
    → ((i : ℕ) → i < map.layout.resources → Blocked claims cursor map i)
    → map.layout.resources
      ≤ count_below map.layout.resources map.reserved
        + (map.layout.history + total frames_of claims)
unfolding is_retained
Blocked-le claims cursor map v h blocked =
    let counted =
      pigeon map.layout.resources map.reserved (generation map) generations has_value apart in
    omega (
      arith,
      counted,
      length-append {0} (span (oldest cursor map.layout.history) map.layout.history) (held claims),
      length-span (oldest cursor map.layout.history) map.layout.history,
      length-held claims,
    )
  where
    generations : List ℕ
    generations = span (oldest cursor map.layout.history) map.layout.history ++ held claims

    has_value :
        (i : ℕ)
        → i < map.layout.resources
        → (map.reserved i ≡ true) ⊎ (member (generation map i) generations ≡ true)
    has_value i k = elim (blocked i k) [
      | inl r ↦ inl r
      | inr (inl t) ↦
          let (z, low) = retained_bounds map cursor i t in
          let high = below_span cursor map.layout.history (generation map i) h (v.bounded i k) in
          inr (
            member-append_left (generation map i)
              (span (oldest cursor map.layout.history) map.layout.history) (held claims)
              (member-span (generation map i) (oldest cursor map.layout.history) map.layout.history
                low high))
      | inr (inr (z, c)) ↦ inr (
          member-append_right (generation map i)
            (span (oldest cursor map.layout.history) map.layout.history) (held claims)
            (member-held claims (generation map i) c))
    ]

    apart :
        (i j : ℕ)
        → i < map.layout.resources
        → j < map.layout.resources
        → map.reserved i ≡ false
        → map.reserved j ≡ false
        → generation map i ≡ generation map j
        → i ≡ j
    apart i j k l r r' e = v.distinct i j k l e (Blocked-ne claims cursor map i (blocked i k) r)

-- While the consumers' holding reservations, retained history and the resources in the hands of
-- writers leave one resource over, the search finds a resource: it is reserved by no writer,
-- outside retained history, and claimed by no consumer.
pub select-finds :
    {A : Type 0} (claims : Dict Incarnation) (cursor next_slot : ℕ)
    (prepare : ℕ → ℕ → Result ArenaError (Option A)) (map : ResourceMap)
    → ((i g : ℕ) → (a : A) × (prepare i g ≡ ok (some a)))
    → IsNumbered map cursor
    → 0 < map.layout.history
    → next_slot < map.layout.resources
    → map.layout.history + total frames_of claims + count_below map.layout.resources map.reserved
      < map.layout.resources
    → (map' : ResourceMap) × (i : ℕ) × (a : A) × (select claims cursor next_slot prepare
          map.layout.resources 0 map
        ≡ (map', ok (some (i, a))))
      × (i < map.layout.resources)
      × IsFree claims cursor map i
select-finds claims cursor next_slot prepare map accept v h p room =
    elim (searched claims cursor next_slot prepare accept map.layout.resources 0 map) [
      | inl (map', i, a, found, free, (k, l, there)) ↦
          (map', i, a, found, rw there (mod-lt (next_slot + (0 + k)) (omega arith)), free)
      | inr all ↦
          let counted = Blocked-le claims cursor map v h (λ i l.
            let (k, q, there) = rotation map.layout.resources next_slot i p l in
            subst (Blocked claims cursor map) (sym there) (all k q)) in
          absurd (omega arith)
    ]
