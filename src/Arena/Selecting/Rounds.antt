-- ===== src/Arena/Selecting/Rounds.antt =====
-- The rounds of the search for a resource: each passes its resource over for a reason, or takes it.
use jackstay.Base.{
  ℕ, zero, suc, ◌+◌, ◌-◌, ◌%◌, ◌<◌, ◌≡◌, ◌≢◌, refl, sym, ap, subst, ◌∙◌, ◌⊎◌, inl, inr, true, false,
  Option, none, some, arith, Bool-cases, ◌==◌,
}
use jackstay.Base.Dict.{Dict}
use native.Mathlib.Nat.{mod-lt}
use jackstay.Base.Result.{Result, ok, err, Result-cases}
use jackstay.Protocol.{generation_of}
use jackstay.Arena.{ArenaError, ResourceMap, Incarnation}
use jackstay.Arena.Selecting.{any_contains, is_retained, offered, consider, select}

abbrev pub generation : ResourceMap → ℕ → ℕ
generation map i = generation_of (map.state i)

-- Why the loop passes a resource over.
pub record IsFree (claims : Dict Incarnation) (cursor : ℕ) (map : ResourceMap) (i : ℕ)
    : Type 0 where
  pub unreserved : map.reserved i ≡ false
  pub outside : is_retained map cursor i ≡ false
  pub unclaimed : (generation map i ≡ 0) ⊎ (any_contains claims (generation map i) ≡ false)

abbrev pub Blocked : Dict Incarnation → ℕ → ResourceMap → ℕ → Type 0
Blocked claims cursor map i =
    (map.reserved i ≡ true)
    ⊎ (is_retained map cursor i ≡ true)
    ⊎ ((generation map i ≢ 0) × (any_contains claims (generation map i) ≡ true))

-- The two maps agree in everything that the loop looks at.
pub record Same (m n : ResourceMap) : Type 0 where
  pub layout : m.layout ≡ n.layout
  pub reserved : (i : ℕ) → m.reserved i ≡ n.reserved i
  pub generations : (i : ℕ) → generation m i ≡ generation n i

module _ {A : Type 0} (claims : Dict Incarnation) (cursor next_slot : ℕ)
    (prepare : ℕ → ℕ → Result ArenaError (Option A)) where
  pub consider-Same :
      (map : ResourceMap) (j : ℕ) → Same (consider claims cursor next_slot prepare map j).0 map
  unfolding consider offered
  consider-Same map j = record {
    layout = ground arith;
    reserved = λ i. ground arith;
    generations = λ i. ground arith;
  }

  consider-cases :
      (map : ResourceMap) (j : ℕ)
      → (Blocked claims cursor map j
          × ((consider claims cursor next_slot prepare map j).1 ≡ ok none))
        ⊎ (IsFree claims cursor map j
            × ((a : A)
                → prepare j (generation map j) ≡ ok (some a)
                → (consider claims cursor next_slot prepare map j).1 ≡ ok (some (j, a))))
  unfolding consider offered
  consider-cases map j = elim (Bool-cases (map.reserved j)) [
    | inl r ↦ inl (inl r, rw (consider, r) refl)
    | inr r ↦ elim (Bool-cases (is_retained map cursor j)) [
      | inl t ↦ inl (inr (inl t), rw (consider, r, t) refl)
      | inr t ↦ elim (Bool-cases (generation map j == 0)) [
        | inl z ↦ inr (
          record { unreserved = r; outside = t; unclaimed = inl (ground arith) },
          λ a e. rw (consider, r, t, z, e, offered) refl,
        )
        | inr z ↦ elim (Bool-cases (any_contains claims (generation map j))) [
          | inl c ↦ inl (inr (inr (ground arith, c)), rw (consider, r, t, z, c) refl)
          | inr c ↦ inr (
            record { unreserved = r; outside = t; unclaimed = inr c },
            λ a e. rw (consider, r, t, z, c, e, offered) refl,
          )
        ]
      ]
    ]
  ]

  is_retained-Same :
      (m n : ResourceMap) (i : ℕ) → Same m n → is_retained m cursor i ≡ is_retained n cursor i
  unfolding is_retained
  is_retained-Same m n i s = rw (s.generations i, s.layout) refl

  Blocked-Same :
      (m n : ResourceMap) (i : ℕ) → Same m n → Blocked claims cursor m i → Blocked claims cursor n i
  Blocked-Same m n i s b = elim b [
    | inl r ↦ inl (sym (s.reserved i) ∙ r)
    | inr (inl t) ↦ inr (inl (sym (is_retained-Same m n i s) ∙ t))
    | inr (inr c) ↦
        inr (inr (subst (λ g. (g ≢ 0) × (any_contains claims g ≡ true)) (s.generations i) c))
  ]

  IsFree-Same :
      (m n : ResourceMap) (i : ℕ) → Same m n → IsFree claims cursor m i → IsFree claims cursor n i
  IsFree-Same m n i s b = record {
    unreserved = sym (s.reserved i) ∙ b.unreserved;
    outside = sym (is_retained-Same m n i s) ∙ b.outside;
    unclaimed =
        subst (λ g. (g ≡ 0) ⊎ (any_contains claims g ≡ false)) (s.generations i) b.unclaimed;
  }

  -- The index of one round.
  abbrev pub at : ℕ → ResourceMap → ℕ
  at offset map = (next_slot + offset) % map.layout.resources

  -- The rounds that are left find a free resource, or all of theirs are blocked.
  abbrev pub Searched : ℕ → ℕ → ResourceMap → Type 0
  Searched n offset map =
      ((map' : ResourceMap) × (i : ℕ) × (a : A) × (select claims cursor next_slot prepare n offset
            map
          ≡ (map', ok (some (i, a))))
        × IsFree claims cursor map i
        × ((k : ℕ) × (k < n) × (i ≡ at (offset + k) map)))
      ⊎ ((k : ℕ) → k < n → Blocked claims cursor map (at (offset + k) map))

  select-chosen :
      (n offset : ℕ) (map : ResourceMap) (i : ℕ) (a : A)
      → (consider claims cursor next_slot prepare map (at offset map)).1 ≡ ok (some (i, a))
      → select claims cursor next_slot prepare (suc n) offset map
        ≡ ((consider claims cursor next_slot prepare map (at offset map)).0, ok (some (i, a)))
  unfolding select
  select-chosen n offset map i a e = rw (e, select) refl

  select-passed :
      (n offset : ℕ) (map : ResourceMap)
      → (consider claims cursor next_slot prepare map (at offset map)).1 ≡ ok none
      → select claims cursor next_slot prepare (suc n) offset map
        ≡ select claims cursor next_slot prepare n
            (suc offset)
            (consider claims cursor next_slot prepare map (at offset map)).0
  unfolding select
  select-passed n offset map e = rw (e, select) refl

  select-failed :
      (n offset : ℕ) (map : ResourceMap) (x : ArenaError)
      → (consider claims cursor next_slot prepare map (at offset map)).1 ≡ err x
      → select claims cursor next_slot prepare (suc n) offset map
        ≡ ((consider claims cursor next_slot prepare map (at offset map)).0, err x)
  unfolding select
  select-failed n offset map x e = rw (e, select) refl

  -- A round that passes its resource over leaves the search to the rest.
  Searched-on :
      (n offset : ℕ) (map : ResourceMap)
      → Blocked claims cursor map (at offset map)
      → (consider claims cursor next_slot prepare map (at offset map)).1 ≡ ok none
      → Searched n (suc offset) (consider claims cursor next_slot prepare map (at offset map)).0
      → Searched (suc n) offset map
  Searched-on n offset map blocked e rest = elim rest [
    | inl (map', i, a, found, free, (k, h, there)) ↦ inl (
      map',
      i,
      a,
      select-passed n offset map e ∙ found,
      IsFree-Same next map i same free,
      (suc k, omega arith, there ∙ moved k),
    )
    | inr all ↦ inr (λ k h. elim (Bool-cases (k == 0)) [
      | inl z ↦
          let first : k ≡ 0 = ground arith in
          subst (λ o. Blocked claims cursor map (at o map)) (omega arith) blocked
      | inr z ↦
          let k_pos : k ≢ 0 = ground arith in
          let step : suc (offset + (k - 1)) ≡ offset + k = omega arith in
          Blocked-Same next map (at (offset + k) map) same (
            subst (λ j. Blocked claims cursor next j)
              (moved (k - 1) ∙ ap (λ o. at o map) (omega arith)) (all (k - 1) (omega arith)))
    ])
  ]
    where
      next : ResourceMap
      next = (consider claims cursor next_slot prepare map (at offset map)).0

      same : Same next map
      same = consider-Same map (at offset map)

      moved : (k : ℕ) → at (suc offset + k) next ≡ at (offset + suc k) map
      moved k = rw same.layout (ap (λ o. at o map) (omega arith))

  module _ (accept : (i g : ℕ) → (a : A) × (prepare i g ≡ ok (some a))) where
    pub searched : (n offset : ℕ) (map : ResourceMap) → Searched n offset map
    searched zero offset map = inr (λ k h. absurd (omega arith))
    searched (suc n) offset map = elim (consider-cases map (at offset map)) [
      | inr (free, chosen) ↦
          let (a, e) = accept (at offset map) (generation map (at offset map)) in
          inl (
            (consider claims cursor next_slot prepare map (at offset map)).0,
            at offset map,
            a,
            select-chosen n offset map (at offset map) a (chosen a e),
            free,
            (0, omega arith, ap (λ o. at o map) (omega arith)),
          )
      | inl (blocked, e) ↦
          Searched-on n offset map blocked e (
            searched n (suc offset)
              (consider claims cursor next_slot prepare map (at offset map)).0)
    ]

  Same-trans : {l m n : ResourceMap} → Same l m → Same m n → Same l n
  Same-trans p q = record {
    layout = p.layout ∙ q.layout;
    reserved = λ i. p.reserved i ∙ q.reserved i;
    generations = λ i. p.generations i ∙ q.generations i;
  }

  -- The search changes nothing that it looks at, and finds an index of the map.
  pub select-Same :
      (n offset : ℕ) (map : ResourceMap)
      → Same (select claims cursor next_slot prepare n offset map).0 map
  unfolding select
  select-Same zero offset map = record {
    layout = refl;
    reserved = λ i. refl;
    generations = λ i. refl;
  }
  select-Same (suc n) offset map =
      elim (Result-cases (consider claims cursor next_slot prepare map (at offset map)).1) [
        | inl (some c, e) ↦ rw (e, select) (consider-Same map (at offset map))
        | inl (none, e) ↦
            rw (e, select)
              (Same-trans
                (select-Same n (suc offset)
                  (consider claims cursor next_slot prepare map (at offset map)).0)
                (consider-Same map (at offset map)))
        | inr (x, e) ↦ rw (e, select) (consider-Same map (at offset map))
      ]

  consider-index :
      (map : ResourceMap) (j i : ℕ) (a : A)
      → (consider claims cursor next_slot prepare map j).1 ≡ ok (some (i, a))
      → i ≡ j
  unfolding consider offered
  consider-index map j i a e = ground arith

  -- The result of the search after one of its equations.
  found_by :
      {o q : ResourceMap × Result ArenaError (Option (ℕ × A))}
      {r : Result ArenaError (Option (ℕ × A))}
      → o ≡ q
      → o.1 ≡ r
      → q.1 ≡ r
  found_by same e = cc

  chosen-IsFree :
      (map : ResourceMap) (j : ℕ) (c : ℕ × A)
      → (consider claims cursor next_slot prepare map j).1 ≡ ok (some c)
      → IsFree claims cursor map j
  chosen-IsFree map j c e = elim (consider-cases map j) [
    | inl (blocked, passed) ↦ cc
    | inr (free, chosen) ↦ free
  ]

  -- A chosen resource is one of the map's, and nothing stands in the way of writing it.
  pub select-chosen-IsFree :
      (n offset : ℕ) (map : ResourceMap) (i : ℕ) (a : A)
      → 0 < map.layout.resources
      → (select claims cursor next_slot prepare n offset map).1 ≡ ok (some (i, a))
      → (i < map.layout.resources) × IsFree claims cursor map i
  unfolding select
  select-chosen-IsFree zero offset map i a h e = cc
  select-chosen-IsFree (suc n) offset map i a h e =
      elim (Result-cases (consider claims cursor next_slot prepare map (at offset map)).1) [
        | inr (x, failed) ↦
            let found : err x ≡ ok (some (i, a)) =
              found_by (select-failed n offset map x failed) e in
            cc
        | inl (none, passed) ↦
            let same = consider-Same map (at offset map) in
            let next = (consider claims cursor next_slot prepare map (at offset map)).0 in
            let (k, free) =
              select-chosen-IsFree n (suc offset) next i a (rw same.layout h)
                (found_by (select-passed n offset map passed) e) in
            (rw (← same.layout) k, IsFree-Same next map i same free)
        | inl (some (j, b), chosen) ↦
            let found : ok (some (j, b)) ≡ ok (some (i, a)) =
              found_by (select-chosen n offset map j b chosen) e in
            let picked : j ≡ i = cc in
            let here : i ≡ at offset map =
              sym picked ∙ consider-index map (at offset map) j b chosen in
            (
              rw here (mod-lt (next_slot + offset) h),
              subst (λ k. IsFree claims cursor map k) (sym here)
                  (chosen-IsFree map (at offset map) (j, b) chosen),
            )
      ]

  consider-offered :
      (map : ResourceMap) (j i : ℕ) (a : A)
      → (consider claims cursor next_slot prepare map j).1 ≡ ok (some (i, a))
      → prepare j (generation map j) ≡ ok (some a)
  unfolding consider offered
  consider-offered map j i a e = ground arith

  -- What is found is what the callback said of some resource.
  pub select-offered :
      (n offset : ℕ) (map : ResourceMap) (i : ℕ) (a : A)
      → (select claims cursor next_slot prepare n offset map).1 ≡ ok (some (i, a))
      → (j : ℕ) × (g : ℕ) × (prepare j g ≡ ok (some a))
  unfolding select
  select-offered zero offset map i a e = cc
  select-offered (suc n) offset map i a e =
      elim (Result-cases (consider claims cursor next_slot prepare map (at offset map)).1) [
        | inr (x, failed) ↦
            let found : err x ≡ ok (some (i, a)) =
              found_by (select-failed n offset map x failed) e in
            cc
        | inl (none, passed) ↦
            select-offered n (suc offset)
              (consider claims cursor next_slot prepare map (at offset map)).0 i a
              (found_by (select-passed n offset map passed) e)
        | inl (some (j, b), chosen) ↦
            let found : ok (some (j, b)) ≡ ok (some (i, a)) =
              found_by (select-chosen n offset map j b chosen) e in
            let same : b ≡ a = cc in
            (
              at offset map,
              generation map (at offset map),
              rw (← same) (consider-offered map (at offset map) j b chosen),
            )
      ]
