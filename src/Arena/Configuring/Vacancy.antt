-- ===== src/Arena/Configuring/Vacancy.antt =====
-- While no generation is offered, some mapping word of the incarnation is free.
use jackstay.Base.{
  ℕ, zero, suc, ◌+◌, ◌≤◌, ◌≡◌, refl, sym, subst, inl, inr, true, false, Option, none, some, List,
  [], ◌∷◌, ◌++◌, length, length-append, arith, Option-cases, ◌==◌,
}
use jackstay.Base.Pigeon.{
  member, values, length-values, member-values, pigeon, member-append_left, member-append_right,
  member-singleton,
}
use jackstay.Base.Range.{any_below-true, count_below, find_from, find_from-none}
use jackstay.Arena.Configuring.{ConsumerState, slot_of}
use jackstay.Arena.Configuring.Holders.{Holds, leased, using, granted, IsConsistent}

-- The mapping slot of a lease, if there is one.
number : Option ℕ → ℕ
number none = 0
number (some m) = m

listed : Option ℕ → List ℕ
listed none = []
listed (some m) = m ∷ []

-- Every slot that somebody owns: one for each claim slot, and the installed one.
owned : ConsumerState → List ℕ
owned s = values (λ i. number (s.leases i)) s.claims.frames ++ listed (slot_of s.resources)

length-owned : (s : ConsumerState) → length (owned s) ≤ s.claims.frames + 1
unfolding owned listed
length-owned s =
    let a =
      length-append (values (λ i. number (s.leases i)) s.claims.frames)
        (listed (slot_of s.resources)) in
    let b = length-values (λ i. number (s.leases i)) s.claims.frames in
    elim (Option-cases (slot_of s.resources)) [
      | inl e ↦ let c : length (listed (slot_of s.resources)) ≡ 0 = ground arith in omega arith
      | inr (m, e) ↦ let c : length (listed (slot_of s.resources)) ≡ 1 = ground arith in omega arith
    ]

Holds-owned : (s : ConsumerState) (m : ℕ) → s.offer ≡ none → Holds s m → member m (owned s) ≡ true
unfolding owned listed number
Holds-owned s m none_offered (leased i h e) =
    member-append_left m (values (λ j. number (s.leases j)) s.claims.frames)
      (listed (slot_of s.resources))
      (member-values (λ j. number (s.leases j)) s.claims.frames m
        (any_below-true s.claims.frames i (λ j. number (s.leases j) == m) h (ground arith)))
Holds-owned s m none_offered (using e) =
    member-append_right m (values (λ j. number (s.leases j)) s.claims.frames)
      (listed (slot_of s.resources))
      (subst (λ o. member m (listed o) ≡ true) (sym e) (member-singleton m))
Holds-owned s m none_offered (granted g f at) = absurd (cc)

none_below : (n : ℕ) → count_below n (λ i. false) ≡ 0
unfolding count_below
none_below zero = refl
none_below (suc n) = omega (arith, none_below n)

-- While nothing is offered, some mapping word is free.
pub free_word :
    (s : ConsumerState)
    → IsConsistent s
    → s.claims.offered_generation ≡ 0
    → (slot : ℕ) × (find_from (s.claims.frames + 2) 0 (λ i. s.claims.mapping_slot i == 0)
        ≡ some slot)
free_word s v z =
    elim (Option-cases (find_from (s.claims.frames + 2) 0 (λ i. s.claims.mapping_slot i == 0))) [
      | inr found ↦ found
      | inl full ↦
          let crowd =
            pigeon (s.claims.frames + 2) (λ i. false) (λ i. i) (owned s)
              (λ i h.
                let used =
                  find_from-none (s.claims.frames + 2) 0 i (λ j. s.claims.mapping_slot j == 0) full
                    (omega arith) (omega arith) in
                inr (Holds-owned s i (v.quiet z) (v.held i (ground arith))))
              (λ i j h k a b e. e) in
          absurd (omega (arith, crowd, none_below (s.claims.frames + 2), length-owned s))
    ]
