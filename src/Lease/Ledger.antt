-- ===== src/Lease/Ledger.antt =====
-- Lemmas on the dictionaries of a lease book.
use jackstay.Base.{
  inl, inr, ◌⊎◌, ==_refl, sym, subst, ℕ, suc, ◌+◌, ◌≤◌, ◌≡◌, refl, Bool, true, false, not, none,
  some, List, [], ◌∷◌, arith, length, if◌then◌else◌,
}
use jackstay.Base.Dict.{Dict, lookup, retain, Within, Within-widen, Within-lookup, lookup_low}
use jackstay.Lease.{LeaseEntry, ReleasedLease, is_complete, released_by}

module _ {ℓ} {V : Type ℓ} (p : ℕ → V → Bool) where
  pub Within-retain : (lo hi : ℕ) (m : Dict V) → Within lo hi m → Within lo hi (retain p m)
  unfolding retain
  Within-retain lo hi [] w = tt
  Within-retain lo hi ((j, v) ∷ m) w =
      ground (arith, Within-retain (suc j) hi m w.2, Within-widen (suc j) hi lo hi (retain p m))

  -- What passes stays under its key, and the rest is gone.
  pub lookup-retain :
      (lo hi k : ℕ) (m : Dict V)
      → Within lo hi m
      → lookup k (retain p m)
        ≡ elim (lookup k m) [ none ↦ none | some v ↦ if p k v then some v else none ]
  unfolding lookup retain
  lookup-retain lo hi k [] w = refl
  lookup-retain lo hi k ((j, v) ∷ m) w =
      ground (arith, lookup-retain (suc j) hi k m w.2, lookup_low (suc j) hi k m w.2)

abbrev pub Listed : ReleasedLease → List ReleasedLease → Type 0
Listed x [] = ⊥
Listed x (y ∷ ys) = (x ≡ y) ⊎ Listed x ys

listed :
    {x : ReleasedLease} (b : Bool) (y : ReleasedLease) (ys : List ReleasedLease)
    → ((b ≡ true) × (x ≡ y)) ⊎ Listed x ys
    → Listed x (if b then y ∷ ys else ys)
listed true y ys (inl (c, p)) = inl p
listed true y ys (inr l) = inr l
listed false y ys (inl (c, p)) = absurd (false-ne-true c)
  where
    false-ne-true : false ≡ true → ⊥
    false-ne-true c = cc
listed false y ys (inr l) = l

unlisted :
    {x : ReleasedLease} (b : Bool) (y : ReleasedLease) (ys : List ReleasedLease)
    → Listed x (if b then y ∷ ys else ys)
    → ((b ≡ true) × (x ≡ y)) ⊎ Listed x ys
unlisted true y ys (inl p) = inl (refl, p)
unlisted true y ys (inr l) = inr l
unlisted false y ys l = inr l

lookup_cons {ℓ} :
    {V : Type ℓ} (id j : ℕ) (e entry : V) (m : Dict V)
    → lookup id ((j, e) ∷ m) ≡ some entry
    → ((id ≡ j) × (e ≡ entry)) ⊎ (lookup id m ≡ some entry)
unfolding lookup
lookup_cons id j e entry m h = ground arith

abbrev pub ticket : ℕ → LeaseEntry → ReleasedLease
ticket id entry = record { lease_id = id; identity = entry.identity }

module _ (sync reached : ℕ) where
  abbrev pub ended : ℕ → LeaseEntry → Bool
  ended id entry = is_complete sync reached entry.state

  -- Every lease is either released or kept.
  pub length-released_by :
      (m : Dict LeaseEntry)
      → length (released_by sync reached m) + length (retain (λ id entry. not (ended id entry)) m)
        ≡ length m
  unfolding released_by retain
  length-released_by [] = refl
  length-released_by ((id, entry) ∷ m) = ground (arith, length-released_by m)

  pub released_by-lookup :
      (id : ℕ) (entry : LeaseEntry) (m : Dict LeaseEntry)
      → lookup id m ≡ some entry
      → ended id entry ≡ true
      → Listed (ticket id entry) (released_by sync reached m)
  unfolding released_by lookup
  released_by-lookup id entry [] h c = absurd (none-ne-some h)
    where
      none-ne-some : none ≡ some entry → ⊥
      none-ne-some h = cc
  released_by-lookup id entry ((j, e) ∷ m) h c = elim (lookup_cons id j e entry m h) [
    | inl (k, q) ↦ listed (ended j e) (ticket j e) (released_by sync reached m) (inl (first k q))
    | inr q ↦
        listed (ended j e) (ticket j e) (released_by sync reached m)
          (inr (released_by-lookup id entry m q c))
  ]
    where
      first : id ≡ j → e ≡ entry → (ended j e ≡ true) × (ticket id entry ≡ ticket j e)
      first k q = rw (k, q) (c, refl)

  pub lookup-released_by :
      (lo hi : ℕ) (x : ReleasedLease) (m : Dict LeaseEntry)
      → Within lo hi m
      → Listed x (released_by sync reached m)
      → (entry : LeaseEntry) × (lookup x.lease_id m ≡ some entry)
        × (ended x.lease_id entry ≡ true)
        × (x ≡ ticket x.lease_id entry)
  unfolding released_by lookup
  lookup-released_by lo hi x [] w h = absurd h
  lookup-released_by lo hi x ((j, e) ∷ m) w h =
      elim (unlisted (ended j e) (ticket j e) (released_by sync reached m) h) [
        | inl (c, p) ↦
            subst
              (λ y.
                (entry : LeaseEntry) × (lookup y.lease_id ((j, e) ∷ m) ≡ some entry)
                × (ended y.lease_id entry ≡ true)
                × (y ≡ ticket y.lease_id entry))
              (sym p) (e, rw (==_refl j) refl, c, refl)
        | inr l ↦ later (lookup-released_by (suc j) hi x m w.2 l)
      ]
    where
      later :
          (entry : LeaseEntry) × (lookup x.lease_id m ≡ some entry)
            × (ended x.lease_id entry ≡ true)
            × (x ≡ ticket x.lease_id entry)
          → (entry : LeaseEntry) × (lookup x.lease_id ((j, e) ∷ m) ≡ some entry)
            × (ended x.lease_id entry ≡ true)
            × (x ≡ ticket x.lease_id entry)
      later (entry, f, c, p) =
          (entry, passed (Within-lookup (suc j) hi x.lease_id entry m w.2 f).0 f, c, p)
        where
          passed :
              suc j ≤ x.lease_id
              → lookup x.lease_id m ≡ some entry
              → lookup x.lease_id ((j, e) ∷ m) ≡ some entry
          passed l f = ground arith
