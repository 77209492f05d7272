-- ===== src/Base/Dict.antt =====
-- A `BTreeMap` with number keys, as an association list kept in key order.
use Prim.Native.Nat.{ℕ, suc, ◌+◌, ◌≤◌, ◌<◌, compare, Ordering}
use mathlib.Core.Path.{◌≡◌, refl}
use mathlib.Core.Bool.{Bool}
use mathlib.Core.Option.{Option, none, some}
use mathlib.Core.List.{List, [], ◌∷◌}
use native.Mathlib.Omega.{arith}
use jackstay.Base.Tests.{◌==◌, if◌then◌else◌}
use jackstay.Base.Lists.{length}

abbrev pub Dict {ℓ} : Type ℓ → Type ℓ
Dict V = List (ℕ × V)

module _ {ℓ} {V : Type ℓ} where
  unfoldable pub lookup : ℕ → Dict V → Option V
  lookup k [] = none
  lookup k ((j, v) ∷ m) = if k == j then some v else lookup k m

  unfoldable pub insert : ℕ → V → Dict V → Dict V
  insert k v [] = (k, v) ∷ []
  insert k v ((j, w) ∷ m) = elim (compare k j) [
    | Ordering.lt ↦ (k, v) ∷ (j, w) ∷ m
    | Ordering.eq ↦ (k, v) ∷ m
    | Ordering.gt ↦ (j, w) ∷ insert k v m
  ]

  unfoldable pub remove : ℕ → Dict V → Dict V
  remove k [] = []
  remove k ((j, v) ∷ m) = if k == j then remove k m else (j, v) ∷ remove k m

  -- `retain` keeps the entries that pass the test.
  unfoldable pub retain : (ℕ → V → Bool) → Dict V → Dict V
  retain p [] = []
  retain p ((j, v) ∷ m) = if p j v then (j, v) ∷ retain p m else retain p m

  -- The sum of a measure over the values.
  unfoldable pub total : (V → ℕ) → Dict V → ℕ
  total f [] = 0
  total f ((j, v) ∷ m) = f v + total f m

  -- The keys ascend from `lo` and stay below `hi`.
  abbrev pub Within : ℕ → ℕ → Dict V → Type 0
  Within lo hi [] = Unit {0}
  Within lo hi ((k, v) ∷ m) = (lo ≤ k) × (k < hi) × Within (suc k) hi m

  pub Within-widen :
      (lo hi lo' hi' : ℕ) (m : Dict V) → lo' ≤ lo → hi ≤ hi' → Within lo hi m → Within lo' hi' m
  Within-widen lo hi lo' hi' [] p q w = tt
  Within-widen lo hi lo' hi' ((k, v) ∷ m) p q w =
      (omega arith, omega arith, Within-widen (suc k) hi (suc k) hi' m (omega arith) q w.2)

  pub lookup_low : (lo hi k : ℕ) (m : Dict V) → Within lo hi m → k < lo → lookup k m ≡ none
  unfolding lookup
  lookup_low lo hi k [] w h = refl
  lookup_low lo hi k ((j, v) ∷ m) w h = ground (arith, lookup_low (suc j) hi k m w.2 (omega arith))

  pub lookup_high : (lo hi k : ℕ) (m : Dict V) → Within lo hi m → hi ≤ k → lookup k m ≡ none
  unfolding lookup
  lookup_high lo hi k [] w h = refl
  lookup_high lo hi k ((j, v) ∷ m) w h = ground (arith, lookup_high (suc j) hi k m w.2 h)

  pub lookup-insert :
      (j k : ℕ) (v : V) (m : Dict V)
      → lookup j (insert k v m) ≡ (if j == k then some v else lookup j m)
  unfolding lookup insert
  lookup-insert j k v [] = refl
  lookup-insert j k v ((i, w) ∷ m) = ground (arith, lookup-insert j k v m)

  pub lookup-remove :
      (j k : ℕ) (m : Dict V) → lookup j (remove k m) ≡ (if j == k then none else lookup j m)
  unfolding lookup remove
  lookup-remove j k [] = ground arith
  lookup-remove j k ((i, w) ∷ m) = ground (arith, lookup-remove j k m)

  pub Within-insert :
      (lo hi k : ℕ) (v : V) (m : Dict V)
      → lo ≤ k
      → k < hi
      → Within lo hi m
      → Within lo hi (insert k v m)
  unfolding insert
  Within-insert lo hi k v [] p q w = (p, q, tt)
  Within-insert lo hi k v ((j, u) ∷ m) p q w =
      ground (arith, Within-insert (suc j) hi k v m, Within-widen (suc j) hi (suc k) hi m)

  pub Within-remove : (lo hi k : ℕ) (m : Dict V) → Within lo hi m → Within lo hi (remove k m)
  unfolding remove
  Within-remove lo hi k [] w = tt
  Within-remove lo hi k ((j, u) ∷ m) w =
      ground (arith, Within-remove (suc j) hi k m w.2, Within-widen (suc j) hi lo hi (remove k m))

  pub remove_absent : (k : ℕ) (m : Dict V) → lookup k m ≡ none → remove k m ≡ m
  unfolding lookup remove
  remove_absent k [] h = refl
  remove_absent k ((j, v) ∷ m) h = ground (arith, remove_absent k m)

  pub total-insert_fresh :
      (f : V → ℕ) (k : ℕ) (v : V) (m : Dict V)
      → lookup k m ≡ none
      → total f (insert k v m) ≡ total f m + f v
  unfolding lookup insert total
  total-insert_fresh f k v [] h = omega arith
  total-insert_fresh f k v ((j, w) ∷ m) h = ground (arith, total-insert_fresh f k v m)

  pub length-insert_fresh :
      (k : ℕ) (v : V) (m : Dict V) → lookup k m ≡ none → length (insert k v m) ≡ length m + 1
  unfolding lookup insert
  length-insert_fresh k v [] h = omega arith
  length-insert_fresh k v ((j, w) ∷ m) h = ground (arith, length-insert_fresh k v m)

  pub total-insert_present :
      (f : V → ℕ) (lo hi k : ℕ) (v w : V) (m : Dict V)
      → Within lo hi m
      → lookup k m ≡ some w
      → total f (insert k v m) + f w ≡ total f m + f v
  unfolding lookup insert total
  total-insert_present f lo hi k v w [] b h = cc
  total-insert_present f lo hi k v w ((j, u) ∷ m) b h =
      ground (arith, total-insert_present f (suc j) hi k v w m b.2, lookup_low (suc j) hi k m b.2)

  pub length-insert_present :
      (lo hi k : ℕ) (v w : V) (m : Dict V)
      → Within lo hi m
      → lookup k m ≡ some w
      → length (insert k v m) ≡ length m
  unfolding lookup insert
  length-insert_present lo hi k v w [] b h = cc
  length-insert_present lo hi k v w ((j, u) ∷ m) b h =
      ground (arith, length-insert_present (suc j) hi k v w m b.2, lookup_low (suc j) hi k m b.2)

  pub total-remove :
      (f : V → ℕ) (lo hi k : ℕ) (w : V) (m : Dict V)
      → Within lo hi m
      → lookup k m ≡ some w
      → total f (remove k m) + f w ≡ total f m
  unfolding lookup remove total
  total-remove f lo hi k w [] b h = cc
  total-remove f lo hi k w ((j, u) ∷ m) b h =
      ground (
        arith,
        total-remove f (suc j) hi k w m b.2,
        remove_absent k m,
        lookup_low (suc j) hi k m b.2,
      )

  pub length-remove-le : (k : ℕ) (m : Dict V) → length (remove k m) ≤ length m
  unfolding remove
  length-remove-le k [] = omega arith
  length-remove-le k ((j, v) ∷ m) = ground (arith, length-remove-le k m)

  pub Within-lookup :
      (lo hi k : ℕ) (v : V) (m : Dict V)
      → Within lo hi m
      → lookup k m ≡ some v
      → (lo ≤ k) × (k < hi)
  unfolding lookup
  Within-lookup lo hi k v [] w h = cc
  Within-lookup lo hi k v ((j, u) ∷ m) w h = ground (arith, Within-lookup (suc j) hi k v m w.2)

  -- To write over an entry keeps the keys.
  pub Within-overwrite :
      (lo hi k : ℕ) (v w : V) (m : Dict V)
      → Within lo hi m
      → lookup k m ≡ some w
      → Within lo hi (insert k v m)
  Within-overwrite lo hi k v w m b h =
      let (p, q) = Within-lookup lo hi k w m b h in Within-insert lo hi k v m p q b

  pub remove-insert_fresh :
      (k : ℕ) (v : V) (m : Dict V) → lookup k m ≡ none → remove k (insert k v m) ≡ m
  unfolding lookup insert remove
  remove-insert_fresh k v [] h = ground arith
  remove-insert_fresh k v ((j, w) ∷ m) h =
      ground (arith, remove-insert_fresh k v m, remove_absent k m)

  pub insert_twice : (k : ℕ) (v w : V) (m : Dict V) → insert k v (insert k w m) ≡ insert k v m
  unfolding insert
  insert_twice k v w [] = ground arith
  insert_twice k v w ((j, u) ∷ m) = ground (arith, insert_twice k v w m)

  pub lookup-insert_self : (k : ℕ) (v : V) (m : Dict V) → lookup k (insert k v m) ≡ some v
  lookup-insert_self k v m = ground (arith, lookup-insert k k v m)

  pub length-insert-le : (k : ℕ) (v : V) (m : Dict V) → length (insert k v m) ≤ length m + 1
  unfolding insert
  length-insert-le k v [] = omega arith
  length-insert-le k v ((j, w) ∷ m) = ground (arith, length-insert-le k v m)
