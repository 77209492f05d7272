-- ===== src/Base/Every.antt =====
-- A property of every entry of a dictionary.
use jackstay.Base.Tests.{Bool-cases}
use mathlib.Core.Path.{◌≡◌}
use mathlib.Core.Logic.{inl, inr}
use mathlib.Core.Bool.{Bool, true}
use mathlib.Core.Option.{some}
use mathlib.Core.List.{[], ◌∷◌}
use Prim.Native.Nat.{ℕ}
use native.Mathlib.Omega.{arith}
use jackstay.Base.Dict.{Dict, lookup, insert, remove, retain}

module _ {ℓ} {V : Type ℓ} where
  abbrev pub Every {κ} : (ℕ → V → Type κ) → Dict V → Type κ
  Every P [] = Unit {κ}
  Every P ((k, v) ∷ m) = P k v × Every P m

  module _ (P : ℕ → V → Type 0) where
    pub Every-insert : (k : ℕ) (v : V) (m : Dict V) → P k v → Every P m → Every P (insert k v m)
    unfolding insert
    Every-insert k v [] p h = (p, tt)
    Every-insert k v ((j, w) ∷ m) p h = ground (arith, Every-insert k v m p h.1)

    pub Every-remove : (k : ℕ) (m : Dict V) → Every P m → Every P (remove k m)
    unfolding remove
    Every-remove k [] h = tt
    Every-remove k ((j, w) ∷ m) h = ground (arith, Every-remove k m h.1)

    pub Every-lookup : (k : ℕ) (v : V) (m : Dict V) → Every P m → lookup k m ≡ some v → P k v
    unfolding lookup
    Every-lookup k v [] h e = cc
    Every-lookup k v ((j, w) ∷ m) h e = ground (arith, Every-lookup k v m h.1)

  -- What passes the test may turn to another property.
  pub Every-retain :
      (P Q : ℕ → V → Type 0) (p : ℕ → V → Bool) (m : Dict V)
      → ((k : ℕ) (v : V) → P k v → p k v ≡ true → Q k v)
      → Every P m
      → Every Q (retain p m)
  unfolding retain
  Every-retain P Q p [] f h = tt
  Every-retain P Q p ((j, w) ∷ m) f h = elim (Bool-cases (p j w)) [
    | inl e ↦ rw e (f j w h.0 e, Every-retain P Q p m f h.1)
    | inr e ↦ rw e (Every-retain P Q p m f h.1)
  ]

  pub Every-map :
      (P Q : ℕ → V → Type 0) (m : Dict V)
      → ((k : ℕ) (v : V) → P k v → Q k v)
      → Every P m
      → Every Q m
  Every-map P Q [] f h = tt
  Every-map P Q ((j, w) ∷ m) f h = (f j w h.0, Every-map P Q m f h.1)
