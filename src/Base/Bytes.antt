-- ===== src/Base/Bytes.antt =====
-- Bytes in a storage: `copy_nonoverlapping` into it, and a slice of it.
use Prim.Native.Nat.{ℕ, zero, suc, ◌<◌}
use mathlib.Core.Path.{◌≡◌, refl}
use mathlib.Core.List.{List, [], ◌∷◌}
use native.Mathlib.Omega.{arith}
use jackstay.Base.Tests.{◌==◌, if◌then◌else◌, ==_refl}
use jackstay.Base.Lists.{length}

unfoldable pub copy_to : (ℕ → ℕ) → ℕ → List ℕ → ℕ → ℕ
copy_to storage start [] = storage
copy_to storage start (b ∷ bs) = λ i. if i == start then b else copy_to storage (suc start) bs i

unfoldable pub slice : (ℕ → ℕ) → ℕ → ℕ → List ℕ
slice storage start zero = []
slice storage start (suc n) = storage start ∷ slice storage (suc start) n

-- A byte before the slice is no part of it.
slice-set :
    (storage : ℕ → ℕ) (place b start n : ℕ)
    → place < start
    → slice (λ i. if i == place then b else storage i) start n ≡ slice storage start n
unfolding slice
slice-set storage place b start zero h = refl
slice-set storage place b start (suc n) h = ground (arith, slice-set storage place b (suc start) n)

-- What was copied is what the slice reads.
pub slice-copy_to :
    (storage : ℕ → ℕ) (start : ℕ) (bs : List ℕ)
    → slice (copy_to storage start bs) start (length bs) ≡ bs
unfolding slice copy_to
slice-copy_to storage start [] = refl
slice-copy_to storage start (b ∷ bs) =
    rw
      (
        slice-set (copy_to storage (suc start) bs) start b (suc start) (length bs) (omega arith),
        slice-copy_to storage (suc start) bs,
        ==_refl start,
      )
      refl
