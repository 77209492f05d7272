-- ===== src/Base/Range.antt =====
-- Loops over `0..n`: a test of some index, the first index that passes, and how many pass.
use Prim.Native.Nat.{ℕ, zero, suc, ◌+◌, ◌≤◌, ◌<◌}
use mathlib.Core.Path.{◌≡◌, subst}
use mathlib.Core.Logic.{inl, inr}
use mathlib.Core.Bool.{Bool, true, false, ◌||◌}
use mathlib.Core.Option.{Option, none, some}
use native.Mathlib.Omega.{arith}
use jackstay.Base.Tests.{◌==◌, if◌then◌else◌, Bool-cases}

-- `(0..n).any(p)`.
unfoldable pub any_below : ℕ → (ℕ → Bool) → Bool
any_below zero p = false
any_below (suc n) p = any_below n p || p n

-- `(start..start + n).find(p)`.
unfoldable pub find_from : ℕ → ℕ → (ℕ → Bool) → Option ℕ
find_from zero start p = none
find_from (suc n) start p = if p start then some start else find_from n (suc start) p

-- `(0..n).filter(p).count()`.
unfoldable pub count_below : ℕ → (ℕ → Bool) → ℕ
count_below zero p = 0
count_below (suc n) p = count_below n p + (if p n then 1 else 0)

-- `for index in start..start + n { s = f(index, s) }`.
unfoldable pub for_each {ℓ} : {S : Type ℓ} → ℕ → ℕ → (ℕ → S → S) → S → S
for_each zero start f s = s
for_each (suc n) start f s = for_each n (suc start) f (f start s)

pub any_below-true : (n i : ℕ) (p : ℕ → Bool) → i < n → p i ≡ true → any_below n p ≡ true
unfolding any_below
any_below-true zero i p h e = absurd (omega arith)
any_below-true (suc n) i p h e = elim (Bool-cases (i == n)) [
  | inl last ↦
      let same : i ≡ n = ground arith in
      let last_passes : p n ≡ true = subst (λ j. p j ≡ true) same e in ground arith
  | inr before ↦ ground (arith, any_below-true n i p)
]

pub any_below-false : (n i : ℕ) (p : ℕ → Bool) → i < n → any_below n p ≡ false → p i ≡ false
unfolding any_below
any_below-false n i p h e = elim (Bool-cases (p i)) [
  | inl t ↦ let u = any_below-true n i p h t in cc
  | inr f ↦ f
]

pub any_below-found :
    (n : ℕ) (p : ℕ → Bool) → any_below n p ≡ true → (i : ℕ) × (i < n) × (p i ≡ true)
unfolding any_below
any_below-found zero p e = absurd (cc)
any_below-found (suc n) p e = elim (Bool-cases (p n)) [
  | inl last ↦ (n, omega arith, last)
  | inr before ↦ let (i, h, q) = any_below-found n p (ground arith) in (i, omega arith, q)
]

pub find_from-some :
    (n start i : ℕ) (p : ℕ → Bool)
    → find_from n start p ≡ some i
    → (start ≤ i) × (i < start + n) × (p i ≡ true)
unfolding find_from
find_from-some zero start i p e = cc
find_from-some (suc n) start i p e = elim (Bool-cases (p start)) [
  | inl t ↦
      let same : start ≡ i = ground arith in
      (omega arith, omega arith, subst (λ j. p j ≡ true) same t)
  | inr f ↦
      let (a, b, c) = find_from-some n (suc start) i p (ground arith) in
      (omega arith, omega arith, c)
]

pub find_from-none :
    (n start i : ℕ) (p : ℕ → Bool)
    → find_from n start p ≡ none
    → start ≤ i
    → i < start + n
    → p i ≡ false
unfolding find_from
find_from-none zero start i p e h k = absurd (omega arith)
find_from-none (suc n) start i p e h k = elim (Bool-cases (p start)) [
  | inl t ↦ ground arith
  | inr f ↦ elim (Bool-cases (i == start)) [
    | inl same ↦ let eq : start ≡ i = ground arith in subst (λ j. p j ≡ false) eq f
    | inr later ↦ find_from-none n (suc start) i p (ground arith) (ground arith) (omega arith)
  ]
]
