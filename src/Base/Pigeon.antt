-- ===== src/Base/Pigeon.antt =====
-- Counting arguments: so many indices with values of their own need as many values.
use Prim.Native.Nat.{ℕ, zero, suc, ◌+◌, ◌≤◌, ◌<◌}
use mathlib.Core.Path.{◌≡◌, refl}
use mathlib.Core.Logic.{◌≢◌, ◌⊎◌, inl, inr}
use mathlib.Core.Bool.{Bool, true, false, ◌||◌}
use mathlib.Core.List.{List, [], ◌∷◌, ◌++◌}
use native.Mathlib.Omega.{arith}
use jackstay.Base.Tests.{◌==◌, if◌then◌else◌, Bool-cases}
use jackstay.Base.Lists.{length}
use jackstay.Base.Range.{any_below, count_below}

pub member : ℕ → List ℕ → Bool
member a [] = false
member a (x ∷ xs) = a == x || member a xs

-- All but the first occurrence.
erase : ℕ → List ℕ → List ℕ
erase a [] = []
erase a (x ∷ xs) = if a == x then xs else x ∷ erase a xs

member-erase : (a b : ℕ) (xs : List ℕ) → a ≢ b → member a xs ≡ true → member a (erase b xs) ≡ true
unfolding member erase
member-erase a b [] h m = cc
member-erase a b (x ∷ xs) h m = ground (arith, member-erase a b xs)

length-erase : (a : ℕ) (xs : List ℕ) → member a xs ≡ true → length xs ≡ suc (length (erase a xs))
unfolding member erase
length-erase a [] m = cc
length-erase a (x ∷ xs) m = ground (arith, length-erase a xs)

-- Each index below `n` is marked, or has a value in the list that no other unmarked index has.
pub pigeon :
    (n : ℕ) (p : ℕ → Bool) (f : ℕ → ℕ) (vs : List ℕ)
    → ((i : ℕ) → i < n → (p i ≡ true) ⊎ (member (f i) vs ≡ true))
    → ((i j : ℕ) → i < n → j < n → p i ≡ false → p j ≡ false → f i ≡ f j → i ≡ j)
    → n ≤ count_below n p + length vs
unfolding count_below
pigeon zero p f vs h inj = omega arith
pigeon (suc n) p f vs h inj = elim (Bool-cases (p n)) [
  | inl t ↦
      let rest =
        pigeon n p f vs (λ i k. h i (omega arith))
          (λ i j k l. inj i j (omega arith) (omega arith)) in
      rw t (omega arith)
  | inr t ↦ elim (h n (omega arith)) [
    | inl u ↦ cc
    | inr m ↦
        let rest =
          pigeon n p f (erase (f n) vs)
            (λ i k. elim (Bool-cases (p i)) [
              | inl u ↦ inl u
              | inr u ↦ elim (h i (omega arith)) [
                | inl v ↦ inl v
                | inr v ↦ inr (
                    member-erase (f i) (f n) vs
                      (λ same. absurd (omega (arith, inj i n (omega arith) (omega arith) u t same)))
                      v)
              ]
            ])
            (λ i j k l. inj i j (omega arith) (omega arith)) in
        rw t (omega (arith, length-erase (f n) vs m))
  ]
]

-- `start..start + n`.
pub span : ℕ → ℕ → List ℕ
span start zero = []
span start (suc n) = start ∷ span (suc start) n

pub length-span : (start n : ℕ) → length (span start n) ≡ n
unfolding span
length-span start zero = refl
length-span start (suc n) = omega (arith, length-span (suc start) n)

pub member-span : (a start n : ℕ) → start ≤ a → a < start + n → member a (span start n) ≡ true
unfolding member span
member-span a start zero h k = absurd (omega arith)
member-span a start (suc n) h k = ground (arith, member-span a (suc start) n)

pub member-append_left : (a : ℕ) (xs ys : List ℕ) → member a xs ≡ true → member a (xs ++ ys) ≡ true
unfolding member
member-append_left a [] ys h = cc
member-append_left a (x ∷ xs) ys h = ground (arith, member-append_left a xs ys)

pub member-append_right : (a : ℕ) (xs ys : List ℕ) → member a ys ≡ true → member a (xs ++ ys) ≡ true
unfolding member
member-append_right a [] ys h = h
member-append_right a (x ∷ xs) ys h = ground (arith, member-append_right a xs ys)

pub member-singleton : (a : ℕ) → member a (a ∷ []) ≡ true
unfolding member
member-singleton a = ground arith

-- The values of a function below `n`.
pub values : (ℕ → ℕ) → ℕ → List ℕ
values f zero = []
values f (suc n) = f n ∷ values f n

pub length-values : (f : ℕ → ℕ) (n : ℕ) → length (values f n) ≡ n
unfolding values
length-values f zero = refl
length-values f (suc n) = omega (arith, length-values f n)

pub member-values :
    (f : ℕ → ℕ) (n a : ℕ) → any_below n (λ i. f i == a) ≡ true → member a (values f n) ≡ true
unfolding any_below values member
member-values f zero a h = cc
member-values f (suc n) a h = ground (arith, member-values f n a)
