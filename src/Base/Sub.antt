-- ===== src/Base/Sub.antt =====
-- One list inside another, in order: what is left of a queue when entries are dropped.
use Prim.Native.Nat.{◌≤◌}
use mathlib.Core.List.{List, [], ◌∷◌, ◌++◌}
use native.Mathlib.Omega.{arith}
use jackstay.Base.Lists.{length}

pub data Sub {ℓ} {A : Type ℓ} : List A → List A → Type ℓ where
  done : Sub [] []
  skip : {xs ys : List A} (y : A) → Sub xs ys → Sub xs (y ∷ ys)
  take : {xs ys : List A} (x : A) → Sub xs ys → Sub (x ∷ xs) (x ∷ ys)

module _ {ℓ} {A : Type ℓ} where
  pub Sub-refl : (xs : List A) → Sub xs xs
  Sub-refl [] = done
  Sub-refl (x ∷ xs) = take x (Sub-refl xs)

  pub Sub-nil : (xs : List A) → Sub [] xs
  Sub-nil [] = done
  Sub-nil (x ∷ xs) = skip x (Sub-nil xs)

  pub Sub-trans : {xs ys zs : List A} → Sub xs ys → Sub ys zs → Sub xs zs
  Sub-trans h done = h
  Sub-trans h (skip y k) = skip y (Sub-trans h k)
  Sub-trans (skip y h) (take x k) = skip x (Sub-trans h k)
  Sub-trans (take {xs = xs} y h) (take x k) = take x (Sub-trans {xs = xs} h k)

  -- A prefix is inside, and so is a list with one entry left out.
  pub Sub-prefix : (xs ys : List A) → Sub xs (xs ++ ys)
  Sub-prefix [] ys = Sub-nil ys
  Sub-prefix (x ∷ xs) ys = take x (Sub-prefix xs ys)

  pub Sub-drop : (xs ys : List A) (y : A) → Sub (xs ++ ys) (xs ++ (y ∷ ys))
  Sub-drop [] ys y = skip y (Sub-refl ys)
  Sub-drop (x ∷ xs) ys y = take x (Sub-drop xs ys y)

  pub length-Sub : {xs ys : List A} → Sub xs ys → length xs ≤ length ys
  length-Sub done = omega arith
  length-Sub (skip y h) = omega (arith, length-Sub h)
  length-Sub (take x h) = omega (arith, length-Sub h)
