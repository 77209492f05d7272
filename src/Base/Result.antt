-- ===== src/Base/Result.antt =====
-- Rust's `Result` with `?`, and a method's outcome: the object it leaves beside what it returns.
use mathlib.Core.Path.{◌≡◌, refl}
use mathlib.Core.Logic.{◌⊎◌, inl, inr}
use mathlib.Core.Bool.{Bool, true, false}
use mathlib.Core.Option.{Option, none, some}

pub data Result {ℓ κ} (E : Type ℓ) (A : Type κ) : Type (ℓ ⊔ κ) where
  ok : A → Result E A
  err : E → Result E A

-- What a `&mut self` method does: the object afterwards, and the value returned.
abbrev pub Outcome : Type 0 → Type 0 → Type 0 → Type 0
Outcome S E A = S × Result E A

infixl 5 ◌>>=◌ ◌>>◌
abbrev pub ◌>>=◌ : {E A B : Type 0} → Result E A → (A → Result E B) → Result E B
ok a >>= f = f a
err e >>= f = err e

abbrev pub ◌>>◌ : {E B : Type 0} → Result E (Unit {0}) → Result E B → Result E B
m >> k = m >>= λ _. k

-- `o.ok_or(e)`.
abbrev pub ok_or : {E A : Type 0} → Option A → E → Result E A
ok_or none e = err e
ok_or (some a) e = ok a

-- `if refused { return Err(e); }`.
abbrev pub reject_if : {E : Type 0} → Bool → E → Result E (Unit {0})
reject_if true e = err e
reject_if false e = ok tt

-- What holds of the value, if there is one.
pub record Returns {E A : Type 0} (r : Result E A) (P : A → Type 0) : Type 0 where
  pub result : (a : A) → r ≡ ok a → P a

pub Returns-cases :
    {E A : Type 0} (r : Result E A) {P : A → Type 0}
    → Returns r P
    → ((a : A) × (r ≡ ok a) × P a) ⊎ ((e : E) × (r ≡ err e))
Returns-cases (ok a) h = inl (a, refl, h.result a refl)
Returns-cases (err e) h = inr (e, refl)

pub Result-cases {ℓ κ} :
    {E : Type ℓ} {A : Type κ} (r : Result E A) → ((a : A) × (r ≡ ok a)) ⊎ ((e : E) × (r ≡ err e))
Result-cases (ok a) = inl (a, refl)
Result-cases (err e) = inr (e, refl)
