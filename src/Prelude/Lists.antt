-- ===== src/Prelude/Lists.antt =====
-- Lists over the native numbers: lengths, counts and filters by a Boolean test.
use Prim.Native.Nat.{ℕ, suc, ◌+◌, ◌≤◌}
use mathlib.Core.Path.{◌≡◌, refl}
use mathlib.Core.Bool.{Bool, true, false}
use mathlib.Core.List.{List, [], ◌∷◌}
use native.Mathlib.Omega.{arith}
use ktauth.Prelude.Tests.{if◌then◌else◌}

module _ {ℓ} {A : Type ℓ} where
  abbrev pub length : List A → ℕ
  length [] = 0
  length (x ∷ xs) = suc (length xs)

  -- How many elements pass the test.
  abbrev pub count : (A → Bool) → List A → ℕ
  count p [] = 0
  count p (x ∷ xs) = (if p x then 1 else 0) + count p xs

  abbrev pub filter : (A → Bool) → List A → List A
  filter p [] = []
  filter p (x ∷ xs) = let rest = filter p xs in if p x then x ∷ rest else rest

  abbrev pub any : (A → Bool) → List A → Bool
  any p [] = false
  any p (x ∷ xs) = if p x then true else any p xs

module _ {ℓ κ} {A : Type ℓ} where
  abbrev pub All : (A → Type κ) → List A → Type κ
  All P [] = Unit
  All P (x ∷ xs) = P x × All P xs

module _ {ℓ} {A : Type ℓ} (p q : A → Bool) where
  -- A weaker test counts at least as many.
  pub count-le_of_imp :
      (xs : List A) → ((x : A) → p x ≡ true → q x ≡ true) → count p xs ≤ count q xs
  count-le_of_imp [] h = omega arith
  count-le_of_imp (x ∷ xs) h = ground (arith, h x, count-le_of_imp xs h)

  -- Elements that the filter drops and the count does not see.
  pub count-filter :
      (xs : List A) → ((x : A) → q x ≡ true → p x ≡ true) → count q (filter p xs) ≡ count q xs
  count-filter [] h = refl
  count-filter (x ∷ xs) h = ground (arith, h x, count-filter xs h)

module _ {ℓ} {A : Type ℓ} (p : A → Bool) where
  pub length-filter : (xs : List A) → length (filter p xs) ≡ count p xs
  length-filter [] = refl
  length-filter (x ∷ xs) = ground (arith, length-filter xs)

  pub count-eq-zero : (xs : List A) → All (λ x. p x ≡ false) xs → count p xs ≡ 0
  count-eq-zero [] h = refl
  count-eq-zero (x ∷ xs) h = ground (arith, count-eq-zero xs)
