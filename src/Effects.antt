-- ===== src/Effects.antt =====
-- Go functions that return `(value, error)` and change the world: the state of the services behind
-- the program is passed through, also beside an error.
use ktauth.Prelude.{◌≡◌, refl, ◌⊎◌, inl, inr}
use ktauth.Errors.{Error}

pub data Result {ℓ} (A : Type ℓ) : Type ℓ where
  ok : A → Result A
  err : Error → Result A

abbrev pub Op : Type 0 → Type 0 → Type 0
Op W A = W → Result A × W

-- `if err != nil { … } …` on a result that was computed.
abbrev pub on {ℓ κ} : {A : Type ℓ} {B : Type κ} → Result A → (Error → B) → (A → B) → B
on (ok a) failed go_on = go_on a
on (err e) failed go_on = failed e

pub Result-cases {ℓ} :
    {A : Type ℓ} (r : Result A) → ((a : A) × (r ≡ ok a)) ⊎ ((e : Error) × (r ≡ err e))
Result-cases (ok a) = inl (a, refl)
Result-cases (err e) = inr (e, refl)
