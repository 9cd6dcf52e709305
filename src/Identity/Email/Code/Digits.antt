-- ===== src/Identity/Email/Code/Digits.antt =====
-- internal/crypto/rand.go: the digits of a code.
use ktauth.Prelude.{
  ℕ, zero, suc, ◌+◌, ◌-◌, ◌*◌, ◌/◌, ◌%◌, ◌^◌, ◌<◌, ◌≤◌, List, [], ◌∷◌, length, All, ltb, Bool-cases,
  ◌≡◌, refl, inl, inr, ap, ◌∙◌, arith, if◌then◌else◌,
}
use ktauth.Effects.{ok}
use ktauth.Identity.Email.Code.{
  decimal_digits, pad_zeros, padded_digits, digits_text, Random, generate_code,
}

-- The number that digits write, behind the digits of `front`.
abbrev pub reading : ℕ → List ℕ → ℕ
reading front [] = front
reading front (d ∷ ds) = reading (front * 10 + d) ds

abbrev pub IsDecimal : List ℕ → Type 0
IsDecimal = All (λ d. d < 10)

reading-decimal_digits :
    (rounds n : ℕ) (behind : List ℕ)
    → n ≤ rounds
    → reading 0 (decimal_digits rounds n behind) ≡ reading n behind
unfolding decimal_digits
reading-decimal_digits zero n behind h = ap (λ (k : ℕ). reading k behind) (omega arith)
reading-decimal_digits (suc rounds) n behind h = elim (Bool-cases (ltb n 10)) [
  | inl small ↦ rw small (ap (λ (k : ℕ). reading k behind) (omega arith))
  | inr large ↦ rw large (
      reading-decimal_digits rounds (n / 10) (n % 10 ∷ behind) (ground arith)
      ∙ ap (λ (k : ℕ). reading k behind) (omega arith))
]

decimal_digits-IsDecimal :
    (rounds n : ℕ) (behind : List ℕ) → IsDecimal behind → IsDecimal (decimal_digits rounds n behind)
unfolding decimal_digits
decimal_digits-IsDecimal zero n behind h = (omega arith, h)
decimal_digits-IsDecimal (suc rounds) n behind h = elim (Bool-cases (ltb n 10)) [
  | inl small ↦ rw small (ground arith, h)
  | inr large ↦
      rw large (decimal_digits-IsDecimal rounds (n / 10) (n % 10 ∷ behind) (omega arith, h))
]

length-decimal_digits :
    (rounds n width : ℕ) (behind : List ℕ)
    → n < 10 ^ suc width
    → length (decimal_digits rounds n behind) ≤ suc width + length behind
unfolding decimal_digits
length-decimal_digits zero n width behind h = omega arith
length-decimal_digits (suc rounds) n width behind h = elim (Bool-cases (ltb n 10)) [
  | inl small ↦ rw small (omega arith)
  | inr large ↦
      elim width
          as (λ k.
            n < 10 ^ suc k
            → length
                (if ltb n 10 then n ∷ behind else decimal_digits rounds (n / 10) (n % 10 ∷ behind))
              ≤ suc k + length behind) [
                | zero ↦ λ below. absurd (ground arith)
                | suc k ↦ λ below. rw large (
                    let shorter =
                      length-decimal_digits rounds (n / 10) k (n % 10 ∷ behind) (omega arith) in
                    omega arith)
              ]
        h
]

reading-pad_zeros : (k : ℕ) (ds : List ℕ) → reading 0 (pad_zeros k ds) ≡ reading 0 ds
unfolding pad_zeros
reading-pad_zeros zero ds = refl
reading-pad_zeros (suc k) ds = reading-pad_zeros k ds

length-pad_zeros : (k : ℕ) (ds : List ℕ) → length (pad_zeros k ds) ≡ k + length ds
unfolding pad_zeros
length-pad_zeros zero ds = omega arith
length-pad_zeros (suc k) ds = let e = length-pad_zeros k ds in omega arith

pad_zeros-IsDecimal : (k : ℕ) (ds : List ℕ) → IsDecimal ds → IsDecimal (pad_zeros k ds)
unfolding pad_zeros
pad_zeros-IsDecimal zero ds h = h
pad_zeros-IsDecimal (suc k) ds h = (omega arith, pad_zeros-IsDecimal k ds h)

-- For a random number below 10 ^ width, where width is positive, GenerateCode gives the text of
-- exactly width decimal digits which, with their leading zeros, write that number.
pub generate_code-digits :
    {W : Type 0} (random : Random W) (k n : ℕ) (w w' : W)
    → random.int_below (10 ^ suc k) w ≡ (ok n, w')
    → n < 10 ^ suc k
    → (ds : List ℕ) × (generate_code random (suc k) w ≡ (ok (digits_text ds), w'))
      × (length ds ≡ suc k)
      × IsDecimal ds
      × (reading 0 ds ≡ n)
unfolding generate_code padded_digits
generate_code-digits random k n w w' drawn below =
    let ds = decimal_digits n n [] in
    let short = length-decimal_digits n n k [] below in
    let padded = length-pad_zeros (suc k - length ds) ds in
    (
      padded_digits (suc k) n,
      rw drawn refl,
      omega arith,
      pad_zeros-IsDecimal (suc k - length ds) ds (decimal_digits-IsDecimal n n [] tt),
      reading-pad_zeros (suc k - length ds) ds ∙ reading-decimal_digits n n [] (omega arith),
    )
