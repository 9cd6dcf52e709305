-- ===== src/Identity/Email/Code.antt =====
-- internal/crypto/rand.go: a code of decimal digits, padded with zeros.
pub mod Digits
use Prim.Native.String.{String, ◌++◌}
use ktauth.Prelude.{ℕ, zero, suc, ◌-◌, ◌/◌, ◌%◌, ◌^◌, List, [], ◌∷◌, length, ltb, if◌then◌else◌}
use ktauth.Effects.{ok, err, on, Op}
use ktauth.Net.Print.{digit}

-- The decimal digits of n; each round takes one, so n rounds are enough.
pub decimal_digits : ℕ → ℕ → List ℕ → List ℕ
decimal_digits zero n behind = n % 10 ∷ behind
decimal_digits (suc rounds) n behind =
    let more = decimal_digits rounds (n / 10) (n % 10 ∷ behind) in
    if ltb n 10 then n ∷ behind else more

pub pad_zeros : ℕ → List ℕ → List ℕ
pad_zeros zero ds = ds
pad_zeros (suc n) ds = 0 ∷ pad_zeros n ds

-- "%0*d"
pub padded_digits : ℕ → ℕ → List ℕ
unfolding decimal_digits pad_zeros
padded_digits width n = let ds = decimal_digits n n [] in pad_zeros (width - length ds) ds

pub digits_text : List ℕ → String
digits_text [] = ""
digits_text (d ∷ ds) = digit d ++ digits_text ds

-- rand.Int(rand.Reader, max): a number below max
pub record Random (W : Type 0) : Type 0 where
  pub int_below : ℕ → Op W ℕ

-- GenerateCode
unfoldable pub generate_code : {W : Type 0} → Random W → ℕ → Op W String
unfolding padded_digits digits_text
generate_code random digits w =
    let (n, w₁) = random.int_below (10 ^ digits) w in
    (on n (λ e. err e) (λ k. ok (digits_text (padded_digits digits k))), w₁)
