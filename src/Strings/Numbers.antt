-- ===== src/Strings/Numbers.antt =====
-- strconv.Atoi: the texts that it reads, and their numbers.
use mathlib.Core.List.{foldl, cons-ne-nil}
use ktauth.Prelude.{
  ℕ, ◌+◌, ◌-◌, ◌*◌, ◌^◌, ◌<◌, ◌≤◌, ℤ, pos, negsuc, sub_ℕ, false, [], ◌∷◌, Option, none, some, All,
  ltb, leb, ◌==◌, Bool-cases, ◌≡◌, ◌≢◌, inl, inr, refl, arith,
}
use ktauth.Net.ParseFour.{is_digit}
use ktauth.Strings.{Text, digits_value, unsigned, positive, negative, atoi}

abbrev pub IsDigit : ℕ → Type 0
IsDigit c = (b'0' ≤ c) × (c ≤ b'9')

-- The number that digits write behind n.
abbrev pub value : ℕ → Text → ℕ
value = foldl (λ n c. n * 10 + (c - b'0'))

-- A text of at least one digit, and its number.
abbrev pub Unsigned : Text → ℕ → Type 0
Unsigned s n = (s ≢ []) × All IsDigit s × (n ≡ value 0 s)

-- A text of digits behind at most one sign, and its number.
pub data Denotes (s : Text) (z : ℤ) : Type 0 where
  plain : (n : ℕ) → Unsigned s n → z ≡ pos n → Denotes s z
  plus : (t : Text) (n : ℕ) → s ≡ b'+' ∷ t → Unsigned t n → z ≡ pos n → Denotes s z
  minus : (t : Text) (n : ℕ) → s ≡ b'-' ∷ t → Unsigned t n → z ≡ sub_ℕ 0 n → Denotes s z

abbrev pub IsInt64 : ℤ → Type 0
IsInt64 (pos n) = n < 2 ^ 63
IsInt64 (negsuc n) = n < 2 ^ 63

digits_value_sound :
    (s : Text) (n m : ℕ) → digits_value n s ≡ some m → All IsDigit s × (m ≡ value n s)
unfolding digits_value is_digit
digits_value_sound [] n m h = ground arith
digits_value_sound (c ∷ s) n m h = ground (arith, digits_value_sound s (n * 10 + (c - b'0')) m)

digits_value_complete : (s : Text) (n : ℕ) → All IsDigit s → digits_value n s ≡ some (value n s)
unfolding digits_value is_digit
digits_value_complete [] n h = refl
digits_value_complete (c ∷ s) n (hc, hs) =
    ground (arith, digits_value_complete s (n * 10 + (c - b'0')) hs)

unsigned_sound : (s : Text) (n : ℕ) → unsigned s ≡ some n → Unsigned s n
unfolding unsigned
unsigned_sound [] n h = absurd (cc)
unsigned_sound (c ∷ s) n h =
    let (digits, e) = digits_value_sound (c ∷ s) 0 n h in (cons-ne-nil c s, digits, e)

unsigned_complete : (s : Text) (n : ℕ) → Unsigned s n → unsigned s ≡ some n
unfolding unsigned
unsigned_complete [] n (h, _, _) = absurd (h refl)
unsigned_complete (c ∷ s) n (_, digits, e) = rw e (digits_value_complete (c ∷ s) 0 digits)

positive_sound :
    (o : Option ℕ) (z : ℤ) → positive o ≡ some z → (n : ℕ) × (o ≡ some n) × (z ≡ pos n) × IsInt64 z
unfolding positive
positive_sound none z h = absurd (cc)
positive_sound (some n) z h = elim (Bool-cases (ltb n (2 ^ 63))) [
  | inl small ↦ let e : z ≡ pos n = cc (rw small at h) in (n, refl, e, rw e (ground arith))
  | inr large ↦ absurd (cc (rw large at h))
]

negative_sound :
    (o : Option ℕ) (z : ℤ)
    → negative o ≡ some z
    → (n : ℕ) × (o ≡ some n) × (z ≡ sub_ℕ 0 n) × IsInt64 z
unfolding negative
negative_sound none z h = absurd (cc)
negative_sound (some n) z h = elim (Bool-cases (leb n (2 ^ 63))) [
  | inl small ↦ let e : z ≡ sub_ℕ 0 n = cc (rw small at h) in (n, refl, e, rw e (ground arith))
  | inr large ↦ absurd (cc (rw large at h))
]

positive_complete : (n : ℕ) → IsInt64 (pos n) → positive (some n) ≡ some (pos n)
unfolding positive
positive_complete n h = ground arith

negative_complete : (n : ℕ) → IsInt64 (sub_ℕ 0 n) → negative (some n) ≡ some (sub_ℕ 0 n)
unfolding negative
negative_complete n h = ground arith

pub atoi_sound : (s : Text) (z : ℤ) → atoi s ≡ some z → Denotes s z × IsInt64 z
unfolding atoi
atoi_sound [] z h = absurd (cc)
atoi_sound (c ∷ s) z h = elim (Bool-cases (c == b'-')) [
  | inl dash ↦
      let (n, read, e, fits) = negative_sound (unsigned s) z (rw dash at h) in
      let mark : c ≡ b'-' = ground arith in
      (Denotes.minus s n (rw mark refl) (unsigned_sound s n read) e, fits)
  | inr no_dash ↦ elim (Bool-cases (c == b'+')) [
    | inl cross ↦
        let (n, read, e, fits) = positive_sound (unsigned s) z (rw (no_dash, cross) at h) in
        let mark : c ≡ b'+' = ground arith in
        (Denotes.plus s n (rw mark refl) (unsigned_sound s n read) e, fits)
    | inr no_cross ↦
        let (n, read, e, fits) =
          positive_sound (unsigned (c ∷ s)) z (rw (no_dash, no_cross) at h) in
        (Denotes.plain n (unsigned_sound (c ∷ s) n read) e, fits)
  ]
]

atoi-digits : (s : Text) (n : ℕ) → Unsigned s n → IsInt64 (pos n) → atoi s ≡ some (pos n)
unfolding atoi
atoi-digits [] n (h, _, _) fits = absurd (h refl)
atoi-digits (c ∷ s) n u fits =
    let low = u.1.0.0 in
    let no_dash : (c == b'-') ≡ false = ground (arith, low) in
    let no_cross : (c == b'+') ≡ false = ground (arith, low) in
    rw (no_dash, no_cross, unsigned_complete (c ∷ s) n u) (positive_complete n fits)

pub atoi_complete : (s : Text) (z : ℤ) → Denotes s z → IsInt64 z → atoi s ≡ some z
unfolding atoi
atoi_complete s z (Denotes.plain n u e) fits = rw e (atoi-digits s n u (rw e at fits))
atoi_complete s z (Denotes.plus t n shape u e) fits =
    rw (shape, unsigned_complete t n u, e) (positive_complete n (rw e at fits))
atoi_complete s z (Denotes.minus t n shape u e) fits =
    rw (shape, unsigned_complete t n u, e) (negative_complete n (rw e at fits))
