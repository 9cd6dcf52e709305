-- ===== src/Strings/Trimming.antt =====
-- strings.TrimSpace, strings.Split and strings.ReplaceAll: what they leave.
use ktauth.Prelude.{
  ℕ, zero, suc, true, false, List, [], ◌∷◌, ◌++◌, ◌==◌, Bool-cases, ◌≡◌, ◌≢◌, inl, inr, refl, arith,
  ap, ◌∙◌, length, All, if◌then◌else◌, ◌&&◌,
}
use ktauth.Net.Parse.{is_space}
use ktauth.Strings.{
  Text, is_blank, trim_left, trim_right, trim, split, onto_first, has_prefix, remove_loop,
  remove_all,
}

-- The first and the last character, if any, are not spaces.
abbrev pub Starts : Text → Type 0
Starts [] = Unit
Starts (c ∷ s) = is_space c ≡ false

abbrev pub Ends : Text → Type 0
Ends [] = Unit
Ends (c ∷ []) = is_space c ≡ false
Ends (c ∷ d ∷ s) = Ends (d ∷ s)

trim_left-Starts : (s : Text) → Starts (trim_left s)
unfolding trim_left
trim_left-Starts [] = tt
trim_left-Starts (c ∷ s) = elim (Bool-cases (is_space c)) [
  | inl space ↦ rw space (trim_left-Starts s)
  | inr ink ↦ rw ink ink
]

trim_right-Starts : (s : Text) → Starts s → Starts (trim_right s)
unfolding trim_right
trim_right-Starts [] h = tt
trim_right-Starts (c ∷ s) h = rw h h

-- A character that is not a space, or one before a text that is not empty, ends well.
cons-Ends : (c : ℕ) (s : Text) → Ends s → Ends (if is_space c && is_blank s then [] else c ∷ s)
cons-Ends c [] h = elim (Bool-cases (is_space c)) [ inl space ↦ rw space tt | inr ink ↦ rw ink ink ]
cons-Ends c (d ∷ s) h = elim (Bool-cases (is_space c)) [
  | inl space ↦ rw space h
  | inr ink ↦ rw ink h
]

trim_right-Ends : (s : Text) → Ends (trim_right s)
unfolding trim_right
trim_right-Ends [] = tt
trim_right-Ends (c ∷ s) = cons-Ends c (trim_right s) (trim_right-Ends s)

pub trim-Starts : (s : Text) → Starts (trim s)
unfolding trim
trim-Starts s = trim_right-Starts (trim_left s) (trim_left-Starts s)

pub trim-Ends : (s : Text) → Ends (trim s)
unfolding trim
trim-Ends s = trim_right-Ends (trim_left s)

-- Whatever holds of all characters of a text holds of those that are left.
module _ (P : ℕ → Type 0) where
  trim_left-All : (s : Text) → All P s → All P (trim_left s)
  unfolding trim_left
  trim_left-All [] h = tt
  trim_left-All (c ∷ s) (hc, hs) = elim (Bool-cases (is_space c)) [
    | inl space ↦ rw space (trim_left-All s hs)
    | inr ink ↦ rw ink (hc, hs)
  ]

  trim_right-All : (s : Text) → All P s → All P (trim_right s)
  unfolding trim_right
  trim_right-All [] h = tt
  trim_right-All (c ∷ s) (hc, hs) = elim (Bool-cases (is_space c && is_blank (trim_right s))) [
    | inl dropped ↦ rw dropped tt
    | inr stays ↦ rw stays (hc, trim_right-All s hs)
  ]

  pub trim-All : (s : Text) → All P s → All P (trim s)
  unfolding trim
  trim-All s h = trim_right-All (trim_left s) (trim_left-All s h)

  remove_loop-All : (old : Text) (skip : ℕ) (s : Text) → All P s → All P (remove_loop old skip s)
  unfolding remove_loop
  remove_loop-All old skip [] h = tt
  remove_loop-All old (suc skip) (c ∷ s) (hc, hs) = remove_loop-All old skip s hs
  remove_loop-All [] zero (c ∷ s) h = h
  remove_loop-All (p ∷ old) zero (c ∷ s) (hc, hs) =
      elim (Bool-cases (has_prefix (p ∷ old) (c ∷ s))) [
        | inl found ↦ rw found (remove_loop-All (p ∷ old) (length old) s hs)
        | inr missed ↦ rw missed (hc, remove_loop-All (p ∷ old) zero s hs)
      ]

  pub remove_all-All : (old s : Text) → All P s → All P (remove_all old s)
  unfolding remove_all
  remove_all-All old s h = remove_loop-All old zero s h

-- No part of a split has the mark.
abbrev Unmarked : ℕ → Text → Type 0
Unmarked mark = All (λ c. (c == mark) ≡ false)

onto_first-Unmarked :
    (mark c : ℕ) (parts : List Text)
    → (c == mark) ≡ false
    → All (Unmarked mark) parts
    → All (Unmarked mark) (onto_first c parts)
onto_first-Unmarked mark c [] hc h = ((hc, tt), tt)
onto_first-Unmarked mark c (part ∷ parts) hc (first, others) = ((hc, first), others)

pub split-Unmarked : (mark : ℕ) (s : Text) → All (Unmarked mark) (split mark s)
unfolding split
split-Unmarked mark [] = (tt, tt)
split-Unmarked mark (c ∷ s) = elim (Bool-cases (c == mark)) [
  | inl cut ↦ rw cut (tt, split-Unmarked mark s)
  | inr other ↦ rw other (onto_first-Unmarked mark c (split mark s) other (split-Unmarked mark s))
]

onto_first-ne-nil : (c : ℕ) (parts : List Text) → onto_first c parts ≢ []
onto_first-ne-nil c [] e = cc
onto_first-ne-nil c (part ∷ parts) e = cc

onto_first-append :
    (c : ℕ) (parts more : List Text)
    → parts ≢ []
    → onto_first c (parts ++ more) ≡ onto_first c parts ++ more
onto_first-append c [] more h = absurd (h refl)
onto_first-append c (part ∷ parts) more h = refl

split-ne-nil : (mark : ℕ) (s : Text) → split mark s ≢ []
unfolding split
split-ne-nil mark [] e = cc
split-ne-nil mark (c ∷ s) e = elim (Bool-cases (c == mark)) [
  | inl cut ↦ cc (rw cut at e)
  | inr other ↦ onto_first-ne-nil c (split mark s) (rw other at e)
]

-- Two texts joined by the mark have the parts of both.
pub split-append :
    (mark : ℕ) (s t : Text) → split mark (s ++ mark ∷ t) ≡ split mark s ++ split mark t
unfolding split
split-append mark [] t = let same : (mark == mark) ≡ true = ground arith in rw same refl
split-append mark (c ∷ s) t = elim (Bool-cases (c == mark)) [
  | inl cut ↦ rw cut (ap (λ parts. [] ∷ parts) (split-append mark s t))
  | inr other ↦ rw other (
      ap (onto_first c) (split-append mark s t)
      ∙ onto_first-append c (split mark s) (split mark t) (split-ne-nil mark s))
]
