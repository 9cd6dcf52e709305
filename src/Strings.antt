-- ===== src/Strings.antt =====
-- What cmd/ktauth/main.go and internal/middleware/accesslog.go use of Go's strings and strconv, on the
-- code points of a text.
pub mod Numbers
pub mod Trimming
use ktauth.Prelude.{
  ℕ, zero, suc, ◌+◌, ◌-◌, ◌*◌, ◌^◌, length, ℤ, pos, negsuc, sub_ℕ, Bool, true, false, ◌&&◌, ◌||◌,
  List, [], ◌∷◌, Option, none, some, map, ◌==◌, leb, ltb, if◌then◌else◌,
}
use ktauth.Net.Bytes.{drop}
use ktauth.Net.Parse.{is_space}
use ktauth.Net.ParseFour.{is_digit}

abbrev pub Text : Type 0
Text = List ℕ

abbrev pub is_blank : Text → Bool
is_blank [] = true
is_blank (c ∷ s) = false

unfoldable pub trim_left : Text → Text
unfolding is_space
trim_left [] = []
trim_left (c ∷ s) = if is_space c then trim_left s else c ∷ s

unfoldable pub trim_right : Text → Text
unfolding is_space
trim_right [] = []
trim_right (c ∷ s) = let rest = trim_right s in if is_space c && is_blank rest then [] else c ∷ rest

-- strings.TrimSpace
unfoldable pub trim : Text → Text
unfolding trim_left trim_right
trim s = trim_right (trim_left s)

-- unicode.ToLower of ASCII letters and of the two other letters that it maps to ASCII ones; of any
-- other letter it gives one outside ASCII, which a comparison with an ASCII word does not tell from the
-- letter itself.
abbrev pub lower : ℕ → ℕ
lower c =
    if leb b'A' c && leb c b'Z'
    then c + 32
    else if c == 0x130
    then b'i'
    else if c == 0x212a
    then b'k'
    else c

-- strings.ToLower
abbrev pub to_lower : Text → Text
to_lower s = map lower s

-- The first part of a split takes one more character.
abbrev pub onto_first : ℕ → List Text → List Text
onto_first c [] = (c ∷ []) ∷ []
onto_first c (part ∷ parts) = (c ∷ part) ∷ parts

-- strings.Split and strings.SplitSeq at one character
unfoldable pub split : ℕ → Text → List Text
split mark [] = [] ∷ []
split mark (c ∷ s) =
    let parts = split mark s in if c == mark then [] ∷ parts else onto_first c parts

-- strings.HasPrefix
unfoldable pub has_prefix : Text → Text → Bool
has_prefix [] s = true
has_prefix (p ∷ ps) [] = false
has_prefix (p ∷ ps) (c ∷ s) = p == c && has_prefix ps s

-- strings.ReplaceAll of a text that is not empty by "": `skip` characters of an occurrence are left.
unfoldable pub remove_loop : Text → ℕ → Text → Text
unfolding has_prefix
remove_loop old skip [] = []
remove_loop old (suc skip) (c ∷ s) = remove_loop old skip s
remove_loop (p ∷ old) zero (c ∷ s) =
    let found = remove_loop (p ∷ old) (length old) s in
    let missed = c ∷ remove_loop (p ∷ old) zero s in
    if has_prefix (p ∷ old) (c ∷ s) then found else missed
remove_loop [] zero (c ∷ s) = c ∷ s

unfoldable pub remove_all : Text → Text → Text
unfolding remove_loop
remove_all old s = remove_loop old 0 s

-- The number that a text of decimal digits writes.
unfoldable pub digits_value : ℕ → Text → Option ℕ
unfolding is_digit
digits_value n [] = some n
digits_value n (c ∷ s) =
    let rest = digits_value (n * 10 + (c - b'0')) s in if is_digit c then rest else none

unfoldable pub unsigned : Text → Option ℕ
unfolding digits_value
unsigned [] = none
unsigned (c ∷ s) = digits_value 0 (c ∷ s)

-- The int64 of a sign and a magnitude; none is the range error.
unfoldable pub positive : Option ℕ → Option ℤ
positive none = none
positive (some n) = if ltb n (2 ^ 63) then some (pos n) else none

unfoldable pub negative : Option ℕ → Option ℤ
negative none = none
negative (some n) = if leb n (2 ^ 63) then some (sub_ℕ 0 n) else none

-- strconv.Atoi; none is an error
unfoldable pub atoi : Text → Option ℤ
unfolding unsigned positive negative
atoi [] = none
atoi (c ∷ s) =
    if c == b'-'
    then negative (unsigned s)
    else if c == b'+'
    then positive (unsigned s)
    else positive (unsigned (c ∷ s))
