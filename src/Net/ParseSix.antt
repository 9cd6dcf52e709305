-- ===== src/Net/ParseSix.antt =====
-- netip's parser of IPv6 addresses, which net.ParseIP and net.ParseCIDR call. A zone is refused by
-- both callers, so it is refused before this parser.
use ktauth.Prelude.{
  ℕ, zero, suc, ◌+◌, ◌-◌, ◌*◌, ◌/◌, ◌%◌, Bool, true, false, ◌&&◌, ◌||◌, not, List, [], ◌∷◌, ◌++◌,
  Option, none, some, ◌==◌, leb, ltb, length, if◌then◌else◌,
}
use ktauth.Net.Bytes.{take, drop, replicate}
use ktauth.Net.ParseFour.{is_digit, parse_ipv4}

unfoldable pub hex_digit : ℕ → Option ℕ
unfolding is_digit
hex_digit c =
    if is_digit c
    then some (c - b'0')
    else if leb b'a' c && leb c b'f'
    then some (c - b'a' + 10)
    else if leb b'A' c && leb c b'F'
    then some (c - b'A' + 10)
    else none

-- One group of hexadecimal digits: how many, its value, and the text behind it. A fifth digit fails.
unfoldable pub parse_hex : ℕ → ℕ → List ℕ → Option (ℕ × ℕ × List ℕ)
unfolding hex_digit
parse_hex off acc [] = some (off, acc, [])
parse_hex off acc (c ∷ s) = elim (hex_digit c) [
  | none ↦ some (off, acc, c ∷ s)
  | some d ↦ if ltb 3 off then none else parse_hex (off + 1) (acc * 16 + d) s
]

abbrev pub starts_with : ℕ → List ℕ → Bool
starts_with c [] = false
starts_with c (x ∷ xs) = x == c

abbrev pub is_some : Option ℕ → Bool
is_some none = false
is_some (some n) = true

-- Where the ellipsis stands, the bytes read, the text left.
abbrev pub State : Type 0
State = Option ℕ × List ℕ × List ℕ

-- An address may end in a dotted IPv4 address.
unfoldable pub trailing_ipv4 : Option ℕ → List ℕ → List ℕ → Option State
trailing_ipv4 ellipsis bytes s =
    if (not (is_some ellipsis) && not (length bytes == 12)) || ltb 16 (length bytes + 4)
    then none
    else elim (parse_ipv4 s) [ none ↦ none | some fields ↦ some (ellipsis, bytes ++ fields, []) ]

-- What stands behind a group: the end, a colon, or a colon and an ellipsis; true to go on.
unfoldable pub after_group : Option ℕ → List ℕ → List ℕ → Option (Bool × State)
after_group ellipsis bytes [] = some (false, (ellipsis, bytes, []))
after_group ellipsis bytes (c ∷ []) = none
after_group ellipsis bytes (c ∷ d ∷ s) =
    if not (c == b':')
    then none
    else if not (d == b':')
    then some (true, (ellipsis, bytes, d ∷ s))
    else if is_some ellipsis
    then none
    else some (not (length s == 0), (some (length bytes), bytes, s))

-- The loop of parseIPv6 over the groups; each round reads two bytes, so eight rounds are enough.
unfoldable pub groups_loop : ℕ → State → Option State
unfolding parse_hex trailing_ipv4 after_group
groups_loop zero state = some state
groups_loop (suc rounds) (ellipsis, bytes, s) = elim (parse_hex 0 0 s) [
  | none ↦ none
  | some (off, acc, rest) ↦
      if off == 0
      then none
      else if starts_with b'.' rest
      then trailing_ipv4 ellipsis bytes s
      else elim (after_group ellipsis (bytes ++ (acc / 256) ∷ (acc % 256) ∷ []) rest) [
        | none ↦ none
        | some (more, next) ↦ elim more [ true ↦ groups_loop rounds next | false ↦ some next ]
      ]
]

-- The zeros that an ellipsis stands for: at least one group.
unfoldable pub expand_ellipsis : State → Option (List ℕ)
unfolding take drop replicate
expand_ellipsis (ellipsis, bytes, s) = if not (length s == 0) then none else elim ellipsis [
  | none ↦ if length bytes == 16 then some bytes else none
  | some k ↦
      if length bytes == 16
      then none
      else some (take k bytes ++ (replicate (16 - length bytes) 0 ++ drop k bytes))
]

unfoldable pub parse_groups : State → Option (List ℕ)
unfolding groups_loop expand_ellipsis
parse_groups state = elim (groups_loop 8 state) [ none ↦ none | some end ↦ expand_ellipsis end ]

-- parseIPv6
unfoldable pub parse_ipv6 : List ℕ → Option (List ℕ)
unfolding parse_groups replicate
parse_ipv6 (c ∷ d ∷ s) =
    if c == b':' && d == b':'
    then (if length s == 0 then some (replicate 16 0) else parse_groups (some 0, [], s))
    else parse_groups (none, [], c ∷ d ∷ s)
parse_ipv6 s = parse_groups (none, [], s)
