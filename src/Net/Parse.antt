-- ===== src/Net/Parse.antt =====
-- net.ParseIP, net.ParseCIDR and strings.TrimSpace.
use Prim.Native.Char.{code}
use Prim.Native.String.{String}
use ktauth.Prelude.{
  ℕ, ◌+◌, ◌-◌, ◌*◌, Bool, true, false, ◌&&◌, ◌||◌, List, [], ◌∷◌, ◌++◌, Option, none, some, ◌==◌,
  leb, any, length, if◌then◌else◌,
}
use ktauth.Net.Bytes.{IpNet, v4_in_v6_prefix, cidr_mask, apply_mask}
use ktauth.Net.ParseFour.{is_digit, parse_ipv4}
use ktauth.Net.ParseSix.{parse_ipv6}

-- The code points of a text.
abbrev pub codes : String → List ℕ
codes String.[] = []
codes (String.◌∷◌ c s) = code c ∷ codes s

-- unicode.IsSpace
unfoldable pub is_space : ℕ → Bool
is_space c =
    (leb 9 c && leb c 13)
    || (c == 32
        || (c == 0x85
            || (c == 0xa0
                || (c == 0x1680
                    || ((leb 0x2000 c && leb c 0x200a)
                        || (c == 0x2028
                            || (c == 0x2029 || (c == 0x202f || (c == 0x205f || c == 0x3000)))))))))

unfoldable pub trim_left : String → String
unfolding is_space
trim_left String.[] = String.[]
trim_left (String.◌∷◌ c s) = if is_space (code c) then trim_left s else String.◌∷◌ c s

abbrev is_empty : String → Bool
is_empty String.[] = true
is_empty (String.◌∷◌ c s) = false

unfoldable pub trim_right : String → String
unfolding is_space
trim_right String.[] = String.[]
trim_right (String.◌∷◌ c s) =
    let rest = trim_right s in
    if is_space (code c) && is_empty rest then String.[] else String.◌∷◌ c rest

-- strings.TrimSpace
unfoldable pub trim_space : String → String
unfolding trim_left trim_right
trim_space s = trim_right (trim_left s)

-- The first of '.' and ':' decides the kind of the address; '%' (a zone) is refused.
unfoldable pub first_mark : List ℕ → ℕ
first_mark [] = 0
first_mark (c ∷ s) = if c == b'.' || (c == b':' || c == b'%') then c else first_mark s

-- netip.ParseAddr without a zone: 4 or 16 bytes
unfoldable pub parse_addr : List ℕ → Option (List ℕ)
unfolding first_mark parse_ipv4 parse_ipv6
parse_addr s =
    let mark = first_mark s in
    if any (λ c. c == b'%') s
    then none
    else if mark == b'.'
    then parse_ipv4 s
    else if mark == b':'
    then parse_ipv6 s
    else none

-- Addr.As16
unfoldable pub as_16 : List ℕ → List ℕ
as_16 bytes = if length bytes == 4 then v4_in_v6_prefix ++ bytes else bytes

-- net.ParseIP; nil is none
unfoldable pub parse_ip : List ℕ → Option (List ℕ)
unfolding parse_addr as_16
parse_ip s = elim (parse_addr s) [ none ↦ none | some bytes ↦ some (as_16 bytes) ]

-- The text before and behind the first slash.
unfoldable pub cut_slash : List ℕ → Option (List ℕ × List ℕ)
cut_slash [] = none
cut_slash (c ∷ s) =
    let rest : Option (List ℕ × List ℕ) = elim (cut_slash s) [
      | none ↦ none
      | some (before, behind) ↦ some (c ∷ before, behind)
    ] in
    if c == b'/' then some ([], s) else rest

-- dtoi of a text that is digits to its end, below 0xffffff
unfoldable pub dtoi_loop : ℕ → List ℕ → Option ℕ
unfolding is_digit
dtoi_loop n [] = some n
dtoi_loop n (c ∷ s) =
    let rest = dtoi_loop (n * 10 + (c - b'0')) s in
    if is_digit c && leb (n * 10 + (c - b'0') + 1) 0xffffff then rest else none

unfoldable pub dtoi : List ℕ → Option ℕ
unfolding dtoi_loop
dtoi s = if length s == 0 then none else dtoi_loop 0 s

unfoldable pub cidr_of : List ℕ → ℕ → Option (List ℕ × IpNet)
unfolding as_16 cidr_mask apply_mask
cidr_of bytes n =
    if leb n (8 * length bytes)
    then (let mask = cidr_mask n (length bytes) in
        some (as_16 bytes, record { ip = apply_mask (as_16 bytes) mask; mask = mask }))
    else none

-- net.ParseCIDR; none is an error
unfoldable pub parse_cidr : List ℕ → Option (List ℕ × IpNet)
unfolding cut_slash parse_addr dtoi cidr_of
parse_cidr s = elim (cut_slash s) [
  | none ↦ none
  | some (addr, mask) ↦ elim (parse_addr addr) [
    | none ↦ none
    | some bytes ↦ elim (dtoi mask) [ none ↦ none | some n ↦ cidr_of bytes n ]
  ]
]
