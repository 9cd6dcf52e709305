-- ===== src/Net/Print.antt =====
-- net.IP.String and net.IPNet.String.
use Prim.Native.String.{String, ◌++◌}
use ktauth.Prelude.{
  ℕ, suc, ◌+◌, ◌*◌, ◌/◌, ◌%◌, Bool, true, ◌&&◌, not, List, [], ◌∷◌, Option, none, some, ◌==◌, leb,
  ltb, length, if◌then◌else◌,
}
use ktauth.Net.Bytes.{IpNet, take, drop, to_4}

unfoldable pub digit : ℕ → String
digit n =
    if n == 0
    then "0"
    else if n == 1
    then "1"
    else if n == 2
    then "2"
    else if n == 3
    then "3"
    else if n == 4
    then "4"
    else if n == 5
    then "5"
    else if n == 6
    then "6"
    else if n == 7
    then "7"
    else if n == 8
    then "8"
    else if n == 9
    then "9"
    else if n == 10
    then "a"
    else if n == 11
    then "b"
    else if n == 12
    then "c"
    else if n == 13
    then "d"
    else if n == 14
    then "e"
    else "f"

-- A byte, or a prefix length, in decimal.
unfoldable pub decimal : ℕ → String
unfolding digit
decimal n =
    if ltb n 10
    then digit n
    else if ltb n 100
    then digit (n / 10) ++ digit (n % 10)
    else digit (n / 100) ++ (digit (n / 10 % 10) ++ digit (n % 10))

unfoldable pub dotted : List ℕ → String
unfolding decimal
dotted [] = ""
dotted (b ∷ []) = decimal b
dotted (b ∷ c ∷ bs) = decimal b ++ ("." ++ dotted (c ∷ bs))

-- Two hexadecimal digits for each byte.
unfoldable pub hex_bytes : List ℕ → String
unfolding digit
hex_bytes [] = ""
hex_bytes (b ∷ bs) = digit (b / 16) ++ (digit (b % 16) ++ hex_bytes bs)

-- A group of 16 bits in hexadecimal, without leading zeros.
unfoldable pub hex_group : ℕ → String
unfolding digit
hex_group n =
    let ones = digit (n % 16) in
    let sixteens = digit (n / 16 % 16) ++ ones in
    let third = digit (n / 256 % 16) ++ sixteens in
    if ltb n 16
    then ones
    else if ltb n 256
    then sixteens
    else if ltb n 4096
    then third
    else digit (n / 4096) ++ third

unfoldable pub groups : List ℕ → List ℕ
groups [] = []
groups (b ∷ []) = []
groups (b ∷ c ∷ bs) = (b * 256 + c) ∷ groups bs

unfoldable pub zeros : List ℕ → ℕ
zeros [] = 0
zeros (g ∷ gs) = let more = suc (zeros gs) in if g == 0 then more else 0

-- The start and the length of the first longest run of at least two zero groups; length 0 is none.
unfoldable pub longest_run : ℕ → ℕ × ℕ → List ℕ → ℕ × ℕ
unfolding zeros
longest_run i best [] = best
longest_run i (start, len) (g ∷ gs) =
    let run = zeros (g ∷ gs) in
    longest_run (i + 1) (if leb 2 run && ltb len run then (i, run) else (start, len)) gs

unfoldable pub join_groups : List ℕ → String
unfolding hex_group
join_groups [] = ""
join_groups (g ∷ []) = hex_group g
join_groups (g ∷ h ∷ gs) = hex_group g ++ (":" ++ join_groups (h ∷ gs))

-- Addr.appendTo6
unfoldable pub compressed : List ℕ → String
unfolding longest_run join_groups take drop
compressed gs =
    let (start, len) = longest_run 0 (0, 0) gs in
    if len == 0
    then join_groups gs
    else join_groups (take start gs) ++ ("::" ++ join_groups (drop (start + len) gs))

-- ip.String()
unfoldable pub ip_string : List ℕ → String
unfolding to_4 dotted groups compressed hex_bytes
ip_string ip =
    if length ip == 0
    then "<nil>"
    else if not (length ip == 4) && not (length ip == 16)
    then "?" ++ hex_bytes ip
    else elim (to_4 ip) [ some four ↦ dotted four | none ↦ compressed (groups ip) ]

-- The leading ones of a byte whose other bits are zero.
unfoldable pub ones_of_byte : ℕ → Option ℕ
ones_of_byte b =
    if b == 0
    then some 0
    else if b == 128
    then some 1
    else if b == 192
    then some 2
    else if b == 224
    then some 3
    else if b == 240
    then some 4
    else if b == 248
    then some 5
    else if b == 252
    then some 6
    else if b == 254
    then some 7
    else none

unfoldable pub all_zero : List ℕ → Bool
all_zero [] = true
all_zero (b ∷ bs) = b == 0 && all_zero bs

-- simpleMaskLength; -1 is none
unfoldable pub mask_length : ℕ → List ℕ → Option ℕ
unfolding ones_of_byte all_zero
mask_length n [] = some n
mask_length n (b ∷ bs) =
    let go_on = mask_length (n + 8) bs in
    if b == 255
    then go_on
    else elim (ones_of_byte b) [ none ↦ none | some k ↦ if all_zero bs then some (n + k) else none ]

-- networkNumberAndMask; nil is none
unfoldable pub number_and_mask : IpNet → Option (List ℕ × List ℕ)
unfolding to_4 drop
number_and_mask n =
    let ip : List ℕ = elim (to_4 n.ip) [ some four ↦ four | none ↦ n.ip ] in
    if not (length ip == 4) && not (length ip == 16)
    then none
    else if length n.mask == 4
    then (if length ip == 4 then some (ip, n.mask) else none)
    else if length n.mask == 16
    then some (ip, if length ip == 4 then drop 12 n.mask else n.mask)
    else none

-- n.String()
unfoldable pub net_string : IpNet → String
unfolding number_and_mask mask_length ip_string hex_bytes decimal
net_string n = elim (number_and_mask n) [
  | none ↦ "<nil>"
  | some (ip, mask) ↦ elim (mask_length 0 mask) [
    | none ↦ ip_string ip ++ ("/" ++ hex_bytes mask)
    | some l ↦ ip_string ip ++ ("/" ++ decimal l)
  ]
]
