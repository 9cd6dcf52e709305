-- ===== src/Net/Bytes.antt =====
-- net.IP, net.IPMask and net.IPNet: bytes, the 4-byte form and masks (used by
-- pkg/iputils/processip.go).
use Prim.Native.Nat.{bit_and}
use ktauth.Prelude.{
  ℕ, zero, suc, ◌-◌, ◌^◌, Bool, true, false, ◌&&◌, List, [], ◌∷◌, Option, none, some, ◌==◌, leb,
  length, if◌then◌else◌,
}

-- net.IPNet
pub record IpNet : Type 0 where
  pub ip : List ℕ
  pub mask : List ℕ

unfoldable pub take : ℕ → List ℕ → List ℕ
take zero xs = []
take (suc n) [] = []
take (suc n) (x ∷ xs) = x ∷ take n xs

unfoldable pub drop : ℕ → List ℕ → List ℕ
drop zero xs = xs
drop (suc n) [] = []
drop (suc n) (x ∷ xs) = drop n xs

unfoldable pub replicate : ℕ → ℕ → List ℕ
replicate zero x = []
replicate (suc n) x = x ∷ replicate n x

unfoldable pub bytes_eq : List ℕ → List ℕ → Bool
bytes_eq [] [] = true
bytes_eq [] (y ∷ ys) = false
bytes_eq (x ∷ xs) [] = false
bytes_eq (x ∷ xs) (y ∷ ys) = x == y && bytes_eq xs ys

-- v4InV6Prefix
abbrev pub v4_in_v6_prefix : List ℕ
v4_in_v6_prefix = 0 ∷ 0 ∷ 0 ∷ 0 ∷ 0 ∷ 0 ∷ 0 ∷ 0 ∷ 0 ∷ 0 ∷ 255 ∷ 255 ∷ []

-- ip.To4()
unfoldable pub to_4 : List ℕ → Option (List ℕ)
unfolding take drop bytes_eq
to_4 ip =
    if length ip == 4
    then some ip
    else if length ip == 16 && bytes_eq (take 12 ip) v4_in_v6_prefix
    then some (drop 12 ip)
    else none

-- net.CIDRMask(ones, 8 * l): the first `ones` bits of l bytes are set
unfoldable pub cidr_mask : ℕ → ℕ → List ℕ
cidr_mask ones zero = []
cidr_mask ones (suc l) =
    if leb 8 ones then 255 ∷ cidr_mask (ones - 8) l else (256 - 2 ^ (8 - ones)) ∷ cidr_mask 0 l

unfoldable pub and_bytes : List ℕ → List ℕ → List ℕ
and_bytes [] ms = []
and_bytes (x ∷ xs) [] = []
and_bytes (x ∷ xs) (m ∷ ms) = bit_and x m ∷ and_bytes xs ms

-- ip.Mask(mask); nil is the empty slice
unfoldable pub apply_mask : List ℕ → List ℕ → List ℕ
unfolding take drop bytes_eq and_bytes replicate
apply_mask ip mask =
    let mask' : List ℕ =
      if length mask == 16 && (length ip == 4 && bytes_eq (take 12 mask) (replicate 12 255))
      then drop 12 mask
      else mask in
    let ip' : List ℕ =
      if length mask' == 4 && (length ip == 16 && bytes_eq (take 12 ip) v4_in_v6_prefix)
      then drop 12 ip
      else ip in
    if length ip' == length mask' then and_bytes ip' mask' else []
