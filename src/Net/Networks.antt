-- ===== src/Net/Networks.antt =====
-- net.ParseIP, net.ParseCIDR, net.IP.Mask and net.IPNet.String: the sizes of addresses and networks.
use ktauth.Prelude.{
  ℕ, ◌*◌, Bool, true, false, List, none, some, ◌==◌, leb, any, length, Bool-cases, Option-cases,
  ◌≡◌, ◌⊎◌, ◌∙◌, refl, sym, ap, subst, inl, inr, arith,
}
use ktauth.Net.Bytes.{IpNet, take, drop, bytes_eq, v4_in_v6_prefix, to_4, cidr_mask, apply_mask}
use ktauth.Net.Parse.{first_mark, parse_addr, as_16, parse_ip, cut_slash, dtoi, cidr_of, parse_cidr}
use ktauth.Net.Lengths.{
  length-drop, length-cidr_mask, length-and_bytes, length-parse_ipv4, length-parse_ipv6,
}
use ktauth.Net.Print.{number_and_mask}

-- 4 or 16 bytes.
abbrev pub IsSized : List ℕ → Type 0
IsSized bytes = (length bytes ≡ 4) ⊎ (length bytes ≡ 16)

parse_addr-IsSized : (s bytes : List ℕ) → parse_addr s ≡ some bytes → IsSized bytes
unfolding parse_addr
parse_addr-IsSized s bytes h = elim (Bool-cases (any (λ c. c == b'%') s)) [
  | inl zone ↦ absurd (cc (rw zone at h))
  | inr no_zone ↦ elim (Bool-cases (first_mark s == b'.')) [
    | inl dotted ↦ inl (length-parse_ipv4 s bytes (rw (no_zone, dotted) at h))
    | inr other ↦ elim (Bool-cases (first_mark s == b':')) [
      | inl colons ↦ inr (length-parse_ipv6 s bytes (rw (no_zone, other, colons) at h))
      | inr unmarked ↦ absurd (cc (rw (no_zone, other, unmarked) at h))
    ]
  ]
]

length-as_16 : (bytes : List ℕ) → IsSized bytes → length (as_16 bytes) ≡ 16
unfolding as_16
length-as_16 bytes (inl four) = rw four (omega (arith, four))
length-as_16 bytes (inr sixteen) = rw sixteen sixteen

-- A network of 4 or 16 bytes with a mask of as many.
pub record IsNet (net : IpNet) : Type 0 where
  pub sized : IsSized net.mask
  pub same : length net.ip ≡ length net.mask

-- A mask of 16 bytes is applied to all 16 bytes of an address.
pub apply_mask-16 :
    (ip mask : List ℕ)
    → length ip ≡ 16
    → length mask ≡ 16
    → length (apply_mask ip mask) ≡ length mask
unfolding apply_mask
apply_mask-16 ip mask long wide = ground (arith, length-and_bytes ip mask)

-- One of 4 bytes to the last 4 of an IPv4 address.
pub apply_mask-4 :
    (ip mask : List ℕ)
    → length ip ≡ 16
    → bytes_eq (take 12 ip) v4_in_v6_prefix ≡ true
    → length mask ≡ 4
    → length (apply_mask ip mask) ≡ length mask
unfolding apply_mask
apply_mask-4 ip mask long four narrow =
    ground (arith, length-drop 12 ip, length-and_bytes (drop 12 ip) mask)

mapped-as_16 :
    (bytes : List ℕ) → length bytes ≡ 4 → bytes_eq (take 12 (as_16 bytes)) v4_in_v6_prefix ≡ true
unfolding as_16 take bytes_eq
mapped-as_16 bytes four = rw four refl

cidr_of-IsNet :
    (bytes : List ℕ) (n : ℕ) (ip : List ℕ) (net : IpNet)
    → IsSized bytes
    → cidr_of bytes n ≡ some (ip, net)
    → (length ip ≡ 16) × IsNet net
unfolding cidr_of
cidr_of-IsNet bytes n ip net sized h = elim (Bool-cases (leb n (8 * length bytes))) [
  | inr long ↦ absurd (cc (rw long at h))
  | inl short ↦
      let mask = cidr_mask n (length bytes) in
      let wide = length-cidr_mask n (length bytes) in
      let long = length-as_16 bytes sized in
      let made : (as_16 bytes, record { ip = apply_mask (as_16 bytes) mask; mask = mask })
          ≡ (ip, net) =
        cc (rw short at h) in
      let even : length (apply_mask (as_16 bytes) mask) ≡ length mask =
        elim sized as (λ _. length (apply_mask (as_16 bytes) mask) ≡ length mask) [
          | inl four ↦ apply_mask-4 (as_16 bytes) mask long (mapped-as_16 bytes four) (wide ∙ four)
          | inr sixteen ↦ apply_mask-16 (as_16 bytes) mask long (wide ∙ sixteen)
        ] in
      let size : IsSized mask = elim sized as (λ _. IsSized mask) [
        | inl four ↦ inl (wide ∙ four)
        | inr sixteen ↦ inr (wide ∙ sixteen)
      ] in
      subst (λ (o : List ℕ × IpNet). (length o.0 ≡ 16) × IsNet o.1) made
        (long, record { sized = size; same = even })
]

pub parse_cidr-IsNet :
    (s ip : List ℕ) (net : IpNet) → parse_cidr s ≡ some (ip, net) → (length ip ≡ 16) × IsNet net
unfolding parse_cidr
parse_cidr-IsNet s ip net h = elim (Option-cases (cut_slash s)) [
  | inl whole ↦ absurd (cc (rw (whole, parse_cidr) at h))
  | inr ((addr, mask), cut) ↦ elim (Option-cases (parse_addr addr)) [
    | inl bad ↦ absurd (cc (rw (cut, parse_cidr, bad) at h))
    | inr (bytes, read) ↦ elim (Option-cases (dtoi mask)) [
      | inl bad ↦ absurd (cc (rw (cut, parse_cidr, read, bad) at h))
      | inr (n, ones) ↦
          cidr_of-IsNet bytes n ip net (parse_addr-IsSized addr bytes read)
            (rw (cut, parse_cidr, read, ones) at h)
    ]
  ]
]

pub length-parse_ip : (s ip : List ℕ) → parse_ip s ≡ some ip → length ip ≡ 16
unfolding parse_ip
length-parse_ip s ip h = elim (Option-cases (parse_addr s)) [
  | inl bad ↦ absurd (cc (rw (bad, parse_ip) at h))
  | inr (bytes, read) ↦
      let same : as_16 bytes ≡ ip = cc (rw (read, parse_ip) at h) in
      sym (ap length same) ∙ length-as_16 bytes (parse_addr-IsSized s bytes read)
]

-- An IPv4 address in 16 bytes.
abbrev pub is_mapped : List ℕ → Bool
is_mapped ip = bytes_eq (take 12 ip) v4_in_v6_prefix

pub to_4-mapped : (ip : List ℕ) → length ip ≡ 16 → is_mapped ip ≡ true → to_4 ip ≡ some (drop 12 ip)
unfolding to_4
to_4-mapped ip long four = ground (arith, long, four)

pub to_4-other : (ip : List ℕ) → length ip ≡ 16 → is_mapped ip ≡ false → to_4 ip ≡ none
unfolding to_4
to_4-other ip long six = ground (arith, long, six)

to_4-four : (ip : List ℕ) → length ip ≡ 4 → to_4 ip ≡ some ip
unfolding to_4
to_4-four ip four = rw four refl

-- The bytes and the mask that the printer reads are there.
unfoldable pub Printable : List ℕ → List ℕ → Type 0
Printable ip mask =
    (x : List ℕ × List ℕ) × (number_and_mask (record { ip = ip; mask = mask }) ≡ some x)

number_and_mask_four : (ip mask : List ℕ) → length ip ≡ 4 → length mask ≡ 4 → Printable ip mask
unfolding number_and_mask Printable
number_and_mask_four ip mask four narrow =
    ((ip, mask), rw (to_4-four ip four, number_and_mask, four, narrow) refl)

number_and_mask_sixteen : (ip mask : List ℕ) → length ip ≡ 16 → length mask ≡ 16 → Printable ip mask
unfolding number_and_mask Printable
number_and_mask_sixteen ip mask long wide = elim (Bool-cases (is_mapped ip)) [
  | inl four ↦
      let rest : length (drop 12 ip) ≡ 4 = length-drop 12 ip ∙ (omega (arith, long)) in
      ((drop 12 ip, drop 12 mask), rw (to_4-mapped ip long four, number_and_mask, rest, wide) refl)
  | inr six ↦ ((ip, mask), rw (to_4-other ip long six, number_and_mask, long, wide) refl)
]

pub IsNet-Printable : (net : IpNet) → IsNet net → Printable net.ip net.mask
IsNet-Printable net n = elim n.sized [
  | inl four ↦ number_and_mask_four net.ip net.mask (n.same ∙ four) four
  | inr sixteen ↦ number_and_mask_sixteen net.ip net.mask (n.same ∙ sixteen) sixteen
]
