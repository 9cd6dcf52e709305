-- ===== src/IpUtils/WellFormed.antt =====
-- pkg/iputils/processip.go: the forms of the version, the address and the network.
use ktauth.Prelude.{
  ℕ, String, List, some, length, Bool-cases, Option-cases, ◌≡◌, refl, subst, inl, inr,
  if◌then◌else◌,
}
use ktauth.Effects.{ok}
use ktauth.Net.Bytes.{cidr_mask}
use ktauth.Net.Parse.{codes, trim_space, parse_ip, parse_cidr}
use ktauth.Net.Lengths.{length-cidr_mask}
use ktauth.Net.Print.{number_and_mask}
use ktauth.IpUtils.{Processed, version_of, single_net, process_text, process_ip}
use ktauth.Net.Networks.{
  IsNet, is_mapped, apply_mask-16, apply_mask-4, to_4-mapped, to_4-other, parse_cidr-IsNet,
  length-parse_ip, Printable, IsNet-Printable,
}

single_net-IsNet : (ip : List ℕ) → length ip ≡ 16 → IsNet (single_net ip)
unfolding single_net
single_net-IsNet ip long = elim (Bool-cases (is_mapped ip)) [
  | inl four ↦
      let some_four = to_4-mapped ip long four in
      let wide = length-cidr_mask 32 4 in
      rw (some_four, single_net)
        (record { sized = inl wide; same = apply_mask-4 ip (cidr_mask 32 4) long four wide })
  | inr six ↦
      let no_four = to_4-other ip long six in
      let wide = length-cidr_mask 64 16 in
      rw (no_four, single_net)
        (record { sized = inr wide; same = apply_mask-16 ip (cidr_mask 64 16) long wide })
]

-- What ProcessIP answers: an address of 16 bytes, its version by its IPv4 prefix, and a network of 4 or
-- 16 bytes with a mask of as many.
pub record IsWellFormed (p : Processed) : Type 0 where
  pub long : length p.ip ≡ 16
  pub versioned : p.version ≡ (if is_mapped p.ip then 4 else 6)
  pub network : IsNet p.ip_net

version_of-mapped : (ip : List ℕ) → length ip ≡ 16 → version_of ip ≡ (if is_mapped ip then 4 else 6)
unfolding version_of
version_of-mapped ip long = elim (Bool-cases (is_mapped ip)) [
  | inl four ↦ rw four (rw (to_4-mapped ip long four, version_of) refl)
  | inr six ↦ rw six (rw (to_4-other ip long six, version_of) refl)
]

process_text-IsWellFormed : (s : String) (p : Processed) → process_text s ≡ ok p → IsWellFormed p
unfolding process_text
process_text-IsWellFormed s p h = elim (Option-cases (parse_cidr (codes s))) [
  | inr ((ip, net), cidr) ↦
      let (long, network) = parse_cidr-IsNet (codes s) ip net cidr in
      let same : record { version = version_of ip; ip = ip; ip_net = net } ≡ p =
        cc (rw (cidr, process_text) at h) in
      subst IsWellFormed same
        (record { long = long; versioned = version_of-mapped ip long; network = network })
  | inl no_cidr ↦ elim (Option-cases (parse_ip (codes s))) [
    | inl bad ↦ absurd (cc (rw (no_cidr, process_text, bad) at h))
    | inr (ip, single) ↦
        let long = length-parse_ip (codes s) ip single in
        let same : record { version = version_of ip; ip = ip; ip_net = single_net ip } ≡ p =
          cc (rw (no_cidr, process_text, single) at h) in
        subst IsWellFormed same (record {
          long = long;
          versioned = version_of-mapped ip long;
          network = single_net-IsNet ip long;
        })
  ]
]

-- Whatever text ProcessIP accepts, it answers an address of 16 bytes, version 4 exactly where
-- these are an IPv4 address and else 6, and a network of 4 or 16 bytes with a mask of as many,
-- which net.IPNet.String prints and does not give up on ("<nil>").
pub process_ip-IsWellFormed :
    (s : String) (p : Processed)
    → process_ip s ≡ ok p
    → IsWellFormed p × ((x : List ℕ × List ℕ) × (number_and_mask p.ip_net ≡ some x))
unfolding process_ip Printable
process_ip-IsWellFormed s p h =
    let good = process_text-IsWellFormed (trim_space s) p h in
    (good, IsNet-Printable p.ip_net good.network)
