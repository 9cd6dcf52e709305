-- ===== src/IpUtils.antt =====
-- pkg/iputils/processip.go: the version, the address and the network of a client address or a CIDR.
pub mod Refusal
pub mod WellFormed
mod Tests
use ktauth.Prelude.{ℕ, String, List, Option, none, some}
use ktauth.Errors.{ip_error}
use ktauth.Effects.{Result, ok, err}
use ktauth.Net.Bytes.{IpNet, to_4, cidr_mask, apply_mask}
use ktauth.Net.Parse.{codes, trim_space, parse_ip, parse_cidr}

-- What ProcessIP returns beside its error.
pub record Processed : Type 0 where
  pub version : ℕ
  pub ip : List ℕ
  pub ip_net : IpNet

version_of : List ℕ → ℕ
unfolding to_4
version_of ip = elim (to_4 ip) [ some four ↦ 4 | none ↦ 6 ]

-- The network of a single address: itself, or its /64.
single_net : List ℕ → IpNet
unfolding to_4 cidr_mask apply_mask
single_net ip = elim (to_4 ip) [
  | some four ↦ record { ip = apply_mask ip (cidr_mask 32 4); mask = cidr_mask 32 4 }
  | none ↦ record { ip = apply_mask ip (cidr_mask 64 16); mask = cidr_mask 64 16 }
]

process_text : String → Result Processed
unfolding version_of single_net parse_cidr parse_ip
process_text s = elim (parse_cidr (codes s)) [
  | some (ip, net) ↦ ok (record { version = version_of ip; ip = ip; ip_net = net })
  | none ↦ elim (parse_ip (codes s)) [
    | none ↦ err (ip_error s)
    | some ip ↦ ok (record { version = version_of ip; ip = ip; ip_net = single_net ip })
  ]
]

-- ProcessIP
unfoldable pub process_ip : String → Result Processed
unfolding process_text trim_space
process_ip s = process_text (trim_space s)
