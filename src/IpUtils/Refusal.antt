-- ===== src/IpUtils/Refusal.antt =====
-- pkg/iputils/processip.go: what ProcessIP answers to a text that is no address.
use ktauth.Prelude.{String, true, refl, Option-cases, ◌≡◌, inl, inr}
use ktauth.Errors.{Error, ip_error, as_ip_error}
use ktauth.Effects.{err}
use ktauth.Net.Parse.{codes, trim_space, parse_cidr, parse_ip}
use ktauth.IpUtils.{process_text, process_ip}

-- ProcessIP has no error but an *IPError.
process_text-error : (s : String) (e : Error) → process_text s ≡ err e → as_ip_error e ≡ true
unfolding process_text as_ip_error
process_text-error s e bad = elim (Option-cases (parse_cidr (codes s))) [
  | inr (r, net) ↦ absurd (cc (rw (process_text, net) at bad))
  | inl no_net ↦ elim (Option-cases (parse_ip (codes s))) [
    | inr (ip, single) ↦ absurd (cc (rw (process_text, no_net, single) at bad))
    | inl no_ip ↦
        let same : e ≡ ip_error s = cc (rw (process_text, no_net, no_ip) at bad) in rw same refl
  ]
]

pub process_ip-error : (s : String) (e : Error) → process_ip s ≡ err e → as_ip_error e ≡ true
unfolding process_ip
process_ip-error s e bad = process_text-error (trim_space s) e bad
