-- ===== src/IpUtils/Tests.antt =====
-- Runs of pkg/iputils/processip.go on addresses of its tests and of the README.
use ktauth.Prelude.{ℕ, String, ◌≡◌, refl}
use ktauth.Effects.{on}
use ktauth.Net.Print.{net_string}
use ktauth.IpUtils.{process_ip}

-- The version and the network that the program uses as a key.
shown : String → ℕ × String
unfolding process_ip net_string
shown s = on (process_ip s) (λ e. (0, "")) (λ p. (p.version, net_string p.ip_net))

four : shown " 192.168.1.10 " ≡ (4, "192.168.1.10/32")
unfolding shown
four = refl

four_cidr : shown "10.1.2.3/8" ≡ (4, "10.0.0.0/8")
unfolding shown
four_cidr = refl

four_odd : shown "172.16.99.3/12" ≡ (4, "172.16.0.0/12")
unfolding shown
four_odd = refl

six : shown "2001:db8:0:1:aaaa::1" ≡ (6, "2001:db8:0:1::/64")
unfolding shown
six = refl

loopback : shown "::1" ≡ (6, "::/64")
unfolding shown
loopback = refl

mapped : shown "::ffff:1.2.3.4" ≡ (4, "1.2.3.4/32")
unfolding shown
mapped = refl

mapped_cidr : shown "::ffff:1.2.3.4/120" ≡ (4, "1.2.3.0/24")
unfolding shown
mapped_cidr = refl

six_cidr : shown "2001:DB8::1/33" ≡ (6, "2001:db8::/33")
unfolding shown
six_cidr = refl

refused : shown "1.2.3.256" ≡ (0, "")
unfolding shown
refused = refl

refused_zero : shown "1.2.03.4" ≡ (0, "")
unfolding shown
refused_zero = refl

refused_zone : shown "fe80::1%eth0" ≡ (0, "")
unfolding shown
refused_zone = refl

refused_long : shown "10.0.0.0/33" ≡ (0, "")
unfolding shown
refused_long = refl

refused_colons : shown "1::2::3" ≡ (0, "")
unfolding shown
refused_colons = refl
