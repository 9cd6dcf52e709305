-- ===== src/Tests/Settings.antt =====
-- cmd/ktauth/main.go: settings of example environments.
use Prim.Native.String.{String}
use ktauth.Prelude.{pos, negsuc, [], ◌∷◌, true, map, str_eq, ◌≡◌, refl, arith, if◌then◌else◌}
use ktauth.Net.Parse.{codes}
use ktauth.Repository.RateLimit.{seconds}
use ktauth.Strings.Numbers.{Denotes}
use ktauth.Slog.{info, warn, error}
use ktauth.App.Environment.{log_level, minutes, trusted_proxies, load_settings}
use ktauth.App.Environment.Reading.{Reads, load_settings-Reads, window_exact}

abbrev getenv : String → String
getenv name =
    if str_eq name "RATELIMIT"
    then "-5"
    else if str_eq name "ABUSELIMIT"
    then "1e3"
    else if str_eq name "ABUSEWINDOW"
    then "+07"
    else if str_eq name "ENABLE_RATELIMIT"
    then "no"
    else ""

loaded :
    let s = load_settings getenv in
    (s.rate_limit ≡ negsuc 4)
    × (s.abuse_limit ≡ pos 100)
    × (s.abuse_window ≡ pos 420000000000)
    × (s.rate_limit_enabled ≡ true)
unfolding load_settings
loaded = (refl, refl, refl, refl)

-- A window of 153722868 minutes wraps around to a negative one.
wrapped : seconds (minutes (pos 153722868)) ≡ negsuc 9223371992
unfolding seconds minutes
wrapped = refl

levels : map log_level (" Info\n" ∷ "ERROR" ∷ "verbose" ∷ "" ∷ []) ≡ info ∷ error ∷ warn ∷ warn ∷ []
unfolding log_level
levels = refl

proxies :
    (trusted_proxies "" ≡ codes "127.0.0.0/8" ∷ codes "::1/128" ∷ [])
    × (trusted_proxies "10.0.0.0/8," ≡ codes "10.0.0.0/8" ∷ [] ∷ [])
unfolding trusted_proxies
proxies = (refl, refl)

load_settings-Reads_example :
    Reads "-5" (λ z. z) (pos 60) (load_settings getenv).rate_limit
    × Reads "1e3" (λ z. z) (pos 100) (load_settings getenv).abuse_limit
    × Reads "+07" minutes (pos 300000000000) (load_settings getenv).abuse_window
load_settings-Reads_example = load_settings-Reads getenv

plus_seven : Denotes (codes "+07") (pos 7)
plus_seven =
    Denotes.plus (codes "07") 7 refl
      ((cc), ((omega arith, omega arith), ((omega arith, omega arith), tt)), refl) refl

window_exact_example : seconds (load_settings getenv).abuse_window ≡ pos 420
window_exact_example = window_exact getenv (pos 7) plus_seven (omega arith)
