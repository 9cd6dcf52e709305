-- ===== src/App/Environment.antt =====
-- cmd/ktauth/main.go: the settings that main and updateAdmin read from the environment.
pub mod Reading
use Prim.Native.String.{String}
use ktauth.Prelude.{
  ℕ, ◌+◌, ◌-◌, ◌*◌, ◌%◌, ◌^◌, ℤ, pos, negsuc, Bool, not, List, [], ◌∷◌, Option, none, some, map,
  ltb, str_eq, any, length, ◌&&◌, if◌then◌else◌,
}
use ktauth.Net.Bytes.{bytes_eq}
use ktauth.Net.Parse.{codes}
use ktauth.Strings.{Text, atoi, trim, to_lower, split}
use ktauth.Slog.{Level, debug, info, warn, error}
use ktauth.App.{Settings}

-- The switch on LOGLEVEL
unfoldable pub log_level : String → Level
unfolding trim bytes_eq
log_level value =
    let name = trim (to_lower (codes value)) in
    if bytes_eq name (codes "debug")
    then debug
    else if bytes_eq name (codes "info")
    then info
    else if bytes_eq name (codes "warn")
    then warn
    else if bytes_eq name (codes "error")
    then error
    else warn

-- `v, err := strconv.Atoi(value); if err != nil { v = fallback }`
unfoldable pub int_setting : String → ℤ → ℤ
unfolding atoi
int_setting value fallback = elim (atoi (codes value)) [ none ↦ fallback | some n ↦ n ]

-- The int64 that a number is modulo 2^64; `negated` is of the number's negative.
unfoldable pub int64 : ℕ → ℤ
int64 n = let m = n % 2 ^ 64 in if ltb m (2 ^ 63) then pos m else negsuc (2 ^ 64 - m - 1)

unfoldable pub negated : ℕ → ℤ
unfolding int64
negated n = int64 (2 ^ 64 - n % 2 ^ 64)

-- time.Duration(n) * time.Minute, in nanoseconds, with its wrap-around
unfoldable pub minutes : ℤ → ℤ
unfolding int64 negated
minutes (pos n) = int64 (n * 60000000000)
minutes (negsuc n) = negated ((n + 1) * 60000000000)

unfoldable pub window_setting : String → ℤ
unfolding atoi minutes
window_setting value = elim (atoi (codes value)) [
  | none ↦ pos (5 * 60000000000)
  | some n ↦ minutes n
]

unfoldable pub trusted_proxies : String → List Text
unfolding split
trusted_proxies raw =
    if str_eq raw "" then codes "127.0.0.0/8" ∷ codes "::1/128" ∷ [] else split b',' (codes raw)

-- The variables of os.Getenv, "" for one that is not set.
unfoldable pub load_settings : (String → String) → Settings
unfolding int_setting window_setting
load_settings getenv = record {
  rate_limit = int_setting (getenv "RATELIMIT") (pos 60);
  rate_limit_enabled = not (str_eq (getenv "ENABLE_RATELIMIT") "NO");
  abuse_limit = int_setting (getenv "ABUSELIMIT") (pos 100);
  abuse_window = window_setting (getenv "ABUSEWINDOW");
  smtp_host = getenv "SMTP_HOST";
  smtp_port = getenv "SMTP_PORT";
  smtp_username = getenv "SMTP_USERNAME";
  smtp_password = getenv "SMTP_PASSWORD";
  smtp_from = getenv "SMTP_FROM";
  admin_name = getenv "ADMIN_NAME";
  admin_password = getenv "ADMIN_PASSWD";
}
