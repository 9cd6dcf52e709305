-- ===== src/App/Environment/Reading.antt =====
-- cmd/ktauth/main.go: which texts of the environment set the limits, and the length of the window of
-- abuse.
use Prim.Native.String.{String}
use ktauth.Prelude.{
  ◌+◌, ◌-◌, ◌*◌, ◌/◌, ◌%◌, ◌^◌, ◌<◌, ◌≤◌, ℤ, pos, negsuc, none, some, Option-cases, true, false,
  leb, ltb, ◌≡◌, refl, inl, inr, arith, ◌∙◌, ap,
}
use ktauth.Net.Parse.{codes}
use ktauth.Strings.{atoi}
use ktauth.Strings.Numbers.{Denotes, IsInt64, atoi_sound, atoi_complete}
use ktauth.Repository.RateLimit.{seconds}
use ktauth.App.Environment.{int_setting, window_setting, minutes, int64, negated, load_settings}

-- The text of a variable writes an int64.
abbrev pub Writes : String → ℤ → Type 0
Writes text z = Denotes (codes text) z × IsInt64 z

-- What a variable gives by the number that it writes, and by none.
pub data Reads (text : String) (f : ℤ → ℤ) (fallback result : ℤ) : Type 0 where
  number : (z : ℤ) → Writes text z → result ≡ f z → Reads text f fallback result
  no_number : ((z : ℤ) → ¬ Writes text z) → result ≡ fallback → Reads text f fallback result

unwritten : (text : String) → atoi (codes text) ≡ none → (z : ℤ) → ¬ Writes text z
unwritten text unread z (denotes, fits) = let read = atoi_complete (codes text) z denotes fits in cc

int_setting-Reads :
    (text : String) (fallback : ℤ) → Reads text (λ z. z) fallback (int_setting text fallback)
unfolding int_setting
int_setting-Reads text fallback = elim (Option-cases (atoi (codes text))) [
  | inl unread ↦ rw (unread, int_setting) (Reads.no_number (unwritten text unread) refl)
  | inr (z, read) ↦ rw (read, int_setting) (Reads.number z (atoi_sound (codes text) z read) refl)
]

window_setting-Reads : (text : String) → Reads text minutes (pos 300000000000) (window_setting text)
unfolding window_setting
window_setting-Reads text = elim (Option-cases (atoi (codes text))) [
  | inl unread ↦ rw (unread, window_setting) (Reads.no_number (unwritten text unread) refl)
  | inr (z, read) ↦ rw (read, window_setting) (Reads.number z (atoi_sound (codes text) z read) refl)
]

-- RATELIMIT, ABUSELIMIT and ABUSEWINDOW are read exactly where they write an int64, as decimal
-- digits behind at most one sign; any other text, the empty one included, stands for 60, for 100
-- and for five minutes.
pub load_settings-Reads :
    (getenv : String → String)
    → let s = load_settings getenv in
      Reads (getenv "RATELIMIT") (λ z. z) (pos 60) s.rate_limit
      × Reads (getenv "ABUSELIMIT") (λ z. z) (pos 100) s.abuse_limit
      × Reads (getenv "ABUSEWINDOW") minutes (pos 300000000000) s.abuse_window
unfolding load_settings
load_settings-Reads getenv = (
  int_setting-Reads (getenv "RATELIMIT") (pos 60),
  int_setting-Reads (getenv "ABUSELIMIT") (pos 100),
  window_setting-Reads (getenv "ABUSEWINDOW"),
)

-- How many seconds a number of minutes is.
abbrev pub sixty_times : ℤ → ℤ
sixty_times (pos n) = pos (n * 60)
sixty_times (negsuc n) = negsuc (n * 60 + 59)

-- At most 153722867 minutes, about 292 years, in either direction.
abbrev pub IsExact : ℤ → Type 0
IsExact (pos n) = n ≤ 153722867
IsExact (negsuc n) = n < 153722867

window_setting-minutes :
    (text : String) (z : ℤ) → atoi (codes text) ≡ some z → window_setting text ≡ minutes z
unfolding window_setting
window_setting-minutes text z read = rw (read, window_setting) refl

exact-IsInt64 : (z : ℤ) → IsExact z → IsInt64 z
exact-IsInt64 (pos n) h = omega arith
exact-IsInt64 (negsuc n) h = omega arith

seconds-minutes : (z : ℤ) → IsExact z → seconds (minutes z) ≡ sixty_times z
unfolding seconds minutes int64 negated
seconds-minutes (pos n) h =
    let m : (n * 60000000000) % 2 ^ 64 ≡ n * 60000000000 = omega arith in
    let small : ltb (n * 60000000000) (2 ^ 63) ≡ true = ground arith in
    rw (m, small) (ap pos (omega arith))
seconds-minutes (negsuc n) h =
    let k = (n + 1) * 60000000000 in
    let m : (2 ^ 64 - k % 2 ^ 64) % 2 ^ 64 ≡ 2 ^ 64 - k = omega arith in
    let large : ltb (2 ^ 64 - k) (2 ^ 63) ≡ false = ground arith in
    let whole : (2 ^ 64 - (2 ^ 64 - k) - 1 + 1) / 1000000000 ≡ n * 60 + 60 = omega arith in
    let some_time : leb (n * 60 + 60) 0 ≡ false = ground arith in
    rw (m, large, whole, some_time) (ap negsuc (omega arith))

-- Where ABUSEWINDOW writes a number of at most 153722867 minutes, in either direction, the
-- product does not wrap around, and the window that Abuse gives to EXPIRE is sixty times that
-- number.
pub window_exact :
    (getenv : String → String) (z : ℤ)
    → Denotes (codes (getenv "ABUSEWINDOW")) z
    → IsExact z
    → seconds (load_settings getenv).abuse_window ≡ sixty_times z
unfolding load_settings
window_exact getenv z denotes exact =
    let read = atoi_complete (codes (getenv "ABUSEWINDOW")) z denotes (exact-IsInt64 z exact) in
    ap seconds (window_setting-minutes (getenv "ABUSEWINDOW") z read) ∙ seconds-minutes z exact
