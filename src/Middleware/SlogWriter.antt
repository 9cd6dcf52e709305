-- ===== src/Middleware/SlogWriter.antt =====
-- internal/middleware/accesslog.go: SlogWriter, which gives gin's output to slog line by line.
pub mod Lines
use ktauth.Prelude.{ℕ, ◌+◌, List, [], ◌∷◌, leb, ltb, length, if◌then◌else◌}
use ktauth.Effects.{Result, ok}
use ktauth.Slog.{Level}
use ktauth.Net.Parse.{codes}
use ktauth.Strings.{Text, is_blank, trim, split, remove_all}

-- slog.Log at a level
pub record Line : Type 0 where
  pub level : Level
  pub line : Text

-- The bytes of a text in UTF-8.
abbrev pub byte_length : Text → ℕ
byte_length [] = 0
byte_length (c ∷ s) =
    (if ltb c 0x80 then 1 else if ltb c 0x800 then 2 else if ltb c 0x10000 then 3 else 4)
    + byte_length s

-- "\x1b[31m" and "\x1b[0m"
abbrev pub red : Text
red = 0x1b ∷ b'[' ∷ b'3' ∷ b'1' ∷ b'm' ∷ []

abbrev pub plain : Text
plain = 0x1b ∷ b'[' ∷ b'0' ∷ b'm' ∷ []

-- A line without colours and the spaces around it.
unfoldable pub cleaned : Text → Text
unfolding trim remove_all
cleaned line = trim (remove_all plain (remove_all red line))

-- The loop over the lines: one record for each that is not empty.
unfoldable pub log_lines : Level → List Text → List Line
unfolding cleaned
log_lines level [] = []
log_lines level (line ∷ rest) =
    let records = log_lines level rest in
    if is_blank (cleaned line)
    then records
    else record { level = level; line = cleaned line } ∷ records

pub record SlogWriter : Type 0 where
  pub level : Level

-- NewSlogWriter
abbrev pub new_slog_writer : Level → SlogWriter
new_slog_writer level = record { level = level }

-- Write, for a valid UTF-8 text: what it logs, and what it returns.
unfoldable pub write : SlogWriter → Text → List Line × Result ℕ
unfolding log_lines split
write writer p = (log_lines writer.level (split b'\n' p), ok (byte_length p))
