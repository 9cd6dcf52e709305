-- ===== src/Middleware/SlogWriter/Lines.antt =====
-- internal/middleware/accesslog.go: the records that SlogWriter makes of a text.
use ktauth.Prelude.{
  false, List, [], ◌∷◌, ◌++◌, ◌==◌, Bool-cases, ◌≡◌, ◌≢◌, ◌∙◌, inl, inr, refl, ap, All,
}
use ktauth.Effects.{ok}
use ktauth.Slog.{Level}
use ktauth.Strings.{Text, is_blank, split, remove_all}
use ktauth.Strings.Trimming.{
  Starts, Ends, trim-Starts, trim-Ends, trim-All, remove_all-All, split-Unmarked, split-append,
}
use ktauth.Middleware.SlogWriter.{
  Line, byte_length, red, plain, cleaned, log_lines, SlogWriter, write,
}

-- One line that is not empty, has no line break, and neither starts nor ends with a space.
pub record IsRecord (level : Level) (r : Line) : Type 0 where
  pub same_level : r.level ≡ level
  pub ink : r.line ≢ []
  pub starts : Starts r.line
  pub ends : Ends r.line
  pub one_line : All (λ c. (c == b'\n') ≡ false) r.line

log_lines-IsRecord :
    (level : Level) (lines : List Text)
    → All (All (λ c. (c == b'\n') ≡ false)) lines
    → All (IsRecord level) (log_lines level lines)
unfolding log_lines cleaned
log_lines-IsRecord level [] h = tt
log_lines-IsRecord level (line ∷ rest) (unbroken, others) =
    elim (Bool-cases (is_blank (cleaned line))) [
      | inl blank ↦ rw blank (log_lines-IsRecord level rest others)
      | inr ink ↦
          let bare = remove_all plain (remove_all red line) in
          let whole =
            remove_all-All (λ c. (c == b'\n') ≡ false) plain _
              (remove_all-All (λ c. (c == b'\n') ≡ false) red line unbroken) in
          rw ink (
            record {
              same_level = refl;
              ink = λ none_left. cc (rw none_left at ink);
              starts = trim-Starts bare;
              ends = trim-Ends bare;
              one_line = trim-All (λ c. (c == b'\n') ≡ false) bare whole;
            },
            log_lines-IsRecord level rest others,
          )
    ]

log_lines-append :
    (level : Level) (a b : List Text)
    → log_lines level (a ++ b) ≡ log_lines level a ++ log_lines level b
unfolding log_lines
log_lines-append level [] b = refl
log_lines-append level (line ∷ a) b = elim (Bool-cases (is_blank (cleaned line))) [
  | inl blank ↦ rw blank (log_lines-append level a b)
  | inr ink ↦ rw ink (
      ap (λ rest. record { level = level; line = cleaned line } ∷ rest)
        (log_lines-append level a b))
]

-- Write logs, at the writer's level, only texts of one line that are not empty and neither start
-- nor end with a space; it answers that it wrote all bytes, and never fails.
write-IsRecord :
    (writer : SlogWriter) (p : Text)
    → All (IsRecord writer.level) (write writer p).0 × ((write writer p).1 ≡ ok (byte_length p))
unfolding write
write-IsRecord writer p =
    (log_lines-IsRecord writer.level (split b'\n' p) (split-Unmarked b'\n' p), refl)

-- Write of two texts joined by a line break logs what one Write for each of them logs: nothing
-- depends on how gin cuts its output into calls, as long as it cuts at line breaks.
write-append :
    (writer : SlogWriter) (p q : Text)
    → (write writer (p ++ b'\n' ∷ q)).0 ≡ (write writer p).0 ++ (write writer q).0
unfolding write
write-append writer p q =
    ap (log_lines writer.level) (split-append b'\n' p q)
    ∙ log_lines-append writer.level (split b'\n' p) (split b'\n' q)

-- Write logs, at the writer's level, only texts of one line that are not empty and neither start
-- nor end with a space, and answers that it wrote all bytes; and Write of two texts joined by a
-- line break logs what one Write for each of them logs: nothing depends on how gin cuts its
-- output into calls, as long as it cuts at line breaks.
pub write_lines :
    (writer : SlogWriter) (p q : Text)
    → (All (IsRecord writer.level) (write writer p).0 × ((write writer p).1 ≡ ok (byte_length p)))
      × ((write writer (p ++ b'\n' ∷ q)).0 ≡ (write writer p).0 ++ (write writer q).0)
write_lines writer p q = (write-IsRecord writer p, write-append writer p q)
