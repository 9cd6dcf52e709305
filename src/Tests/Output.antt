-- ===== src/Tests/Output.antt =====
-- internal/middleware/accesslog.go: what SlogWriter logs of example outputs.
use ktauth.Prelude.{◌≡◌, [], ◌∷◌, ◌++◌, All, map, refl}
use ktauth.Effects.{ok}
use ktauth.Slog.{Level}
use ktauth.Net.Parse.{codes}
use ktauth.Strings.{Text}
use ktauth.Middleware.SlogWriter.{Line, byte_length, red, plain, write}
use ktauth.App.{default_writer, default_error_writer}
use ktauth.Middleware.SlogWriter.Lines.{IsRecord, write_lines}

abbrev trace : Text
trace = red ++ codes "panic: nil \n\n" ++ codes "\tmain.go:7\r\n" ++ plain

logged :
    map (λ (r : Line). r.line) (write default_error_writer trace).0
    ≡ codes "panic: nil" ∷ codes "main.go:7" ∷ []
unfolding write
logged = refl

-- The codes are stripped one after the other, so what the second leaves may be the first.
colour_left :
    map (λ (r : Line). r.line) (write default_writer (codes "\u{1b}[3\u{1b}[0m1mx")).0
    ≡ (red ++ codes "x") ∷ []
unfolding write
colour_left = refl

write_lines_example :
    (All (IsRecord Level.error) (write default_error_writer trace).0
      × ((write default_error_writer trace).1 ≡ ok (byte_length trace)))
    × ((write default_error_writer (trace ++ b'\n' ∷ codes "a")).0
        ≡ (write default_error_writer trace).0 ++ (write default_error_writer (codes "a")).0)
write_lines_example = write_lines default_error_writer trace (codes "a")
