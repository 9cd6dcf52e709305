-- ===== src/Repository/Rows.antt =====
-- The loops of GetIPs and ListUsers (internal/repository/ip_repo.go, user_repo.go) over the rows of a
-- query.
pub mod Complete
use ktauth.Prelude.{List, [], ◌∷◌, Option, none, some}
use ktauth.Errors.{Error}
use ktauth.Effects.{Result, ok, err, on}
use ktauth.Postgres.{Rows}

module _ {A : Type 0} where
  -- for rows.Next() { if err := rows.Scan(…); err != nil { return } … append … }
  pub scan_rows : (Error → Error) → List (Result A) → Result (List A)
  scan_rows wrap [] = ok []
  scan_rows wrap (row ∷ rest) =
      on row (λ e. err (wrap e)) (λ a. on (scan_rows wrap rest) (λ e. err e) (λ l. ok (a ∷ l)))

  finish : (Error → Error) → Option Error → Result (List A) → Result (List A)
  finish wrap none scanned = scanned
  finish wrap (some e) (ok l) = err (wrap e)
  finish wrap (some e) (err x) = err x

  -- The loop, and `if err := rows.Err(); err != nil` behind it.
  unfoldable pub collect : (Error → Error) → (Error → Error) → Rows A → Result (List A)
  unfolding scan_rows finish
  collect scan_wrap end_wrap rows =
      finish end_wrap rows.end_error (scan_rows scan_wrap rows.scanned)
