-- ===== src/Repository/Rows/Complete.antt =====
-- internal/repository/ip_repo.go, GetIPs, and user_repo.go, ListUsers: what a listing holds.
use ktauth.Prelude.{List, [], ◌∷◌, map, none, ◌≡◌, ◌↔◌, refl, inl, inr, Option-cases}
use ktauth.Errors.{Error}
use ktauth.Effects.{Result, ok, err, Result-cases}
use ktauth.Postgres.{Rows}
use ktauth.Repository.Rows.{scan_rows, finish, collect}

module _ {A : Type 0} where
  scan_rows-ok :
      (wrap : Error → Error) (rows : List (Result A)) (l : List A)
      → (scan_rows wrap rows ≡ ok l) ↔ (rows ≡ map ok l)
  unfolding scan_rows
  scan_rows-ok wrap [] [] = (λ _. refl, λ _. refl)
  scan_rows-ok wrap [] (a ∷ l) = (λ e. absurd (cc), λ e. absurd (cc))
  scan_rows-ok wrap (err x ∷ rows) [] = (λ e. absurd (cc), λ e. absurd (cc))
  scan_rows-ok wrap (err x ∷ rows) (a ∷ l) = (λ e. absurd (cc), λ e. absurd (cc))
  scan_rows-ok wrap (ok b ∷ rows) [] = elim (Result-cases (scan_rows wrap rows)) [
    | inl (l', scanned) ↦ (λ e. absurd (cc (rw scanned at e)), λ e. absurd (cc))
    | inr (x, failed) ↦ (λ e. absurd (cc (rw failed at e)), λ e. absurd (cc))
  ]
  scan_rows-ok wrap (ok b ∷ rows) (a ∷ l) = elim (Result-cases (scan_rows wrap rows)) [
    | inl (l', scanned) ↦
        let all = (scan_rows-ok wrap rows l').0 scanned in
        (
          λ e. let e' = rw scanned at e in cc,
          λ e. let again = (scan_rows-ok wrap rows l).1 (cc) in rw scanned (cc),
        )
    | inr (x, failed) ↦ (
      λ e. absurd (cc (rw failed at e)),
      λ e. let again = (scan_rows-ok wrap rows l).1 (cc) in absurd (cc),
    )
  ]

  -- A listing of rules or users succeeds exactly if every row was scanned and the iteration ended
  -- without an error, and then it has every row in the order of the query.
  collect_iff :
      (scan_wrap end_wrap : Error → Error) (rows : Rows A) (l : List A)
      → (collect scan_wrap end_wrap rows ≡ ok l)
        ↔ ((rows.scanned ≡ map ok l) × (rows.end_error ≡ none))
  unfolding collect finish
  collect_iff scan_wrap end_wrap rows l =
      let all = scan_rows-ok scan_wrap rows.scanned l in
      elim (Option-cases rows.end_error) [
        | inl none_left ↦ rw none_left (λ e. (all.0 e, refl), λ p. all.1 p.0)
        | inr (x, broken) ↦ elim (Result-cases (scan_rows scan_wrap rows.scanned)) [
          | inl (l', good) ↦ rw (broken, good) (λ e. absurd (cc), λ p. absurd (cc (p.1)))
          | inr (y, bad) ↦ rw (broken, bad) (λ e. absurd (cc), λ p. absurd (cc (p.1)))
        ]
      ]
