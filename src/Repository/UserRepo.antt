-- ===== src/Repository/UserRepo.antt =====
-- internal/repository/user_repo.go
use Prim.Native.String.{◌++◌}
use ktauth.Prelude.{String, Option, none, some, List, ◌==◌, str_eq, if◌then◌else◌}
use ktauth.Errors.{Error, wrapf, user_exist, user_not_found, pg_error, is_no_rows}
use ktauth.Effects.{ok, err, on, Op}
use ktauth.Model.{User}
use ktauth.Postgres.{Postgres, insert_user, delete_user, select_user, select_users, update_user}
use ktauth.Repository.Rows.{collect}

new_user_error : Error → Error
new_user_error (pg_error code text) = if str_eq code "23505" then user_exist else pg_error code text
new_user_error e = e

-- The text of a lookup's error.
lookup_error : String → Error → Error
lookup_error name e =
    if is_no_rows e
    then wrapf ("No such user: " ++ (name ++ " ")) e
    else wrapf "Error when scanning: " e

module _ {W : Type 0} (pg : Postgres W) where
  -- NewUser; the statement is given "user", whatever the role
  unfoldable pub new_user : String → String → String → Option String → String → Op W (Unit {0})
  unfolding new_user_error
  new_user uuid name password_hash email role w =
      let ((rows, error), w₁) = pg.exec (insert_user uuid name password_hash email "user") w in
      (elim error [ none ↦ ok tt | some e ↦ err (new_user_error e) ], w₁)

  -- DelUser; the rows are tested before the error
  unfoldable pub del_user : String → Op W (Unit {0})
  del_user name w =
      let ((rows, error), w₁) = pg.exec (delete_user name) w in
      (if rows == 0 then err user_not_found else elim error [ none ↦ ok tt | some e ↦ err e ], w₁)

  -- GetUserByName
  unfoldable pub get_user_by_name : String → Op W User
  unfolding lookup_error
  get_user_by_name name w =
      let (row, w₁) = pg.row_user (select_user name) w in
      (on row (λ e. err (lookup_error name e)) (λ user. ok user), w₁)

  -- ListUsers
  unfoldable pub list_users : Op W (List User)
  list_users w =
      let (rows, w₁) = pg.query_users select_users w in
      (
        on rows (λ e. err (wrapf "Query error: " e))
            (λ r. collect (wrapf "Scan error: ") (wrapf "rows.Err(): ") r),
        w₁,
      )

  -- UpdateUser
  unfoldable pub update : String → String → String → Option String → String → Op W (Unit {0})
  update uuid name password_hash email role w =
      let ((rows, error), w₁) = pg.exec (update_user name password_hash email role uuid) w in
      (
        elim error [
          | some e ↦ err (wrapf "Failed to update: " e)
          | none ↦ if rows == 0 then err user_not_found else ok tt
        ],
        w₁,
      )
