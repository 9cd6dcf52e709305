-- ===== src/Postgres/Laws.antt =====
-- The documented behaviour of PostgreSQL that theorems on accounts rely on, as hypotheses on a view of
-- the table users of sql/00-init.sql, whose name is unique.
use ktauth.Prelude.{
  ℕ, ◌+◌, ◌≤◌, String, Bool, true, ◌&&◌, ◌||◌, ◌==◌, leb, length, List, [], ◌∷◌, Option, none, some,
  ◌≡◌, ◌≢◌, ◌⊎◌, if◌then◌else◌,
}
use ktauth.Errors.{Error}
use ktauth.Effects.{ok, err}
use ktauth.Net.Parse.{codes}
use ktauth.Model.{User}
use ktauth.Postgres.{Postgres, insert_user, select_user, update_user}

-- The canonical form of a UUID, in which PostgreSQL writes it and uuid.NewString gives it: 36 characters,
-- lower case hexadecimal digits but for four dashes. The number counts the characters before.
abbrev is_uuid_char : ℕ → ℕ → Bool
is_uuid_char n c =
    if n == 8 || (n == 13 || (n == 18 || n == 23))
    then c == b'-'
    else (leb b'0' c && leb c b'9') || (leb b'a' c && leb c b'f')

unfoldable pub is_uuid_from : ℕ → List ℕ → Bool
is_uuid_from n [] = n == 36
is_uuid_from n (c ∷ s) = let rest = is_uuid_from (n + 1) s in is_uuid_char n c && rest

abbrev pub is_uuid : String → Bool
is_uuid s = is_uuid_from 0 (codes s)

-- The columns' types hold the values as they are: VARCHAR cuts off spaces that are too many, and CHAR
-- fills up with spaces.
pub record IsStorable (user : User) : Type 0 where
  pub uuid : is_uuid user.uuid ≡ true
  pub name : length (codes user.name) ≤ 64
  pub password_hash : length (codes user.password_hash) ≡ 60
  pub email : (address : String) → user.email ≡ some address → length (codes address) ≤ 255
  pub role : length (codes user.role) ≤ 32

module _ {W : Type 0} (pg : Postgres W) (row : W → String → Option User) where
  pub record UserLaws : Type 0 where
    -- INSERT INTO users, where it gives no error
    pub insert_user-row :
        (user : User) (w : W)
        → IsStorable user
        → (pg.exec (insert_user user.uuid user.name user.password_hash user.email user.role) w).0.1
          ≡ none
        → row
            (pg.exec (insert_user user.uuid user.name user.password_hash user.email user.role) w).1
            user.name
          ≡ some user
    -- UPDATE users … WHERE uuid = $5, where it gives no error and found the row
    pub update_user-row :
        (user : User) (w : W)
        → IsStorable user
        → (pg.exec (update_user user.name user.password_hash user.email user.role user.uuid) w).0.1
          ≡ none
        → (pg.exec (update_user user.name user.password_hash user.email user.role user.uuid) w).0.0
          ≢ 0
        → row
            (pg.exec (update_user user.name user.password_hash user.email user.role user.uuid) w).1
            user.name
          ≡ some user
    -- SELECT * FROM users WHERE name = $1, where the row is there: it answers it, or fails
    pub select_user-row :
        (name : String) (user : User) (w : W)
        → row w name ≡ some user
        → ((pg.row_user (select_user name) w).0 ≡ ok user)
          ⊎ ((e : Error) × ((pg.row_user (select_user name) w).0 ≡ err e))
