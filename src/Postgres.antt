-- ===== src/Postgres.antt =====
-- The SQL statements of internal/repository, and PostgreSQL behind the pgx client as a parameter.
pub mod Laws
use ktauth.Prelude.{ℕ, String, Bool, Option, List}
use ktauth.Errors.{Error}
use ktauth.Effects.{Result, Op}
use ktauth.Net.Bytes.{IpNet}
use ktauth.Model.{Ip, User}

-- Each statement with its arguments; the tables are those of sql/00-init.sql.
pub data Statement : Type 0 where
  -- INSERT INTO ip (version, ip_range, is_whitelist, note)
  insert_ip : ℕ → IpNet → Bool → Option String → Statement
  -- DELETE FROM ip WHERE version = $1 AND ip_range = $2
  delete_ip : ℕ → IpNet → Statement
  -- SELECT is_whitelist FROM ip WHERE version = $1 AND $2::inet <<= ip_range
  select_whitelist : ℕ → String → Statement
  -- SELECT * FROM ip, with the conditions that are given
  select_ips_version_type : ℕ → Bool → Statement
  select_ips_version : ℕ → Statement
  select_ips_type : Bool → Statement
  select_ips : Statement
  -- UPDATE ip SET is_whitelist = $1, note = $2 WHERE id = $3 RETURNING *
  update_ip : Bool → Option String → ℕ → Statement
  -- INSERT INTO users (uuid, name, password_hash, email, role)
  insert_user : String → String → String → Option String → String → Statement
  -- DELETE FROM users WHERE name = $1
  delete_user : String → Statement
  -- SELECT * FROM users WHERE name = $1
  select_user : String → Statement
  -- SELECT uuid, name, email, role FROM users
  select_users : Statement
  -- UPDATE users SET name = $1, password_hash = $2, email = $3, role = $4 WHERE uuid = $5
  update_user : String → String → Option String → String → String → Statement

-- What iterating over `rows` gives: each row scanned, and the error of rows.Err() at the end.
pub record Rows (A : Type 0) : Type 0 where
  pub scanned : List (Result A)
  pub end_error : Option Error

pub record Postgres (W : Type 0) : Type 0 where
  -- pool.Exec: the rows affected beside the error
  pub exec : Statement → W → (ℕ × Option Error) × W
  -- pool.QueryRow(…).Scan(…); the error is `no_rows` where there is no row
  pub row_bool : Statement → Op W Bool
  pub row_ip : Statement → Op W Ip
  pub row_user : Statement → Op W User
  -- pool.Query
  pub query_ips : Statement → Op W (Rows Ip)
  pub query_users : Statement → Op W (Rows User)
