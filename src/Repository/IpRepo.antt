-- ===== src/Repository/IpRepo.antt =====
-- internal/repository/ip_repo.go
use ktauth.Prelude.{ℕ, String, Bool, Option, none, some, List, ◌==◌, str_eq, if◌then◌else◌}
use ktauth.Errors.{Error, wrapf, ip_exist, ip_not_found, pg_error, is_no_rows}
use ktauth.Effects.{ok, err, on, Op}
use ktauth.Net.Bytes.{IpNet}
use ktauth.Net.Print.{ip_string}
use ktauth.Model.{Ip}
use ktauth.Postgres.{
  Postgres, Statement, insert_ip, delete_ip, select_whitelist, select_ips_version_type,
  select_ips_version, select_ips_type, select_ips, update_ip,
}
use ktauth.Repository.Rows.{collect}

-- A unique violation is ErrIPExist, any other error is wrapped.
unfoldable pub add_error : Error → Error
add_error (pg_error code text) =
    if str_eq code "23505" then ip_exist else wrapf "IPRepo AddIP: " (pg_error code text)
add_error e = wrapf "IPRepo AddIP: " e

query_error : Error → Error
query_error e = if is_no_rows e then ip_not_found else wrapf "Error when scanning: " e

update_error : Error → Error
update_error e = if is_no_rows e then ip_not_found else wrapf "Error when updating: " e

-- The statement of GetIPs for the filters that are not nil.
pub ips_statement : Option ℕ → Option Bool → Statement
ips_statement (some version) (some white) = select_ips_version_type version white
ips_statement (some version) none = select_ips_version version
ips_statement none (some white) = select_ips_type white
ips_statement none none = select_ips

module _ {W : Type 0} (pg : Postgres W) where
  -- AddIP
  unfoldable pub add_ip : ℕ → IpNet → Bool → Option String → Op W (Unit {0})
  unfolding add_error
  add_ip version ip_range white note w =
      let ((rows, error), w₁) = pg.exec (insert_ip version ip_range white note) w in
      (elim error [ none ↦ ok tt | some e ↦ err (add_error e) ], w₁)

  -- DelIP
  unfoldable pub del_ip : ℕ → IpNet → Op W (Unit {0})
  del_ip version ip_range w =
      let ((rows, error), w₁) = pg.exec (delete_ip version ip_range) w in
      (elim error [ some e ↦ err e | none ↦ if rows == 0 then err ip_not_found else ok tt ], w₁)

  -- QueryIP
  unfoldable pub query_ip : ℕ → List ℕ → Op W Bool
  unfolding query_error
  query_ip version client_ip w =
      let (row, w₁) = pg.row_bool (select_whitelist version (ip_string client_ip)) w in
      (on row (λ e. err (query_error e)) (λ white. ok white), w₁)

  -- GetIPs
  unfoldable pub get_ips : Option ℕ → Option Bool → Op W (List Ip)
  unfolding ips_statement
  get_ips version white w =
      let (rows, w₁) = pg.query_ips (ips_statement version white) w in
      (
        on rows (λ e. err (wrapf "GetIPs error " e))
            (λ r. collect (wrapf "GetIPs error ") (wrapf "GetIPs error ") r),
        w₁,
      )

  -- UpdateIP
  unfoldable pub update : ℕ → Bool → Option String → Op W Ip
  unfolding update_error
  update id white note w =
      let (row, w₁) = pg.row_ip (update_ip white note id) w in
      (on row (λ e. err (update_error e)) (λ ip. ok ip), w₁)
