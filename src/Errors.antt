-- ===== src/Errors.antt =====
-- The errors of internal/repository, pkg/iputils and of the packages that they call, as values.
-- Sentinels are constructors, since the code compares them by identity.
use Prim.Native.String.{String, ◌++◌}
use ktauth.Prelude.{Bool, true, false}

pub data Error : Type 0 where
  -- repository.ErrIPNotFound, ErrIPExist, ErrUserNotFound, ErrUserExist
  ip_not_found ip_exist user_not_found user_exist : Error
  -- *iputils.IPError
  ip_error : String → Error
  -- fmt.Errorf without %w
  errorf : String → Error
  -- fmt.Errorf("<text>%w", err)
  wrapf : String → Error → Error
  -- pgx.ErrNoRows, redis.Nil
  no_rows redis_nil : Error
  -- *pgconn.PgError: its code and its text
  pg_error : String → String → Error
  -- any other error of a package that is called
  foreign : String → Error

-- The method `Error`.
unfoldable pub message : Error → String
message ip_not_found = "ip rule not found"
message ip_exist = "ip range already exist"
message user_not_found = "user not found"
message user_exist = "user already exist"
message (ip_error ip) = "Invalid IP: " ++ ip
message (errorf text) = text
message (wrapf text e) = text ++ message e
message no_rows = "no rows in result set"
message redis_nil = "redis: nil"
message (pg_error code text) = text
message (foreign text) = text

-- `errors.As(err, &ipe)`: an *IPError stands in the chain of wrapped errors.
unfoldable pub as_ip_error : Error → Bool
as_ip_error (ip_error ip) = true
as_ip_error (wrapf text e) = as_ip_error e
as_ip_error _ = false

abbrev pub is_ip_not_found : Error → Bool
is_ip_not_found ip_not_found = true
is_ip_not_found _ = false

abbrev pub is_ip_exist : Error → Bool
is_ip_exist ip_exist = true
is_ip_exist _ = false

abbrev pub is_no_rows : Error → Bool
is_no_rows no_rows = true
is_no_rows _ = false

abbrev pub is_redis_nil : Error → Bool
is_redis_nil redis_nil = true
is_redis_nil _ = false
