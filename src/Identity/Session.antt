-- ===== src/Identity/Session.antt =====
-- internal/service/identity/session.go: the sessions of the store, for the handlers and the middleware.
use ktauth.Prelude.{String}
use ktauth.Effects.{Op}
use ktauth.Redis.{Redis}
use ktauth.Repository.Keys
use ktauth.Middleware.Auth.{SessionReader}
use ktauth.Handlers.Login.{SessionManager}

pub record SessionStore (W : Type 0) : Type 0 where
  pub create_session : String → String → Op W (Unit {0})
  pub del_session : String → String → Op W (Unit {0})
  pub get_session : String → String → Op W String

-- SessionService.CreateSession, DelSession and GetSession
abbrev pub sessions_managed : {W : Type 0} → SessionStore W → SessionManager W
sessions_managed store = record {
  create_session = λ uuid jti w. store.create_session uuid jti w;
  del_session = λ uuid jti w. store.del_session uuid jti w;
}

abbrev pub sessions_read : {W : Type 0} → SessionStore W → SessionReader W
sessions_read store = record { get_session = λ uuid jti w. store.get_session uuid jti w }

-- SessionService over SessionRepo
abbrev pub session_store : {W : Type 0} → Redis W → SessionStore W
session_store r = record {
  create_session = Keys.create_session r;
  del_session = Keys.del_session r;
  get_session = Keys.get_session r;
}

abbrev pub session_manager : {W : Type 0} → Redis W → SessionManager W
session_manager r = sessions_managed (session_store r)

abbrev pub session_reader : {W : Type 0} → Redis W → SessionReader W
session_reader r = sessions_read (session_store r)
