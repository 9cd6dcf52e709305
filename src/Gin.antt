-- ===== src/Gin.antt =====
-- The request context of a handler (gin.Context): the request, the keys that the program stores in
-- it, and what was written. The engine that runs the handlers of a route is a parameter (Gin/Engine).
pub mod Engine
use ktauth.Prelude.{ℕ, String, Bool, true, false, List, [], ◌∷◌}
use ktauth.Admin.Rules.{IpResponse}
use ktauth.Admin.Lists.{UserResponse}

pub record Request : Type 0 where
  pub client_ip : String
  pub method : String
  pub path : String
  pub raw_query : String
  pub host : String
  -- c.GetHeader and c.Query: "" where there is none
  pub header : String → String
  pub query : String → String

-- The values of a gin.H.
pub data Json : Type 0 where
  str : String → Json
  bool : Bool → Json
  strs : List String → Json
  rules : List IpResponse → Json
  users : List UserResponse → Json

pub data Body : Type 0 where
  nothing : Body
  plain : String → Body
  json : List (String × Json) → Body

pub record Context : Type 0 where
  pub request : Request
  -- the keys "whitelist", "rule", "reason", "detail", "uuid" and "jti"
  pub whitelist : Bool
  pub rule : String
  pub reason : String
  pub detail : String
  pub uuid : String
  pub jti : String
  -- the response
  pub status : ℕ
  pub body : Body
  pub aborted : Bool

-- A request before any handler has run.
abbrev pub fresh_context : Request → Context
fresh_context request = record {
  request = request;
  whitelist = false;
  rule = "";
  reason = "";
  detail = "";
  uuid = "";
  jti = "";
  status = 200;
  body = nothing;
  aborted = false;
}

-- c.JSON and c.String
abbrev pub respond : ℕ → Body → Context → Context
respond code content c = record c { status = code; body = content }

-- c.Status
abbrev pub set_status : ℕ → Context → Context
set_status code c = record c { status = code }

-- c.Abort
abbrev pub abort : Context → Context
abort c = record c { aborted = true }

-- c.AbortWithStatus
abbrev pub abort_with_status : ℕ → Context → Context
abort_with_status code c = record c { status = code; aborted = true }

-- A handler or a middleware whose last act is c.Next() or to abort.
abbrev pub Handler : Type 0 → Type 0
Handler W = Context → W → Context × W

-- What gin.Recovery writes when a handler panics.
abbrev pub recovered : Context → Context
recovered c = abort_with_status 500 c
