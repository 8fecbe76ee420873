-- ===== src/Middleware/Context.antt =====
-- internal/middleware: a request, what the middleware keeps of it for the handlers, and how it answers.
use chat2sql.Prelude.{Bool, Option, none, List, [], ◌∷◌, Bytes, ℤ, ℕ}
use chat2sql.Auth.Claims.{Claims, AuthError}

-- A header that is not there is an empty text.
pub record Request : Type 0 where
  pub method : Bytes
  pub path : Bytes
  pub authorization : Bytes
  pub x_user_id : Bytes
  pub x_request_id : Bytes
  pub origin : Bytes
  pub client_ip : Bytes
  pub tls : Bool

-- The values of `c.Set`, and the calls of `c.Header`, the newest first.
pub record Context : Type 0 where
  pub user_id : Option ℤ
  pub username : Option Bytes
  pub user_role : Option Bytes
  pub jwt_claims : Option Claims
  pub request_id : Option Bytes
  pub headers : List (Bytes × Bytes)

abbrev pub empty_context : Context
empty_context = record {
  user_id = none;
  username = none;
  user_role = none;
  jwt_claims = none;
  request_id = none;
  headers = [];
}

abbrev pub set_header : Bytes → Bytes → Context → Context
set_header k v ctx = record ctx { headers = (k, v) ∷ ctx.headers }

pub data Refusal : Type 0 where
  missing_auth_header token_revoked missing_role insufficient_permissions rate_limit_exceeded :
      Refusal
  no_content : Refusal
  invalid_token : AuthError → Refusal

-- `c.Next`, or `c.Abort` after an answer.
pub data Answer : Type 0 where
  next : Context → Answer
  abort : Refusal → Context → Answer

-- The HTTP status of each answer that ends a request.
unfoldable pub status_of : Refusal → ℕ
status_of missing_auth_header = 401
status_of (invalid_token e) = 401
status_of token_revoked = 401
status_of missing_role = 401
status_of insufficient_permissions = 403
status_of rate_limit_exceeded = 429
status_of no_content = 204

-- One middleware after another.
abbrev pub then_run : Answer → (Context → Answer) → Answer
then_run (next ctx) f = f ctx
then_run (abort r ctx) f = abort r ctx
