-- ===== src/Middleware/Headers.antt =====
-- internal/middleware/middleware.go: `SecurityHeaders`, `CORSMiddleware` and `RequestIDMiddleware`.
use chat2sql.Prelude.{
  ℕ, zero, suc, ◌+◌, ◌-◌, ◌/◌, ◌%◌, Bool, true, false, ◌&&◌, ◌||◌, some, List, [], ◌∷◌, ◌++◌, Bytes,
  codes, same_bytes, if◌then◌else◌, ltb, any, is_empty, decimal,
}
use chat2sql.Middleware.Context.{Request, Context, set_header, Answer, next, abort, no_content}

pub record SecurityConfig : Type 0 where
  pub enable_csp : Bool
  pub enable_hsts : Bool

pub record CorsConfig : Type 0 where
  pub allow_origins : List Bytes
  pub allow_methods : List Bytes
  pub allow_headers : List Bytes
  pub allow_credentials : Bool
  pub max_age : ℕ

abbrev pub default_cors : CorsConfig
default_cors = record {
  allow_origins = codes "*" ∷ [];
  allow_methods =
      codes "GET"
      ∷ codes "POST"
      ∷ codes "PUT"
      ∷ codes "DELETE"
      ∷ codes "OPTIONS"
      ∷ codes "PATCH"
      ∷ [];
  allow_headers =
      codes "Origin"
      ∷ codes "Content-Type"
      ∷ codes "Content-Length"
      ∷ codes "Accept-Encoding"
      ∷ codes "X-CSRF-Token"
      ∷ codes "Authorization"
      ∷ codes "X-User-ID"
      ∷ [];
  allow_credentials = true;
  max_age = 86400;
}

abbrev set_if : Bool → Bytes → Bytes → Context → Context
set_if b k v ctx = if b then set_header k v ctx else ctx

unfoldable pub security_headers : SecurityConfig → Request → Context → Answer
security_headers config request ctx =
    let c1 = set_header (codes "X-Content-Type-Options") (codes "nosniff") ctx in
    let c2 = set_header (codes "X-Frame-Options") (codes "DENY") c1 in
    let c3 = set_header (codes "X-XSS-Protection") (codes "1; mode=block") c2 in
    let c4 = set_header (codes "Referrer-Policy") (codes "strict-origin-when-cross-origin") c3 in
    let c5 =
      set_if (config.enable_hsts && request.tls) (codes "Strict-Transport-Security")
        (codes "max-age=31536000; includeSubDomains; preload") c4 in
    next (
      set_if config.enable_csp (codes "Content-Security-Policy")
        (codes
          "default-src 'self'; script-src 'self'; style-src 'self' 'unsafe-inline'; img-src 'self' data:; font-src 'self'")
        c5)

-- `contains` on a slice of texts
unfoldable pub contains_text : List Bytes → Bytes → Bool
unfolding same_bytes
contains_text slice item = any (λ s. same_bytes s item) slice

unfoldable pub join_strings : List Bytes → Bytes → Bytes
join_strings [] sep = []
join_strings (s ∷ []) sep = s
join_strings (s ∷ t ∷ slice) sep = s ++ sep ++ join_strings (t ∷ slice) sep

-- Whether the origin of the request is sent back as an allowed one.
unfoldable pub allows_origin : CorsConfig → Bytes → Bool
unfolding contains_text same_bytes
allows_origin config origin = elim config.allow_origins [
  | [] ↦ false
  | o ∷ os ↦ same_bytes o (codes "*") || contains_text (o ∷ os) origin
]

unfoldable pub cors_middleware : CorsConfig → Request → Context → Answer
unfolding allows_origin join_strings same_bytes
cors_middleware config request ctx =
    let c1 =
      set_if (allows_origin config request.origin) (codes "Access-Control-Allow-Origin")
        request.origin ctx in
    let c2 =
      if is_empty config.allow_methods
      then c1
      else set_header (codes "Access-Control-Allow-Methods")
          (join_strings config.allow_methods (codes ", ")) c1 in
    let c3 =
      if is_empty config.allow_headers
      then c2
      else set_header (codes "Access-Control-Allow-Headers")
          (join_strings config.allow_headers (codes ", ")) c2 in
    let c4 =
      set_if config.allow_credentials (codes "Access-Control-Allow-Credentials") (codes "true")
        c3 in
    let c5 =
      set_if (ltb 0 config.max_age) (codes "Access-Control-Max-Age") (decimal config.max_age) c4 in
    if same_bytes request.method (codes "OPTIONS") then abort no_content c5 else next c5

abbrev digit36 : ℕ → ℕ
digit36 d = if ltb d 10 then b'0' + d else b'a' + (d - 10)

-- `strconv.FormatInt n 36`; the fuel is the number of digits that may still come.
unfoldable pub print_base36 : ℕ → ℕ → Bytes
print_base36 zero n = []
print_base36 (suc fuel) n =
    let front = print_base36 fuel (n / 36) in
    if ltb n 36 then digit36 n ∷ [] else front ++ digit36 (n % 36) ∷ []

unfoldable pub generate_request_id : ℕ → Bytes
unfolding print_base36
generate_request_id now = codes "req_" ++ print_base36 (suc now) now

unfoldable pub request_id_middleware : Request → ℕ → Context → Answer
unfolding generate_request_id
request_id_middleware request now ctx =
    let id : Bytes =
      if is_empty request.x_request_id then generate_request_id now else request.x_request_id in
    next (set_header (codes "X-Request-ID") id (record ctx { request_id = some id }))
