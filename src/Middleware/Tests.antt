-- ===== src/Middleware/Tests.antt =====
-- internal/middleware: runs of the model.
use chat2sql.Prelude.{
  newest, ℕ, ◌-◌, ◌*◌, ◌≡◌, refl, true, false, List, [], ◌∷◌, Bytes, codes, ok, ℤ, pos, negsuc, ltb,
  has_prefix, same_bytes, insert, lookup, decimal, parse_int, parse_digits, value_from,
}
use chat2sql.Auth.Claims.{Claims, validate, is_known_type, second}
use chat2sql.Auth.Fixtures.{ann_access, ann_refresh, library, ann_service, revoked}
use chat2sql.Auth.Samples.{sample_laws, sample_redis}
use chat2sql.Auth.Tokens.{
  claims_for, generate_jti, extract_token_from_header, validate_token, validate_access_token,
  validate_token_from_request, is_token_expiring_soon, get_token_claims,
}
use chat2sql.Auth.Revocation.{is_token_revoked}
use chat2sql.Middleware.Access.{IsPermitted, jwt_auth-admits, then_run-IsPermitted}
use chat2sql.Middleware.Buckets.{times_for, answers_for, bucket_answers, answers_for-allow_all}
use chat2sql.Middleware.Context.{Request, Context, empty_context, next, then_run}
use chat2sql.Middleware.Guard.{Readings, with_claims, admit, jwt_auth}
use chat2sql.Middleware.Headers.{
  default_cors, allows_origin, contains_text, join_strings, print_base36,
}
use chat2sql.Middleware.Limits.{
  Limiting, RateLimiter, limit_key, cleanup, limiter_for, allow, allow_all,
}
use chat2sql.Middleware.Metrics.{
  Served, no_metrics, record_all, record_total, record_duration, duration_key, total_key, window,
}
use chat2sql.Middleware.Roles.{check_permission, require_permission, user_id_from_request}
use chat2sql.Middleware.Windows.{
  total_for, durations_for, total_of, durations_of, record_all-refines,
}

-- A request with the access token of the sample service.
abbrev request : Request
request = record {
  method = codes "GET";
  path = codes "/q";
  authorization = codes "Bearer a";
  x_user_id = codes "1";
  x_request_id = [];
  origin = codes "http://evil";
  client_ip = codes "10.0.0.1";
  tls = false;
}

abbrev times : Readings
times = record { validated = 300 * second; looked_up = 300 * second; finished = 300 * second }

-- The context that the handler finds.
unfoldable admitted : Context
unfolding with_claims
admitted = with_claims ann_access empty_context

request-valid :
    validate_token_from_request library ann_service (300 * second) (codes "Bearer a")
    ≡ ok ann_access
unfolding validate_token_from_request extract_token_from_header has_prefix validate_access_token
    validate_token same_bytes validate is_known_type ann_access claims_for generate_jti
request-valid = refl

-- The token is on the blacklist of the store, and the request is admitted.
jwt_auth-admits_example :
    jwt_auth library sample_redis ann_service times request revoked empty_context
    ≡ admit (300 * second) ann_access empty_context
jwt_auth-admits_example =
    (jwt_auth-admits (sample_laws ann_access ann_refresh) sample_redis ann_service times request
        revoked empty_context refl).0
      ann_access request-valid

request-next :
    then_run
      (jwt_auth library sample_redis ann_service times request revoked empty_context)
      (require_permission (codes "history:view_team"))
    ≡ next admitted
unfolding admitted with_claims require_permission check_permission same_bytes lookup jwt_auth
    validate_token_from_request extract_token_from_header has_prefix validate_access_token
    validate_token validate is_known_type ann_access claims_for generate_jti is_token_revoked
    get_token_claims admit is_token_expiring_soon
request-next = refl

then_run-IsPermitted_example :
    (c : Claims) × (validate_token_from_request library ann_service
        (300 * second)
        (codes "Bearer a")
      ≡ ok c)
    × IsPermitted (codes "history:view_team") request c admitted
then_run-IsPermitted_example =
    then_run-IsPermitted library sample_redis ann_service times (codes "history:view_team") request
      revoked empty_context admitted request-next

-- A bucket of as many requests as its burst, and no more.
abbrev burst_of : ℤ → ℕ
burst_of (pos n) = n
burst_of (negsuc n) = 0

abbrev counting : Limiting
counting = record { Bucket = ℕ; new_limiter = λ r b. burst_of b; allow = λ now b. (ltb 0 b, b - 1) }

abbrev two_each : RateLimiter counting
two_each = record {
  limiters = [];
  rate = pos 1;
  burst = pos 2;
  cleanup_interval = 5;
  last_cleanup = 0;
}

abbrev alice : Bytes
alice = codes "user:1"

abbrev eve : Bytes
eve = codes "user:2"

abbrev calls : List (Bytes × ℕ)
calls = (eve, 1) ∷ (alice, 2) ∷ (eve, 3) ∷ (eve, 4) ∷ (alice, 9) ∷ []

answers_for-allow_all_example :
    answers_for alice (allow_all counting two_each calls)
    ≡ bucket_answers counting (limiter_for counting two_each alice) (times_for alice calls)
answers_for-allow_all_example = answers_for-allow_all counting two_each alice calls

abbrev served : ℕ → ℕ → Served
served status duration = record {
  method = codes "GET";
  full_path = codes "/q";
  url_path = codes "/q";
  status = status;
  duration = duration;
}

abbrev log : List Served
log = served 200 5 ∷ served 404 6 ∷ served 200 7 ∷ []

record_all-refines_example :
    (total_of (record_all log no_metrics) (codes "GET_/q_200") ≡ total_for (codes "GET_/q_200") log)
    × (durations_of (record_all log no_metrics) (codes "GET_/q_200")
        ≡ newest window (durations_for (codes "GET_/q_200") log))
record_all-refines_example = record_all-refines log (codes "GET_/q_200")

-- The third request of a key is refused, the total and the durations of the log, a role that may not, the
-- header that stands for a user, and an origin that is sent back.
program : Unit {0}
unfolding allow cleanup lookup insert same_bytes record_total record_duration total_key duration_key
    newest decimal check_permission user_id_from_request parse_int parse_digits value_from
    allows_origin contains_text join_strings print_base36 limit_key
program =
    let answers : allow_all counting two_each calls
        ≡ (eve, true) ∷ (alice, true) ∷ (eve, true) ∷ (eve, false) ∷ (alice, true) ∷ [] =
      refl in
    let total : total_of (record_all log no_metrics) (codes "GET_/q_200") ≡ 2 = refl in
    let kept : durations_of (record_all log no_metrics) (codes "GET_/q") ≡ 5 ∷ 6 ∷ 7 ∷ [] = refl in
    let user : check_permission (codes "user") (codes "history:view_team") ≡ false = refl in
    let guest : check_permission (codes "guest") (codes "query:execute") ≡ false = refl in
    let posing : user_id_from_request (record request { x_user_id = codes "42" }) empty_context
        ≡ pos 42 =
      refl in
    let origin : allows_origin default_cors (codes "http://evil") ≡ true = refl in
    let joined : join_strings (codes "a" ∷ codes "b" ∷ codes "c" ∷ []) (codes ", ")
        ≡ codes "a, b, c" =
      refl in
    let base : print_base36 9 1331 ≡ codes "10z" = refl in
    let key : limit_key request ≡ codes "user:1" = refl in tt
