-- ===== src/Middleware/Roles.antt =====
-- internal/middleware/auth.go: `RequireRole`, `RequirePermission`, `checkPermission` and `UserIDFromRequest`.
use chat2sql.Prelude.{
  Bool, true, false, ◌||◌, none, some, List, [], ◌∷◌, Bytes, codes, same_bytes, if◌then◌else◌, any,
  ℤ, pos, parse_int, value_or, is_empty, Dict, lookup, text_key,
}
use chat2sql.Middleware.Context.{
  Request, Context, Answer, next, abort, missing_role, insufficient_permissions,
}

abbrev pub admin : Bytes
admin = codes "admin"

-- The role is one of the required, or admin.
unfoldable pub has_role : List Bytes → Bytes → Bool
unfolding same_bytes
has_role required_roles role = any (same_bytes role) required_roles || same_bytes role admin

unfoldable pub require_role : List Bytes → Context → Answer
unfolding has_role
require_role required_roles ctx = elim ctx.user_role [
  | none ↦ abort missing_role ctx
  | some role ↦
      if has_role required_roles role then next ctx else abort insufficient_permissions ctx
]

abbrev pub user_permissions : List Bytes
user_permissions =
    codes "query:execute"
    ∷ codes "connection:manage"
    ∷ codes "profile:read"
    ∷ codes "profile:update"
    ∷ []

abbrev pub manager_permissions : List Bytes
manager_permissions =
    codes "query:execute"
    ∷ codes "connection:manage"
    ∷ codes "profile:read"
    ∷ codes "profile:update"
    ∷ codes "history:view_team"
    ∷ codes "connection:view_team"
    ∷ []

abbrev pub role_permissions : Dict Bytes (List Bytes)
role_permissions =
    (codes "user", user_permissions) ∷ (codes "manager", manager_permissions) ∷ (admin, []) ∷ []

unfoldable pub check_permission : Bytes → Bytes → Bool
unfolding same_bytes lookup
check_permission role permission =
    if same_bytes role admin then true else elim (lookup role role_permissions) [
      | none ↦ false
      | some permissions ↦ any (λ perm. same_bytes perm permission) permissions
    ]

unfoldable pub require_permission : Bytes → Context → Answer
unfolding check_permission
require_permission permission ctx = elim ctx.user_role [
  | none ↦ abort missing_role ctx
  | some role ↦
      if check_permission role permission then next ctx else abort insufficient_permissions ctx
]

-- Without claims, the header decides.
unfoldable pub user_id_from_request : Request → Context → ℤ
user_id_from_request request ctx = elim ctx.user_id [
  | some id ↦ id
  | none ↦
      if is_empty request.x_user_id then pos 0 else value_or (pos 0) (parse_int request.x_user_id)
]
