-- ===== src/Auth.antt =====
-- internal/domain/auth: claims, roles (context.go, jwt.go) and the middlewares of middleware.go. A
-- handler is a function from the claims that a request's context carries. The JWT library, the hash
-- and the table of API tokens are arguments.
use hatchet_workflow.Base.{
  ℕ, String, Bool, true, false, not, ◌||◌, Option, none, some, leb, if◌then◌else◌, ◌==◌,
}
use hatchet_workflow.Base.Text.{has_prefix, trim_prefix, join}

pub record Claims : Type 0 where
  pub user_id : String
  pub username : String
  pub tenant_id : String
  pub role : String
  pub is_root : Bool

-- RoleLevel
unfoldable pub role_level : String → ℕ
role_level role =
    if role == "viewer"
    then 1
    else if role == "operator"
    then 2
    else if role == "owner"
    then 3
    else 0

-- TenantID, on the claims of a context
unfoldable pub tenant_id : Option Claims → String
tenant_id none = ""
tenant_id (some c) = c.tenant_id

-- A request, as far as the middlewares read it. A header or a parameter that is missing is empty.
pub record Request : Type 0 where
  pub method : String
  pub path : String
  pub authorization : String
  pub token : String

-- What comes of a request: a handler `H` is reached, with the claims in its context, or the request
-- is stopped with a status and a text.
pub data Reply (H : Type 0) : Type 0 where
  reached : H → Option Claims → Reply H
  stopped : (status : ℕ) (text : String) → Reply H

abbrev pub Handler : Type 0 → Type 0
Handler H = Option Claims → Reply H

module _ {H : Type 0} where
  -- RequireRole
  unfoldable pub require_role : String → Handler H → Handler H
  unfolding role_level
  require_role min_role next none = stopped 401 "unauthorized"
  require_role min_role next (some c) =
      if c.is_root || leb (role_level min_role) (role_level c.role)
      then next (some c)
      else stopped 403 "forbidden"

  -- RequireRoot
  unfoldable pub require_root : Handler H → Handler H
  require_root next none = stopped 401 "unauthorized"
  require_root next (some c) = if not c.is_root then stopped 403 "forbidden" else next (some c)

  -- TenantRequired
  unfoldable pub tenant_required : Handler H → Handler H
  tenant_required next none = stopped 403 "tenant selection required"
  tenant_required next (some c) =
      if c.tenant_id == "" then stopped 403 "tenant selection required" else next (some c)

-- isPublicPath
unfoldable pub is_public_path : String → Bool
is_public_path path =
    if path == "/api/v1/auth/login"
      || path == "/api/v1/auth/refresh"
      || path == "/api/v1/auth/logout"
    then true
    else if has_prefix "/api/share/" path
    then true
    else if has_prefix "/ws/" path
    then false
    else not (has_prefix "/api/" path)

-- What the middleware uses of other code: the JWT parser, the hash of a token, and the row of a
-- hash in the table of API tokens that has not expired, a tenant and a role (`none` for no pool).
pub record Verifier : Type 0 where
  pub parse : String → Option Claims
  pub hash : String → String
  pub rows : Option (String → Option (String × String))

-- The header, or the token of the query under a Bearer prefix.
unfoldable pub credentials : Request → String
credentials r =
    if r.authorization == ""
    then (if r.token == "" then "" else join "Bearer " r.token)
    else r.authorization

-- The claims that a token proves.
unfoldable pub claims_of : Verifier → String → Option Claims
claims_of v token = elim (v.parse token) [
  | some c ↦ some c
  | none ↦ elim (v.rows) [
    | none ↦ none
    | some row ↦ elim (row (v.hash token)) [
      | none ↦ none
      | some (tenant, role) ↦ some (record {
        user_id = "api-token";
        username = "api-token";
        tenant_id = tenant;
        role = role;
        is_root = false;
      })
    ]
  ]
]

-- NewAuthMiddleware
unfoldable pub auth_middleware : {H : Type 0} → Verifier → (Request → Handler H) → Request → Reply H
unfolding is_public_path credentials claims_of
auth_middleware v next r =
    if is_public_path r.path
    then next r none
    else if credentials r == ""
    then stopped 401 "missing Authorization header"
    else elim (claims_of v (trim_prefix "Bearer " (credentials r))) [
      | some c ↦ next r (some c)
      | none ↦ stopped 401 "invalid credentials"
    ]
