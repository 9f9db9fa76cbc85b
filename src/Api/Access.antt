-- ===== src/Api/Access.antt =====
-- internal/domain/api/server.go: Router. An endpoint is a handler by its name; a route keeps the
-- middlewares of the groups around it, the outermost first. The single-page application, which is
-- mounted when there is one, is the endpoint serve_spa. The middlewares that count requests, number
-- them and recover from panics pass every request on, and are left out.
pub mod Endpoints
pub mod Policy
use hatchet_workflow.Base.{
  String, not, ◌&&◌, Bool, true, false, List, [], ◌∷◌, ◌++◌, map, Option, none, some, if◌then◌else◌,
}
use hatchet_workflow.Base.Text.{join, has_prefix}
use hatchet_workflow.Auth
use hatchet_workflow.Auth.{Reply, reached, stopped, Handler, Request, Verifier, auth_middleware}
use hatchet_workflow.Api.Access.Endpoints.*

pub data Method : Type 0 where
  get post put delete : Method

-- The middlewares that the router mounts on its groups.
pub data Guard : Type 0 where
  tenant_required root_required : Guard
  role_required : (min_role : String) → Guard

pub record Route : Type 0 where
  pub method : Method
  pub pattern : String
  pub endpoint : Endpoint
  pub guards : List Guard

route : Method → String → Endpoint → Route
route m p e = record { method = m; pattern = p; endpoint = e; guards = [] }

-- r.Route(prefix, ...) and r.Group(...): the routes of a group under a prefix and its middlewares.
mount : String → List Route → List Route
mount prefix routes = map (λ (r : Route). record r { pattern = join prefix r.pattern }) routes

guarded : Guard → List Route → List Route
guarded g routes = map (λ (r : Route). record r { guards = g ∷ r.guards }) routes

agent_routes : List Route
unfolding route
agent_routes =
    route post "/register" agent_register
    ∷ route post "/poll" agent_poll
    ∷ route post "/report" agent_report
    ∷ route post "/logs-batch" agent_log_batch
    ∷ []

-- Viewer+
viewer_routes : List Route
unfolding route
viewer_routes =
    route get "/packages" list_packages
    ∷ route get "/packages/{id}" get_package
    ∷ route get "/packages/{id}/deb" download_package_deb
    ∷ route get "/runs" list_runs
    ∷ route get "/run/{runID}/status" run_status
    ∷ route get "/run/{runID}/logs" run_logs
    ∷ route get "/run/{runID}/metrics" run_metrics
    ∷ route get "/compare" compare_runs
    ∷ route get "/stroppy-versions" stroppy_versions
    ∷ route get "/stroppy-commits" stroppy_commits
    ∷ route get "/presets" list_presets_tenant
    ∷ route get "/presets/{id}" get_preset
    ∷ route get "/settings" get_settings
    ∷ []

-- Operator+
operator_routes : List Route
unfolding route
operator_routes =
    route post "/run" run_start
    ∷ route post "/validate" run_validate
    ∷ route post "/dry-run" run_dry_run
    ∷ route post "/probe" stroppy_probe
    ∷ route delete "/run/{runID}" delete_run
    ∷ route post "/run/{runID}/cancel" cancel_run
    ∷ route post "/run/{runID}/share" create_share_link
    ∷ route put "/baseline/{name}" set_baseline
    ∷ route get "/baseline/{name}" get_baseline
    ∷ route get "/baselines" list_baselines
    ∷ route post "/upload/deb" upload_package
    ∷ route post "/upload/rpm" upload_package
    ∷ route post "/presets" create_preset
    ∷ route put "/presets/{id}" update_preset
    ∷ route delete "/presets/{id}" delete_preset
    ∷ route post "/presets/{id}/clone" clone_preset
    ∷ route post "/packages" create_package
    ∷ route put "/packages/{id}" update_package
    ∷ route delete "/packages/{id}" delete_package
    ∷ route post "/packages/{id}/clone" clone_package
    ∷ route post "/packages/{id}/deb" upload_package_deb
    ∷ []

-- Owner+
owner_routes : List Route
unfolding route mount
owner_routes =
    route put "/settings" update_settings
    ∷ mount "/tenant" (
        route get "/members" list_members
        ∷ route post "/members" add_member
        ∷ route put "/members/{userID}" update_member
        ∷ route delete "/members/{userID}" remove_member
        ∷ route get "/tokens" list_api_tokens
        ∷ route post "/tokens" create_api_token
        ∷ route delete "/tokens/{id}" revoke_api_token
        ∷ [])

admin_routes : List Route
unfolding route
admin_routes =
    route get "/tenants" list_tenants_admin
    ∷ route post "/tenants" create_tenant_admin
    ∷ route delete "/tenants/{id}" delete_tenant_admin
    ∷ route get "/users" list_users_admin
    ∷ route post "/users" create_user_admin
    ∷ route delete "/users/{id}" delete_user_admin
    ∷ route put "/users/{id}/password" reset_password_admin
    ∷ []

tenant_routes : List Route
unfolding guarded viewer_routes operator_routes owner_routes
tenant_routes = guarded tenant_required (
    viewer_routes
    ++ (guarded (role_required "operator") operator_routes
        ++ guarded (role_required "owner") owner_routes))

-- Router; `has_spa` says that the single-page application is mounted.
unfoldable pub router : (has_spa : Bool) → List Route
unfolding route mount guarded agent_routes tenant_routes admin_routes
router has_spa =
    (route get "/metrics" metrics_handler ∷ route get "/health" health ∷ [])
    ++ (mount "/api/agent" agent_routes
        ++ ((route get "/api/share/{token}" get_shared_run
              ∷ route post "/api/v1/auth/login" login
              ∷ route post "/api/v1/auth/refresh" refresh
              ∷ route post "/api/v1/auth/logout" logout
              ∷ route get "/api/v1/auth/me" auth_me
              ∷ route post "/api/v1/auth/select-tenant" select_tenant
              ∷ route put "/api/v1/auth/password" change_password
              ∷ route get "/api/v1/grafana" get_grafana_config
              ∷ [])
            ++ (mount "/api/v1" tenant_routes
                ++ (mount "/api/v1/admin" (guarded root_required admin_routes)
                    ++ ((route get "/ws/logs" ws_logs
                          ∷ route get "/ws/logs/{runID}" ws_logs_run
                          ∷ route get "/packages/*" serve_packages
                          ∷ route get "/agent/binary" serve_binary
                          ∷ [])
                        ++ (if has_spa then route get "/*" serve_spa ∷ [] else []))))))

-- The handler behind its middlewares.
unfoldable pub behind : List Guard → Endpoint → Handler Endpoint
behind [] e claims = reached e claims
behind (tenant_required ∷ gs) e claims = Auth.tenant_required (behind gs e) claims
behind (root_required ∷ gs) e claims = Auth.require_root (behind gs e) claims
behind (role_required r ∷ gs) e claims = Auth.require_role r (behind gs e) claims

-- Serving a request: `find` is the route that the mux chooses among those mounted, if any, and
-- `unrouted` what it answers, behind the middlewares of the group that the path belongs to, when there
-- is none. The authentication runs first, also for a path that no route has.
unfoldable pub serve :
    (find : Request → Option Route) (unrouted : Request → Handler Endpoint)
    → Verifier
    → Request
    → Reply Endpoint
unfolding behind auth_middleware
serve find unrouted v = auth_middleware v (λ r claims. elim (find r) [
  | some x ↦ behind x.guards x.endpoint claims
  | none ↦ unrouted r claims
])
