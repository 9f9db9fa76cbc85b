-- ===== src/Api/Access/Endpoints.antt =====
-- internal/domain/api/server.go: the handlers that Router mounts, by their names, and who may use
-- each, after the comments of Router (Viewer+, Operator+, Owner+).
pub data Endpoint : Type 0 where
  metrics_handler health agent_register agent_poll agent_report agent_log_batch get_shared_run :
      Endpoint
  login refresh logout auth_me select_tenant change_password get_grafana_config list_packages :
      Endpoint
  get_package download_package_deb list_runs run_status run_logs run_metrics compare_runs : Endpoint
  stroppy_versions stroppy_commits list_presets_tenant get_preset get_settings run_start : Endpoint
  run_validate run_dry_run stroppy_probe delete_run cancel_run create_share_link set_baseline :
      Endpoint
  get_baseline list_baselines upload_package create_preset update_preset delete_preset : Endpoint
  clone_preset create_package update_package delete_package clone_package upload_package_deb :
      Endpoint
  update_settings list_members add_member update_member remove_member list_api_tokens : Endpoint
  create_api_token revoke_api_token list_tenants_admin create_tenant_admin delete_tenant_admin :
      Endpoint
  list_users_admin create_user_admin delete_user_admin reset_password_admin ws_logs ws_logs_run :
      Endpoint
  serve_packages serve_binary serve_spa : Endpoint

-- Who may use a handler.
pub data Audience : Type 0 where
  anyone signed_in member operator owner root : Audience

-- The audience of each handler.
unfoldable pub audience : Endpoint → Audience
audience metrics_handler = anyone
audience health = anyone
audience agent_register = signed_in
audience agent_poll = signed_in
audience agent_report = signed_in
audience agent_log_batch = signed_in
audience get_shared_run = anyone
audience login = anyone
audience refresh = anyone
audience logout = anyone
audience auth_me = signed_in
audience select_tenant = signed_in
audience change_password = signed_in
audience get_grafana_config = signed_in
audience list_packages = member
audience get_package = member
audience download_package_deb = member
audience list_runs = member
audience run_status = member
audience run_logs = member
audience run_metrics = member
audience compare_runs = member
audience stroppy_versions = member
audience stroppy_commits = member
audience list_presets_tenant = member
audience get_preset = member
audience get_settings = member
audience run_start = operator
audience run_validate = operator
audience run_dry_run = operator
audience stroppy_probe = operator
audience delete_run = operator
audience cancel_run = operator
audience create_share_link = operator
audience set_baseline = operator
audience get_baseline = operator
audience list_baselines = operator
audience upload_package = operator
audience create_preset = operator
audience update_preset = operator
audience delete_preset = operator
audience clone_preset = operator
audience create_package = operator
audience update_package = operator
audience delete_package = operator
audience clone_package = operator
audience upload_package_deb = operator
audience update_settings = owner
audience list_members = owner
audience add_member = owner
audience update_member = owner
audience remove_member = owner
audience list_api_tokens = owner
audience create_api_token = owner
audience revoke_api_token = owner
audience list_tenants_admin = root
audience create_tenant_admin = root
audience delete_tenant_admin = root
audience list_users_admin = root
audience create_user_admin = root
audience delete_user_admin = root
audience reset_password_admin = root
audience ws_logs = signed_in
audience ws_logs_run = signed_in
audience serve_packages = anyone
audience serve_binary = anyone
audience serve_spa = anyone
