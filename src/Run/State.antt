-- ===== src/Run/State.antt =====
-- internal/domain/run/state.go, and RunState and TargetInfo of internal/core/dag/storage.go: the
-- shared state of a run. A method under the lock is one step, a function on the record. A nil slice
-- is an empty one, and the Terraform actor is a type parameter. A key stands at most once in a map.
pub mod Restored
use hatchet_workflow.Base.{
  String, Bool, true, false, List, [], ◌∷◌, ◌++◌, map, Option, none, some, insert, ◌==◌,
  if◌then◌else◌,
}
use hatchet_workflow.Base.Int.{ℤ, pos}

-- agent.Target
pub record Target : Type 0 where
  pub id : String
  pub host : String
  pub internal_host : String
  pub agent_port : ℤ

abbrev pub Configs : Type 0
Configs = List (String × List (String × String))

-- dag.TargetInfo
pub record TargetInfo : Type 0 where
  pub id : String
  pub host : String
  pub internal_host : String
  pub agent_port : ℤ
  pub role : String

-- dag.RunState; `run_config` is the raw JSON text.
pub record RunState : Type 0 where
  pub provider : String
  pub run_config : String
  pub targets : List TargetInfo
  pub container_ids : List String
  pub network_id : String
  pub db_host : String
  pub db_port : ℤ
  pub effective_configs : Configs

pub record State (Actor : Type 0) : Type 0 where
  pub db_targets : List Target
  pub monitor_targets : List Target
  pub proxy_targets : List Target
  pub stroppy_target : Option Target
  pub db_host : String
  pub db_port : ℤ
  pub container_ids : List String
  pub network_id : String
  pub terraform_wd_id : String
  pub terraform_actor : Option Actor
  pub effective_configs : Configs

-- The TargetInfo of a target under a role.
info : String → Target → TargetInfo
info role t = record {
  id = t.id;
  host = t.host;
  internal_host = t.internal_host;
  agent_port = t.agent_port;
  role = role;
}

target : TargetInfo → Target
target t = record {
  id = t.id;
  host = t.host;
  internal_host = t.internal_host;
  agent_port = t.agent_port;
}

abbrev optional : {A : Type 0} → Option A → List A
optional none = []
optional (some a) = a ∷ []

module _ {Actor : Type 0} where
  -- NewState
  pub new_state : State Actor
  new_state = record {
    db_targets = [];
    monitor_targets = [];
    proxy_targets = [];
    stroppy_target = none;
    db_host = "";
    db_port = pos 0;
    container_ids = [];
    network_id = "";
    terraform_wd_id = "";
    terraform_actor = none;
    effective_configs = [];
  }

  pub set_db_targets : List Target → State Actor → State Actor
  set_db_targets targets s = record s { db_targets = targets }

  set_monitor_targets : List Target → State Actor → State Actor
  set_monitor_targets targets s = record s { monitor_targets = targets }

  pub set_proxy_targets : List Target → State Actor → State Actor
  set_proxy_targets targets s = record s { proxy_targets = targets }

  pub set_stroppy_target : Target → State Actor → State Actor
  set_stroppy_target t s = record s { stroppy_target = some t }

  set_db_endpoint : String → ℤ → State Actor → State Actor
  set_db_endpoint host port s = record s { db_host = host; db_port = port }

  add_container_id : String → State Actor → State Actor
  add_container_id id s = record s { container_ids = s.container_ids ++ id ∷ [] }

  set_network_id : String → State Actor → State Actor
  set_network_id id s = record s { network_id = id }

  pub set_terraform_wd_id : String → State Actor → State Actor
  set_terraform_wd_id id s = record s { terraform_wd_id = id }

  -- The argument is a pointer, which may be nil.
  set_terraform_actor : Option Actor → State Actor → State Actor
  set_terraform_actor a s = record s { terraform_actor = a }

  set_effective_config : String → List (String × String) → State Actor → State Actor
  unfolding insert
  set_effective_config component cfg s = record s {
    effective_configs = insert component cfg s.effective_configs;
  }

  pub all_targets : State Actor → List Target
  all_targets s =
      ((s.db_targets ++ s.monitor_targets) ++ s.proxy_targets) ++ optional s.stroppy_target

  -- Without the proxies.
  pub all_target_hosts : State Actor → List String
  all_target_hosts s =
      (map (λ t. t.host) s.db_targets ++ map (λ t. t.host) s.monitor_targets)
      ++ map (λ (t : Target). t.host) (optional s.stroppy_target)

  -- The role of each list stands in the state that is kept.
  pub export_run_state : State Actor → RunState
  unfolding info
  export_run_state s = record {
    provider = "";
    run_config = "";
    targets =
        ((map (info "database") s.db_targets ++ map (info "monitor") s.monitor_targets)
          ++ map (info "proxy") s.proxy_targets)
        ++ map (info "stroppy") (optional s.stroppy_target);
    container_ids = s.container_ids;
    network_id = s.network_id;
    db_host = s.db_host;
    db_port = s.db_port;
    effective_configs = s.effective_configs;
  }

  -- The body of the loop over the targets: the switch on the role.
  import_target : TargetInfo → State Actor → State Actor
  unfolding target
  import_target t s =
      if t.role == "database"
      then record s { db_targets = s.db_targets ++ target t ∷ [] }
      else if t.role == "monitor"
      then record s { monitor_targets = s.monitor_targets ++ target t ∷ [] }
      else if t.role == "proxy"
      then record s { proxy_targets = s.proxy_targets ++ target t ∷ [] }
      else if t.role == "stroppy"
      then record s { stroppy_target = some (target t) }
      else s

  import_targets : List TargetInfo → State Actor → State Actor
  unfolding import_target
  import_targets [] s = s
  import_targets (t ∷ ts) s = import_targets ts (import_target t s)

  pub import_run_state : RunState → State Actor → State Actor
  unfolding import_targets
  import_run_state rs s = import_targets rs.targets (record s {
    container_ids = rs.container_ids;
    network_id = rs.network_id;
    db_host = rs.db_host;
    db_port = rs.db_port;
    effective_configs = rs.effective_configs;
    db_targets = [];
    monitor_targets = [];
    proxy_targets = [];
    stroppy_target = none;
  })
