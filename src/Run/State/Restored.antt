-- ===== src/Run/State/Restored.antt =====
-- internal/domain/run/state.go: a state that is exported and imported again.
use hatchet_workflow.Base.{
  append_assoc, append_nil, map-append, ◌≡◌, refl, ◌∙◌, List, [], ◌∷◌, ◌++◌, map, Option, none,
  some,
}
use hatchet_workflow.Run.State.{
  Target, TargetInfo, State, info, target, optional, export_run_state, import_target,
  import_targets, import_run_state, all_targets, all_target_hosts,
}

module _ {Actor : Type 0} where
  import_targets-append :
      (xs ys : List TargetInfo) (s : State Actor)
      → import_targets (xs ++ ys) s ≡ import_targets ys (import_targets xs s)
  unfolding import_targets
  import_targets-append [] ys s = refl
  import_targets-append (x ∷ xs) ys s = import_targets-append xs ys (import_target x s)

  import_database :
      (ts : List Target) (s : State Actor)
      → import_targets (map (info "database") ts) s ≡ record s { db_targets = s.db_targets ++ ts }
  unfolding import_targets import_target info target
  import_database [] s = rw (append_nil s.db_targets) refl
  import_database (t ∷ ts) s =
      import_database ts (record s { db_targets = s.db_targets ++ t ∷ [] })
      ∙ rw (append_assoc s.db_targets (t ∷ []) ts)

  import_monitor :
      (ts : List Target) (s : State Actor)
      → import_targets (map (info "monitor") ts) s
        ≡ record s { monitor_targets = s.monitor_targets ++ ts }
  unfolding import_targets import_target info target
  import_monitor [] s = rw (append_nil s.monitor_targets) refl
  import_monitor (t ∷ ts) s =
      import_monitor ts (record s { monitor_targets = s.monitor_targets ++ t ∷ [] })
      ∙ rw (append_assoc s.monitor_targets (t ∷ []) ts)

  import_proxy :
      (ts : List Target) (s : State Actor)
      → import_targets (map (info "proxy") ts) s
        ≡ record s { proxy_targets = s.proxy_targets ++ ts }
  unfolding import_targets import_target info target
  import_proxy [] s = rw (append_nil s.proxy_targets) refl
  import_proxy (t ∷ ts) s =
      import_proxy ts (record s { proxy_targets = s.proxy_targets ++ t ∷ [] })
      ∙ rw (append_assoc s.proxy_targets (t ∷ []) ts)

  import_stroppy :
      (t : Option Target) (s : State Actor)
      → s.stroppy_target ≡ none
      → import_targets (map (info "stroppy") (optional t)) s ≡ record s { stroppy_target = t }
  unfolding import_targets import_target info target
  import_stroppy none s h = rw (h) refl
  import_stroppy (some t) s h = refl

  -- Importing what a state exports, into any state, gives back that state, except that the Terraform
  -- working directory and actor stay those of the state imported into.
  pub import_run_state-export :
      (s into : State Actor)
      → import_run_state (export_run_state s) into ≡ record s {
        terraform_wd_id = into.terraform_wd_id;
        terraform_actor = into.terraform_actor;
      }
  unfolding import_run_state export_run_state
  import_run_state-export s into =
      rw
        (
          import_targets-append, import_targets-append, import_targets-append, import_database,
          import_monitor, import_proxy, import_stroppy,
        )
        refl

  -- The hosts to scrape are the hosts of all targets but the proxies, in the same order.
  pub all_target_hosts_lem :
      (s : State Actor)
      → all_target_hosts s ≡ map (λ t. t.host) (all_targets (record s { proxy_targets = [] }))
  unfolding all_target_hosts all_targets
  all_target_hosts_lem s = rw (
    append_nil (s.db_targets ++ s.monitor_targets),
    map-append (λ (t : Target). t.host) (s.db_targets ++ s.monitor_targets)
        (optional s.stroppy_target),
    map-append (λ (t : Target). t.host) s.db_targets s.monitor_targets,
  )
