-- ===== src/Settings/Samples.antt =====
-- A tenant's quotas, with the theorem about internal/domain/types/settings.go at these inputs.
use hatchet_workflow.Base.{◌≡◌, refl, [], ◌∷◌, none, inl, inr, arith, Memᴰ}
use hatchet_workflow.Base.Int.{pos}
use hatchet_workflow.Run.Types.{postgres, MachineSpec, database}
use hatchet_workflow.Settings.{TenantQuotas, validate_quotas, kind_name}
use hatchet_workflow.Settings.Quotas.{Within, validate_quotas-ok_iff}

abbrev small : TenantQuotas
small = record {
  allowed_db_kinds = "ydb" ∷ "postgres" ∷ [];
  allowed_providers = [];
  max_nodes = pos 3;
  max_cpus_per_node = pos 0;
  max_memory_mb_per_node = pos 8192;
  max_disk_gb_per_node = pos 0;
  max_concurrent_runs = pos 1;
}

abbrev three_nodes : MachineSpec
three_nodes = record {
  role = database;
  count = pos 3;
  cpus = pos 64;
  memory_mb = pos 4096;
  disk_gb = pos 50;
  disk_type = "";
  secondary_disks = [];
}

is_Within : Within small postgres "docker" (three_nodes ∷ [])
unfolding kind_name
is_Within = record {
  kind_permitted = inr (Memᴰ.tail (Memᴰ.head refl));
  provider_permitted = inl refl;
  nodes_within =
      ((λ h. (λ p. refl, λ p. ground (arith, p), λ p. refl, λ p. ground (arith, p))), tt);
}

validate_quotas-ok_iff_example : validate_quotas small postgres "docker" (three_nodes ∷ []) ≡ none
validate_quotas-ok_iff_example =
    (validate_quotas-ok_iff small postgres "docker" (three_nodes ∷ [])).1 is_Within
