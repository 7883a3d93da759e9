-- ===== src/Cluster/Examples.antt =====
-- Tests and instances of the theorems on the collector: a node with three devices of a profile.
use walkai_nos.Base.{
  ◌≡◌, refl, ◌⊎◌, true, false, ◌||◌, some, none, [], ◌∷◌, ℤ, pos, String, String_eq, ◌==◌, All,
  ◌+ℤ◌, ◌-ℤ◌,
}
use walkai_nos.GoMap.{get?, put, amount, add_at}
use walkai_nos.Text.{
  join, strip, trim_prefix, match_string, profile_at_start, resource_at_start, digits, drop_digits,
}
use walkai_nos.Text.Decimal.{itoa, print_ℕ, digits_before}
use walkai_nos.Pods.{Quota, combine, get_requested_profiles, add_profiles_of}
use walkai_nos.Mig.Profile.{extract_profile_name, is_nvidia_mig_device}
use walkai_nos.Partitioner.Order.{sort_stable, insert_stable}
use walkai_nos.Cluster.Times.{ContainerStatus, ClusterPod, pod_finish_time}
use walkai_nos.Cluster.Times.Latest.{IsMaximum, all_finish_times, pod_finish_time-IsMaximum}
use walkai_nos.Cluster.Totals.{
  ClusterNode, totals_at, profile_keys, inventory_of, gpu_totals_to_inventory, add_capacity,
  capacity_totals, add_requests, aggregate_pod_requests, capacity_result,
  build_gpu_inventory_from_capacity,
}
use walkai_nos.Cluster.Totals.Capacity.{AddsUp, capacity_inventory-AddsUp}
use walkai_nos.Cluster.Summaries.{
  container_statuses_reason, pod_status, names_of, labels_of, join_all, format_profiles,
}

-- Of two lists, the first one that has entries.
abbrev quota : Quota
quota = record {
  add = λ a b. elim a [ [] ↦ b | e ∷ rest ↦ e ∷ rest ];
  max = λ a b. elim a [ [] ↦ b | e ∷ rest ↦ e ∷ rest ];
}

abbrev at_time : String → ℤ → ContainerStatus
at_time reason t = record {
  state = record {
    waiting = none;
    running = false;
    terminated = some (record { reason = reason; finished_at = some t });
  };
  last_termination_state = record { waiting = none; running = false; terminated = none };
}

abbrev finished_pod : ClusterPod
finished_pod = record {
  pod = record {
    namespace = "default";
    name = "train";
    creation_timestamp = 1;
    is_deleted = false;
    owners = [];
    node_name = "node";
    priority = none;
    containers = (("nvidia.com/mig-1g.5gb", pos 2) ∷ []) ∷ [];
    init_containers = [];
    phase = "Succeeded";
    nominated_node_name = "";
    conditions = [];
  };
  start_time = some (pos 3);
  container_statuses = at_time "Completed" (pos 9) ∷ at_time "" (pos 8) ∷ [];
  init_container_statuses = at_time "Completed" (pos 5) ∷ [];
  ephemeral_container_statuses = [];
}

abbrev node : ClusterNode
node = record {
  annotations = [];
  capacity = ("cpu", pos 8) ∷ ("nvidia.com/mig-1g.5gb", pos 3) ∷ [];
}

-- A pod that has finished counts as allocated while it is reported.
inventory :
    build_gpu_inventory_from_capacity quota (node ∷ []) (finished_pod ∷ [])
    ≡ record { profile = "1g.5gb"; allocated = pos 2; available = pos 1 } ∷ []
unfolding build_gpu_inventory_from_capacity gpu_totals_to_inventory inventory_of totals_at
    profile_keys sort_stable insert_stable capacity_result aggregate_pod_requests add_requests
    get_requested_profiles add_profiles_of combine capacity_totals add_capacity extract_profile_name
    is_nvidia_mig_device match_string resource_at_start profile_at_start digits drop_digits
    trim_prefix strip get? put amount add_at ◌+ℤ◌ ◌-ℤ◌
inventory = refl

status : pod_status finished_pod ≡ "Completed"
unfolding pod_status container_statuses_reason
status = refl

profiles : format_profiles (("2g.10gb", pos 1) ∷ ("1g.5gb", pos 2) ∷ []) ≡ "1g.5gb x2, 2g.10gb"
unfolding format_profiles names_of labels_of join_all sort_stable insert_stable join itoa print_ℕ
    digits_before get?
profiles = refl

capacity_inventory-AddsUp_example :
    All
      (AddsUp
        (aggregate_pod_requests quota (finished_pod ∷ []) [])
        (capacity_totals (node ∷ []) []))
      (build_gpu_inventory_from_capacity quota (node ∷ []) (finished_pod ∷ []))
capacity_inventory-AddsUp_example = capacity_inventory-AddsUp quota (node ∷ []) (finished_pod ∷ [])

pod_finish_time-IsMaximum_example :
    (((finished_pod.pod.phase == "Succeeded" || finished_pod.pod.phase == "Failed") ≡ true)
      × IsMaximum (all_finish_times finished_pod) (pod_finish_time finished_pod))
    ⊎ (((finished_pod.pod.phase == "Succeeded" || finished_pod.pod.phase == "Failed") ≡ false)
        × (pod_finish_time finished_pod ≡ none))
pod_finish_time-IsMaximum_example = pod_finish_time-IsMaximum finished_pod
