-- ===== src/Agent/StartupExamples.antt =====
-- An instance of the theorem on the start of the agent: of two MIG devices, one is in use.
use walkai_nos.Base.{
  ◌≡◌, refl, true, none, some, List, [], ◌∷◌, String_eq, pos, if◌then◌else◌, nat_eq,
}
use walkai_nos.Text.{
  strip, has_prefix, match_string, profile_at_start, resource_at_start, digits, drop_digits,
}
use walkai_nos.GoMap.Groups.{filter}
use walkai_nos.Mig.Profile.{is_nvidia_mig_device}
use walkai_nos.Device.{Device, used, free, unknown, get_used}
use walkai_nos.Nvml.{
  success, failed, code_other, device_handle, gpu_instance, compute_instance, init, shutdown,
  destroyed_gi, destroyed_ci, Driver,
}
use walkai_nos.Nvml.Index.{get_mig_enabled_gpus, enabled_indexes}
use walkai_nos.Nvml.Visit.{
  each, counter, visit_compute_instances, visit_compute_profile, visit_gpu_instances,
  visit_gpu_profile,
}
use walkai_nos.Nvml.Deletion.{
  destroy_ci_logged, destroy_gi_logged, delete_ci_except, delete_gi_except, delete_device_except,
  delete_all_mig_devices_except,
}
use walkai_nos.Nvml.Deletion.Kept.{Guarded}
use walkai_nos.Agent.State.{in_slice}
use walkai_nos.Agent.Client.{
  Clients, Resource, found, get_mig_devices, get_used_mig_devices, get_allocatable_mig_devices,
  extract_mig_devices, compute_free_devices_and_update_status,
}
use walkai_nos.Agent.Startup.{check_at_least_one_mig_gpu, cleanup_unused_mig_resources, init_agent}
use walkai_nos.Agent.Startup.Used.{used_ids, init_agent-Guarded}

-- The instances 1 and 2 are of the devices MIG-1 and MIG-2.
abbrev driver : Driver
driver = record {
  initialized = λ t. true;
  devices = λ t. some (pos 0, device_handle 0) ∷ [];
  mig_devices = λ t. [];
  all_devices = λ t. some (device_handle 0 ∷ []);
  uuid = λ t h. elim h [
    | device_handle n ↦
        success (if nat_eq n 0 then "GPU-0" else if nat_eq n 1 then "MIG-1" else "MIG-2")
  ];
  index_of = λ t h. success (pos 0);
  handle_by_uuid = λ t id. failed code_other;
  handle_by_index = λ t i. failed code_other;
  new_device = λ t h. some h;
  is_mig_capable = λ t h. some true;
  is_mig_enabled = λ t h. some true;
  is_mig_device_handle = λ t h. success true;
  gpu_instance_id = λ t h. success 0;
  parent = λ t h. failed code_other;
  gpu_instance_by_id = λ t h i. failed code_other;
  gpu_profile_info = λ t h i. success (record { gpu_profile = i });
  gpu_instances = λ t h info. success (gpu_instance 1 ∷ gpu_instance 2 ∷ []);
  compute_profile_info = λ t g j k. success (record { compute_profile = j; engine_profile = k });
  compute_instances = λ t g info. elim g [ gpu_instance n ↦ success (compute_instance n ∷ []) ];
  gi_device = λ t g. elim g [ gpu_instance n ↦ success (device_handle n) ];
  ci_device = λ t c. elim c [ compute_instance n ↦ success (device_handle n) ];
  create_gi = λ t h info. failed code_other;
  create_ci = λ t g info. failed code_other;
  destroy_gi = λ t g. none;
  destroy_ci = λ t c. none;
  parse_mig_profile = λ name. none;
  gpu_instance_profile_count = 1;
  compute_instance_profile_count = 1;
  compute_instance_engine_profile_count = 1;
}

abbrev in_use : Resource
in_use = record { resource_name = "nvidia.com/mig-1g.5gb"; device_id = "MIG-1"; status = used }

abbrev left_over : Resource
left_over = record {
  resource_name = "nvidia.com/mig-1g.5gb";
  device_id = "MIG-2";
  status = unknown;
}

abbrev clients : Clients
clients = record {
  used_devices = λ t. some (in_use ∷ []);
  allocatable_devices = λ t. some (in_use ∷ left_over ∷ []);
  gpu_index = λ t id. found (pos 0);
  deleted = λ t id. none;
  created = λ t index names. true;
  restarted = λ t. true;
  node = λ t. none;
  annotations_patched = λ t annotations. true;
  taints_patched = λ t taints. true;
}

abbrev devices : List Device
devices =
    record {
      resource_name = "nvidia.com/mig-1g.5gb";
      device_id = "MIG-1";
      status = used;
      gpu_index = pos 0;
    }
    ∷ record {
      resource_name = "nvidia.com/mig-1g.5gb";
      device_id = "MIG-2";
      status = free;
      gpu_index = pos 0;
    }
    ∷ []

-- The device that is left over is deleted.
deletes_left_over :
    (init_agent driver clients [] []).2
    ≡ init true
      ∷ shutdown
      ∷ init true
      ∷ destroyed_ci (compute_instance 2)
      ∷ destroyed_gi (gpu_instance 2)
      ∷ shutdown
      ∷ []
unfolding init_agent check_at_least_one_mig_gpu cleanup_unused_mig_resources get_mig_enabled_gpus
    enabled_indexes get_mig_devices get_used_mig_devices get_allocatable_mig_devices
    extract_mig_devices compute_free_devices_and_update_status in_slice filter get_used has_prefix
    strip is_nvidia_mig_device match_string resource_at_start profile_at_start digits drop_digits
    delete_all_mig_devices_except each delete_device_except visit_gpu_instances visit_gpu_profile
    counter delete_gi_except visit_compute_instances visit_compute_profile delete_ci_except
    destroy_ci_logged destroy_gi_logged
deletes_left_over = refl

init_agent-Guarded_example :
    Guarded driver (used_ids devices) [] (init_agent driver clients [] []).2
unfolding get_mig_devices get_used_mig_devices get_allocatable_mig_devices extract_mig_devices
    compute_free_devices_and_update_status in_slice filter has_prefix strip is_nvidia_mig_device
    match_string resource_at_start profile_at_start digits drop_digits
init_agent-Guarded_example = init_agent-Guarded driver clients [] [] devices refl
