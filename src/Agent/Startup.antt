-- ===== src/Agent/Startup.antt =====
-- initAgent of cmd/migagent/migagent.go and DeleteAllExcept of pkg/gpu/mig/client.go: before it starts,
-- the agent deletes the devices that are not in use.
pub mod Used
use walkai_nos.Base.{Bool, true, false, List, [], ◌∷◌, map, String, length, nat_eq, if◌then◌else◌}
use walkai_nos.Device.{Device, get_used}
use walkai_nos.Nvml.{Log, Driver}
use walkai_nos.Nvml.Index.{
  EnabledGpus, enabled, enabled_error, enabled_nil_error, get_mig_enabled_gpus,
}
use walkai_nos.Nvml.Deletion.{delete_all_mig_devices_except}
use walkai_nos.Agent.Client.{Calls, Clients, found, error, get_mig_devices}

module _ (d : Driver) where
  abbrev pub delete_all_except : List Device → Log → Bool × Log
  delete_all_except keep log = delete_all_mig_devices_except d (map (λ r. r.device_id) keep) log

  -- Whether there is no error. A nil error comes with no indexes, of which there are too few.
  unfoldable pub check_at_least_one_mig_gpu : Log → Bool × Log
  unfolding get_mig_enabled_gpus
  check_at_least_one_mig_gpu log =
      let (gpus, u) = get_mig_enabled_gpus d log in
      elim gpus [
        | enabled l ↦ (if nat_eq (length l) 0 then false else true, u)
        | enabled_error ↦ (false, u)
        | enabled_nil_error ↦ (false, u)
      ]

  module _ (c : Clients) where
    unfoldable pub cleanup_unused_mig_resources : Calls → Log → Bool × Calls × Log
    unfolding get_mig_devices get_used delete_all_mig_devices_except
    cleanup_unused_mig_resources t log =
        let (resources, asked) = get_mig_devices c t in
        elim resources [
          | error _ ↦ (false, asked, log)
          | found l ↦ let (done, u) = delete_all_except (get_used l) log in (done, asked, u)
        ]

    unfoldable pub init_agent : Calls → Log → Bool × Calls × Log
    unfolding check_at_least_one_mig_gpu cleanup_unused_mig_resources
    init_agent t log =
        let (some_gpu, u) = check_at_least_one_mig_gpu log in
        let cleaned = cleanup_unused_mig_resources t u in
        if some_gpu then cleaned else (false, t, u)
