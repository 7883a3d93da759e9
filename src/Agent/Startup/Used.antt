-- ===== src/Agent/Startup/Used.antt =====
-- Before the agent starts, the instances of the devices in use are kept.
use walkai_nos.Base.{◌≡◌, refl, true, false, List, map, String, Bool-cases, inl, inr, ◌⊎◌, ℤ}
use walkai_nos.Device.{Device, get_used}
use walkai_nos.Nvml.{Log, Driver, init, shutdown}
use walkai_nos.Nvml.Index.{
  EnabledGpus, enabled, enabled_error, enabled_nil_error, get_mig_enabled_gpus,
}
use walkai_nos.Nvml.Deletion.{delete_all_mig_devices_except}
use walkai_nos.Nvml.Deletion.Kept.{
  Guarded, at_start, by_call, Guarded-trans, delete_all_except-Guarded,
}
use walkai_nos.Agent.Client.{Calls, Clients, found, get_mig_devices}
use walkai_nos.Agent.Startup.{check_at_least_one_mig_gpu, cleanup_unused_mig_resources, init_agent}

abbrev pub used_ids : List Device → List String
used_ids l = map (λ r. r.device_id) (get_used l)

gpus-cases :
    (e : EnabledGpus)
    → ((l : List ℤ) × (e ≡ enabled l)) ⊎ ((e ≡ enabled_error) ⊎ (e ≡ enabled_nil_error))
gpus-cases (enabled l) = inl (l, refl)
gpus-cases enabled_error = inr (inl refl)
gpus-cases enabled_nil_error = inr (inr refl)

checked-Guarded :
    (d : Driver) (ids : List String) (log : Log)
    → Guarded d ids log (check_at_least_one_mig_gpu d log).1
unfolding check_at_least_one_mig_gpu get_mig_enabled_gpus
checked-Guarded d ids log =
    let asked : Guarded d ids log (get_mig_enabled_gpus d log).1 =
      elim (Bool-cases (d.initialized log)) [
        | inl works ↦
            rw (get_mig_enabled_gpus, works) (by_call shutdown (by_call (init true) at_start tt) tt)
        | inr broken ↦ rw (get_mig_enabled_gpus, broken) (by_call (init false) at_start tt)
      ] in
    elim (gpus-cases (get_mig_enabled_gpus d log).0) [
      | inl (l, e) ↦ rw (check_at_least_one_mig_gpu, e) asked
      | inr (inl e) ↦ rw (check_at_least_one_mig_gpu, e) asked
      | inr (inr e) ↦ rw (check_at_least_one_mig_gpu, e) asked
    ]

-- The agent finds the MIG devices of its node before it starts. Whatever the driver answers, it creates
-- no instance then, and destroys an instance only when it has read that the UUID of its device is known
-- and is of none of the devices in use.
pub init_agent-Guarded :
    (d : Driver) (c : Clients) (t : Calls) (log : Log) (l : List Device)
    → (get_mig_devices c t).0 ≡ found l
    → Guarded d (used_ids l) log (init_agent d c t log).2
unfolding init_agent cleanup_unused_mig_resources
init_agent-Guarded d c t log l h =
    let u = (check_at_least_one_mig_gpu d log).1 in
    let checked = checked-Guarded d (used_ids l) log in
    elim (Bool-cases (check_at_least_one_mig_gpu d log).0) [
      | inr nothing ↦ rw (init_agent, nothing) checked
      | inl some_gpu ↦
          rw (init_agent, some_gpu, cleanup_unused_mig_resources, h)
            (Guarded-trans d (used_ids l) log u (delete_all_mig_devices_except d (used_ids l) u).1
              checked (delete_all_except-Guarded d (used_ids l) u))
    ]
