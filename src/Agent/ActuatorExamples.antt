-- ===== src/Agent/ActuatorExamples.antt =====
-- The theorems on the actuator and its shared state at concrete plans.
use walkai_nos.Base.{◌≡◌, refl, true, false, none, some, [], ◌∷◌, pos, All, ◌⊎◌}
use walkai_nos.Device.{free}
use walkai_nos.Agent.Plan.{MigConfigPlan}
use walkai_nos.Agent.Client.{Clients, found}
use walkai_nos.Agent.Actuator.{apply_plan, contains_used_resources}
use walkai_nos.Agent.Actuator.Application.{Applying, DeletesFree, HasReset, apply_plan_calls}
use walkai_nos.Agent.Shared.Handshake.{
  Shared, start, Reachable, at_start, by_step, fail_report, check, HasEnded, passed-HasEnded,
}

abbrev clients : Clients
clients = record {
  used_devices = λ t. some [];
  allocatable_devices = λ t. some [];
  gpu_index = λ t id. found (pos 0);
  deleted = λ t id. none;
  created = λ t index names. true;
  restarted = λ t. true;
  node = λ t. none;
  annotations_patched = λ t annotations. true;
  taints_patched = λ t taints. true;
}

abbrev replacing : MigConfigPlan
replacing = record {
  delete_operations =
      record {
        resources =
            record {
              resource_name = "nvidia.com/mig-1g.10gb";
              device_id = "a";
              status = free;
              gpu_index = pos 0;
            }
            ∷ [];
      }
      ∷ [];
  create_operations =
      record { mig_profile = record { gpu_index = pos 0; name = "2g.20gb" }; quantity = pos 1 }
      ∷ [];
}

apply_plan_calls_example :
    ((contains_used_resources replacing.delete_operations ≡ true)
      × HasReset clients (apply_plan clients replacing []))
    ⊎ ((contains_used_resources replacing.delete_operations ≡ false)
        × All
            (Applying clients (DeletesFree clients replacing.delete_operations))
            (apply_plan clients replacing []).1)
apply_plan_calls_example = apply_plan_calls clients replacing

-- A report that has failed lets the actuator pass, though nothing has been reported.
abbrev failed_once : Shared
failed_once = record { reports = true; passed = false; reported = false; failed = true }

abbrev passed_once : Shared
passed_once = record { reports = false; passed = true; reported = false; failed = true }

passed_once-Reachable : Reachable passed_once
passed_once-Reachable =
    by_step failed_once passed_once (by_step start failed_once at_start (fail_report start))
      (check failed_once refl)

passed-HasEnded_example : HasEnded passed_once
passed-HasEnded_example = passed-HasEnded passed_once passed_once-Reachable refl
