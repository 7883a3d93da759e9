-- ===== src/Agent/Examples.antt =====
-- The devices of one GPU, of which two are deleted; and the plan for a spec that wants two of their
-- profile and one of another.
use walkai_nos.Base.{◌≡◌, refl, negsuc, ◌-ℤ◌, ◌+ℤ◌, List, [], ◌∷◌, String, pos, arith}
use walkai_nos.GoMap.{get?, put}
use walkai_nos.GoMap.Groups.{count}
use walkai_nos.Device.{Status, used, free, Device, get_mig_profile_name}
use walkai_nos.Annotation.{SpecAnnotation}
use walkai_nos.Mig.Profile.{Profile}
use walkai_nos.Agent.State.{new_mig_state}
use walkai_nos.Agent.Plan.Net.{net, created, of_profile}
use walkai_nos.Agent.Plan.Balance.{desired_of, net-new_mig_config_plan}
use walkai_nos.Agent.Plan.{new_mig_config_plan, resources_of, extract_candidates_for_deletion}
use walkai_nos.Agent.Plan.Candidates.{Candidates, extract_outcomes}

abbrev device : String → Status → Device
device id status = record {
  resource_name = "nvidia.com/mig-1g.10gb";
  device_id = id;
  status = status;
  gpu_index = pos 0;
}

abbrev three_devices : List Device
three_devices = device "a" used ∷ device "b" free ∷ device "c" used ∷ []

extract_outcomes_example :
    Candidates three_devices 2 (extract_candidates_for_deletion three_devices 2)
extract_outcomes_example = extract_outcomes three_devices 2 (omega arith) (omega arith)

abbrev desired_profiles : List SpecAnnotation
desired_profiles =
    record { profile_name = "1g.10gb"; index = pos 0; quantity = pos 2 }
    ∷ record { profile_name = "3g.20gb"; index = pos 0; quantity = pos 1 }
    ∷ []

abbrev small_profile : Profile
small_profile = record { gpu_index = pos 0; name = "1g.10gb" }

net-new_mig_config_plan_example :
    net small_profile (new_mig_config_plan (new_mig_state three_devices) desired_profiles)
    ≡ desired_of small_profile desired_profiles -ℤ pos (of_profile small_profile three_devices)
net-new_mig_config_plan_example =
    net-new_mig_config_plan small_profile three_devices desired_profiles
      (omega arith, (omega arith, tt))

one_deleted :
    net small_profile (new_mig_config_plan (new_mig_state three_devices) desired_profiles)
    ≡ negsuc 0
unfolding net new_mig_config_plan new_mig_state created ◌-ℤ◌ ◌+ℤ◌ put get? get_mig_profile_name
    resources_of count
one_deleted = refl
