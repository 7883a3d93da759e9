-- ===== src/Nvml/Examples.antt =====
-- Tests and instances of the theorems on the NVML client: a GPU on which the larger profile must be
-- created first.
use walkai_nos.Base.{
  ◌≡◌, refl, Bool, true, false, none, some, List, [], ◌∷◌, ℕ, zero, suc, leb, pos, String_eq, ◌==◌,
  length, arith, if◌then◌else◌,
}
use walkai_nos.Geometry.{ProfileName}
use walkai_nos.Agent.Client.{generic}
use walkai_nos.Agent.State.{in_slice}
use walkai_nos.Nvml.{
  success, failed, code_other, DeviceHandle, device_handle, gpu_instance, compute_instance,
  MigProfile, NvmlCall, init, shutdown, created_gi, created_ci, failed_to_create, destroyed_gi,
  destroyed_ci, Log, Driver,
}
use walkai_nos.Nvml.Visit.{
  each, counter, visit_compute_instances, visit_compute_profile, visit_gpu_instances,
  visit_gpu_profile,
}
use walkai_nos.Nvml.Deletion.{
  destroy_ci_logged, destroy_gi_logged, delete_ci_except, delete_gi_except, delete_device_except,
  delete_all_mig_devices_except,
}
use walkai_nos.Nvml.Permutation.{element_at, permutation, permutations, iter_permutations}
use walkai_nos.Nvml.Creation.{
  cleanup_cis, cleanup_gis, cleanup, try_profiles, try_permutation, parse_mig_profiles, create_on,
  create_profiles, create_mig_devices,
}
use walkai_nos.Nvml.Creation.Tried.{AllTried, permutations-Tried}
use walkai_nos.Nvml.Creation.Created.{IsGenerator, Created, create_mig_devices-Created}

abbrev gpu : DeviceHandle
gpu = device_handle 0

abbrev mig_profile_of : ProfileName → MigProfile
mig_profile_of name =
    if name == "3g.20gb"
    then record { gi_profile_id = 1; ci_profile_id = 0; ci_eng_profile_id = 0 }
    else record { gi_profile_id = 0; ci_profile_id = 0; ci_eng_profile_id = 0 }

-- The profile 1 is created only as the first one behind an `init` or a destroyed GPU instance.
abbrev can_be_last : Log → Bool
can_be_last [] = true
can_be_last (init b ∷ []) = true
can_be_last (destroyed_gi g ∷ []) = true
can_be_last (shutdown ∷ []) = true
can_be_last (created_gi g ∷ []) = false
can_be_last (created_ci c ∷ []) = false
can_be_last (destroyed_ci c ∷ []) = true
can_be_last (NvmlCall.failed_to_create ∷ []) = true
can_be_last (NvmlCall.failed_to_destroy ∷ []) = true
can_be_last (call ∷ next ∷ rest) = can_be_last (next ∷ rest)

abbrev driver : Driver
driver = record {
  initialized = λ t. true;
  devices = λ t. some (pos 0, gpu) ∷ [];
  mig_devices = λ t. [];
  all_devices = λ t. some (gpu ∷ []);
  uuid = λ t h. elim h [ device_handle n ↦ success (if leb 10 n then "MIG-kept" else "GPU-0") ];
  index_of = λ t h. success (pos 0);
  handle_by_uuid = λ t id. success gpu;
  handle_by_index = λ t i. success gpu;
  new_device = λ t h. some h;
  is_mig_capable = λ t h. some true;
  is_mig_enabled = λ t h. some true;
  is_mig_device_handle = λ t h. success true;
  gpu_instance_id = λ t h. success 0;
  parent = λ t h. success gpu;
  gpu_instance_by_id = λ t h i. success (gpu_instance i);
  gpu_profile_info = λ t h i. success (record { gpu_profile = i });
  gpu_instances = λ t h info. success (gpu_instance 3 ∷ gpu_instance 10 ∷ []);
  compute_profile_info = λ t g j k. success (record { compute_profile = j; engine_profile = k });
  compute_instances = λ t g info. elim g [ gpu_instance n ↦ success (compute_instance n ∷ []) ];
  gi_device = λ t g. elim g [ gpu_instance n ↦ success (device_handle n) ];
  ci_device = λ t c. elim c [ compute_instance n ↦ success (device_handle n) ];
  create_gi = λ t h info.
      if leb info.gpu_profile 0
      then success (gpu_instance (length t))
      else if can_be_last t
      then success (gpu_instance (length t))
      else failed code_other;
  create_ci = λ t g info. success (compute_instance (length t));
  destroy_gi = λ t g. none;
  destroy_ci = λ t c. none;
  parse_mig_profile = λ name. some (mig_profile_of name);
  gpu_instance_profile_count = 1;
  compute_instance_profile_count = 1;
  compute_instance_engine_profile_count = 1;
}

-- Two indices at most.
abbrev orders : ℕ → List (List ℕ)
orders zero = [] ∷ []
orders (suc zero) = (0 ∷ []) ∷ []
orders (suc (suc zero)) = (0 ∷ 1 ∷ []) ∷ (1 ∷ 0 ∷ []) ∷ []
orders (suc (suc (suc n))) = []

orders-IsGenerator : IsGenerator orders
orders-IsGenerator zero = ((refl, tt), tt)
orders-IsGenerator (suc zero) = ((refl, (omega arith, tt)), tt)
orders-IsGenerator (suc (suc zero)) =
    ((refl, (omega arith, (omega arith, tt))), ((refl, (omega arith, (omega arith, tt))), tt))
orders-IsGenerator (suc (suc (suc n))) = tt

abbrev names : List ProfileName
names = "1g.5gb" ∷ "3g.20gb" ∷ []

-- The first order fails at the larger profile, and is cleaned up; the second one succeeds.
second_order : create_mig_devices driver orders names (pos 0) [] ≡ (
  none,
  init true
      ∷ created_gi (gpu_instance 1)
      ∷ created_ci (compute_instance 2)
      ∷ failed_to_create
      ∷ destroyed_ci (compute_instance 2)
      ∷ destroyed_gi (gpu_instance 1)
      ∷ created_gi (gpu_instance 6)
      ∷ created_ci (compute_instance 7)
      ∷ created_gi (gpu_instance 8)
      ∷ created_ci (compute_instance 9)
      ∷ shutdown
      ∷ [],
)
unfolding create_mig_devices parse_mig_profiles create_profiles create_on iter_permutations
    permutations permutation element_at try_profiles cleanup cleanup_cis cleanup_gis
    destroy_ci_logged destroy_gi_logged
second_order = refl

-- Without a profile there is an error, though there is nothing to create.
no_profiles : (create_mig_devices driver orders [] (pos 0) []).0 ≡ some generic
unfolding create_mig_devices parse_mig_profiles create_profiles create_on iter_permutations
    permutations
no_profiles = refl

create_mig_devices-Created_example :
    Created [] (create_mig_devices driver orders names (pos 0) []).1 2
unfolding create_mig_devices parse_mig_profiles create_profiles create_on iter_permutations
    permutations permutation element_at try_profiles cleanup cleanup_cis cleanup_gis
    destroy_ci_logged destroy_gi_logged
create_mig_devices-Created_example =
    create_mig_devices-Created driver orders orders-IsGenerator names (pos 0) [] refl

abbrev both_orders : List (List MigProfile)
both_orders =
    (mig_profile_of "1g.5gb" ∷ mig_profile_of "3g.20gb" ∷ [])
    ∷ (mig_profile_of "3g.20gb" ∷ mig_profile_of "1g.5gb" ∷ [])
    ∷ []

permutations-Tried_example :
    AllTried driver gpu []
      (iter_permutations (try_permutation driver gpu) both_orders []).1
      both_orders
      (iter_permutations (try_permutation driver gpu) both_orders []).0
permutations-Tried_example = permutations-Tried driver gpu both_orders []

-- Of the two GPU instances, one is of a device that is kept.
keeps_one : delete_all_mig_devices_except driver ("MIG-kept" ∷ []) [] ≡ (
  true,
  init true ∷ destroyed_ci (compute_instance 3) ∷ destroyed_gi (gpu_instance 3) ∷ shutdown ∷ [],
)
unfolding delete_all_mig_devices_except each delete_device_except visit_gpu_instances
    visit_gpu_profile counter delete_gi_except visit_compute_instances visit_compute_profile
    delete_ci_except in_slice destroy_ci_logged destroy_gi_logged
keeps_one = refl

abbrev without_info : Driver
without_info = record driver { compute_profile_info = λ t g j k. failed code_other }

-- The error that is returned at once leaves the GPU instance that was created.
left_behind :
    create_mig_devices without_info orders ("1g.5gb" ∷ []) (pos 0) []
    ≡ (some generic, init true ∷ created_gi (gpu_instance 1) ∷ shutdown ∷ [])
unfolding create_mig_devices parse_mig_profiles create_profiles create_on iter_permutations
    permutations permutation element_at try_profiles
left_behind = refl
