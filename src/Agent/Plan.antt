-- ===== src/Agent/Plan.antt =====
-- internal/controllers/migagent/plan/plan.go and operation.go: from the devices of the GPUs and the
-- desired devices to the operations that lead from one to the other.
pub mod Candidates
pub mod Net
pub mod Profiles
pub mod Gpus
pub mod Unwanted
pub mod Balance
use walkai_nos.Base.{
  Bool, true, false, ◌&&◌, ◌||◌, not, none, some, List, [], ◌∷◌, ◌++◌, map, ℕ, zero, suc, ◌+◌,
  String, String_eq, ℤ, pos, neg_part, lt_ℤ, ◌+ℤ◌, ◌-ℤ◌, int_eq, nat_eq, ltb, ◌==◌, if◌then◌else◌,
  length,
}
use walkai_nos.GoMap.{GoMap, get?}
use walkai_nos.GoMap.Groups.{filter, list_at, flatten}
use walkai_nos.Geometry.{ProfileName}
use walkai_nos.Mig.Profile.{Profile, Profile_eq}
use walkai_nos.Device.{
  Device, is_free, get_free, group_by_gpu_index, sort_by_device_id, group_devices_by_mig_profile,
}
use walkai_nos.Annotation.{
  SpecAnnotation, group_spec_by_gpu_index, group_spec_annotations_by_mig_profile,
}
use walkai_nos.Agent.State.{MigState, without_mig_profiles}

pub record CreateOperation : Type 0 where
  pub mig_profile : Profile
  pub quantity : ℤ

pub record DeleteOperation : Type 0 where
  pub resources : List Device

pub record MigConfigPlan : Type 0 where
  pub delete_operations : List DeleteOperation
  pub create_operations : List CreateOperation

abbrev pub add_delete_op : List Device → MigConfigPlan → MigConfigPlan
add_delete_op l p = record p {
  delete_operations = p.delete_operations ++ record { resources = l } ∷ [];
}

abbrev pub add_create_op : Profile → ℤ → MigConfigPlan → MigConfigPlan
add_create_op profile q p = record p {
  create_operations = p.create_operations ++ record { mig_profile = profile; quantity = q } ∷ [];
}

unfoldable pub resources_of : List DeleteOperation → List Device
resources_of [] = []
resources_of (o ∷ rest) = o.resources ++ resources_of rest

abbrev pub get_resources_to_delete : MigConfigPlan → List Device
get_resources_to_delete p = resources_of p.delete_operations

-- A loop of extractCandidatesForDeletion: take the devices that pass the test until there are as
-- many candidates as asked for.
unfoldable pub take_candidates : (Device → Bool) → ℕ → List Device → List Device → List Device
take_candidates test n [] candidates = candidates
take_candidates test n (r ∷ rest) candidates =
    let next = if test r then candidates ++ r ∷ [] else candidates in
    let more = take_candidates test n rest next in if nat_eq (length next) n then next else more

unfoldable pub extract_candidates_for_deletion : List Device → ℕ → List Device
unfolding take_candidates
extract_candidates_for_deletion resources n =
    let frees = take_candidates is_free n resources [] in
    if ltb (length frees) n then take_candidates (λ r. not (is_free r)) n resources frees else frees

unfoldable pub has_id : String → List Device → Bool
has_id id [] = false
has_id id (r ∷ rest) = if r.device_id == id then true else has_id id rest

unfoldable pub extract_resources_to_recreate : List Device → MigConfigPlan → List Device
unfolding has_id filter get_free
extract_resources_to_recreate resources plan =
    filter (λ r. not (has_id r.device_id (get_resources_to_delete plan))) (get_free resources)

unfoldable pub total_quantity : List SpecAnnotation → ℤ → ℤ
total_quantity [] total = total
total_quantity (a ∷ rest) total = total_quantity rest (total +ℤ a.quantity)

-- The body of the loop over the profiles of one GPU; the number counts the create operations.
unfoldable pub plan_profile :
    GoMap Profile (List Device)
    → Profile
    → List SpecAnnotation
    → MigConfigPlan × ℕ
    → MigConfigPlan × ℕ
unfolding total_quantity extract_candidates_for_deletion list_at
plan_profile gpu_state profile annotations (plan, n) =
    let actual = list_at profile gpu_state in
    let diff = total_quantity annotations (pos 0) -ℤ pos (length actual) in
    if lt_ℤ (pos 0) diff
    then (add_create_op profile diff plan, n + 1)
    else if lt_ℤ diff (pos 0)
    then (add_delete_op (extract_candidates_for_deletion actual (neg_part diff)) plan, n)
    else (plan, n)

unfoldable pub plan_profiles :
    GoMap Profile (List Device)
    → GoMap Profile (List SpecAnnotation)
    → MigConfigPlan × ℕ
    → MigConfigPlan × ℕ
unfolding plan_profile
plan_profiles gpu_state [] s = s
plan_profiles gpu_state ((profile, annotations) ∷ rest) s =
    plan_profiles gpu_state rest (plan_profile gpu_state profile annotations s)

unfoldable pub add_recreate_ops : GoMap Profile (List Device) → MigConfigPlan → MigConfigPlan
add_recreate_ops [] plan = plan
add_recreate_ops ((profile, resources) ∷ rest) plan =
    add_recreate_ops rest (add_create_op profile (pos (length resources)) plan)

unfoldable pub recreate_free : List Device → MigConfigPlan × ℕ → MigConfigPlan
unfolding extract_resources_to_recreate add_recreate_ops group_devices_by_mig_profile
recreate_free resources (plan, n) =
    if nat_eq n 0
    then plan
    else let again = extract_resources_to_recreate resources plan in
      if ltb 0 (length again)
      then add_recreate_ops (group_devices_by_mig_profile again) (add_delete_op again plan)
      else plan

-- The body of the loop over the GPUs of the spec.
unfoldable pub plan_gpu : List Device → List SpecAnnotation → MigConfigPlan → MigConfigPlan
unfolding plan_profiles recreate_free group_devices_by_mig_profile
    group_spec_annotations_by_mig_profile
plan_gpu resources annotations plan = recreate_free resources (
    plan_profiles (group_devices_by_mig_profile resources)
      (group_spec_annotations_by_mig_profile annotations) (plan, 0))

unfoldable pub plan_gpus :
    GoMap ℤ (List Device) → GoMap ℤ (List SpecAnnotation) → MigConfigPlan → MigConfigPlan
unfolding plan_gpu list_at
plan_gpus by_gpu [] plan = plan
plan_gpus by_gpu ((index, annotations) ∷ rest) plan =
    plan_gpus by_gpu rest (plan_gpu (list_at index by_gpu) annotations plan)

unfoldable pub without_spec : GoMap ℤ (List SpecAnnotation) → MigState → MigState
unfolding without_mig_profiles
without_spec [] state = state
without_spec ((index, annotations) ∷ rest) state =
    without_spec rest (without_mig_profiles state index (map (λ a. a.profile_name) annotations))

unfoldable pub get_resources_not_included_in_spec : MigState → List SpecAnnotation → List Device
unfolding without_spec flatten group_spec_by_gpu_index
get_resources_not_included_in_spec state desired =
    flatten (without_spec (group_spec_by_gpu_index desired) state)

-- for _, resourceList := range ... { plan.addDeleteOp(...) }
unfoldable pub delete_groups : GoMap Profile (List Device) → MigConfigPlan → MigConfigPlan
delete_groups [] plan = plan
delete_groups ((_, resources) ∷ rest) plan = delete_groups rest (add_delete_op resources plan)

abbrev pub empty_plan : MigConfigPlan
empty_plan = record { delete_operations = []; create_operations = [] }

unfoldable pub new_mig_config_plan : MigState → List SpecAnnotation → MigConfigPlan
unfolding delete_groups plan_gpus get_resources_not_included_in_spec group_by_gpu_index
    sort_by_device_id group_devices_by_mig_profile
new_mig_config_plan state desired =
    plan_gpus (group_by_gpu_index (sort_by_device_id (flatten state)))
      (group_spec_by_gpu_index desired)
      (delete_groups
        (group_devices_by_mig_profile (get_resources_not_included_in_spec state desired))
        empty_plan)

abbrev pub is_empty : MigConfigPlan → Bool
is_empty p = nat_eq (length p.delete_operations) 0 && nat_eq (length p.create_operations) 0
