-- ===== src/Agent/Client.antt =====
-- pkg/gpu/mig/client.go and ComputeFreeDevicesAndUpdateStatus of pkg/gpu/util.go: the devices of the
-- node, over the clients of the kubelet, of NVML, of the device plugin and of the API, whose answers
-- depend on the calls before.
use walkai_nos.Base.{
  Bool, true, false, not, Option, none, some, List, [], ◌∷◌, ◌++◌, map, String, String_eq, ℤ,
  int_eq, if◌then◌else◌,
}
use walkai_nos.GoMap.{GoMap}
use walkai_nos.GoMap.Groups.{filter, group_by}
use walkai_nos.Text.{has_prefix}
use walkai_nos.Geometry.{ProfileName}
use walkai_nos.Kube.{KubeNode, Taint}
use walkai_nos.Mig.Profile.{ResourceName, Profile, is_nvidia_mig_device}
use walkai_nos.Device.{Device, Status, free}
use walkai_nos.Agent.State.{in_slice}

-- resource.Device
pub record Resource : Type 0 where
  pub resource_name : ResourceName
  pub device_id : String
  pub status : Status

pub data Call : Type 0 where
  get_used_devices : Call
  get_allocatable_devices : Call
  get_gpu_index : String → Call
  delete_mig_device : String → Call
  create_mig_devices : ℤ → List ProfileName → Call
  restart_device_plugin : Call
  get_node : Call
  patch_annotations : GoMap String String → GoMap String String → Call
  patch_taints : List Taint → Call

abbrev pub Calls : Type 0
Calls = List Call

-- gpu.Error, by its code
pub data ClientError : Type 0 where
  not_found generic : ClientError

pub data Found (A : Type 0) : Type 0 where
  found : A → Found A
  error : ClientError → Found A

-- The answers to a call behind the given calls; `none` and `false` are errors, and the `ClientError` of
-- `deleted` is the one that is returned.
pub record Clients : Type 0 where
  pub used_devices : Calls → Option (List Resource)
  pub allocatable_devices : Calls → Option (List Resource)
  pub gpu_index : Calls → String → Found ℤ
  pub deleted : Calls → String → Option ClientError
  pub created : Calls → ℤ → List ProfileName → Bool
  pub restarted : Calls → Bool
  pub node : Calls → Option KubeNode
  pub annotations_patched : Calls → GoMap String String → Bool
  pub taints_patched : Calls → List Taint → Bool

abbrev pub is_nvidia_resource : Resource → Bool
is_nvidia_resource r = has_prefix r.resource_name "nvidia.com/"

abbrev pub prepend : Resource → ℤ → Found (List Device) × Calls → Found (List Device) × Calls
prepend r index (found l, t) = (
  found (
      record {
        resource_name = r.resource_name;
        device_id = r.device_id;
        status = r.status;
        gpu_index = index;
      }
      ∷ l),
  t,
)
prepend r index (error e, t) = (error e, t)

-- A device that NVML does not find is left out, another error ends the loop.
unfoldable pub extract_mig_devices : Clients → List Resource → Calls → Found (List Device) × Calls
extract_mig_devices c [] t = (found [], t)
extract_mig_devices c (r ∷ rest) t =
    let asked = t ++ get_gpu_index r.device_id ∷ [] in
    let skipped = extract_mig_devices c rest t in
    let later = extract_mig_devices c rest asked in
    if not (is_nvidia_mig_device r.resource_name)
    then skipped
    else elim (c.gpu_index t r.device_id) [
      | found index ↦ prepend r index later
      | error not_found ↦ later
      | error generic ↦ (error generic, asked)
    ]

unfoldable pub get_used_mig_devices : Clients → Calls → Found (List Device) × Calls
get_used_mig_devices c t =
    let asked = t ++ get_used_devices ∷ [] in
    elim (c.used_devices t) [
      | none ↦ (error generic, asked)
      | some l ↦ extract_mig_devices c (filter is_nvidia_resource l) asked
    ]

unfoldable pub get_allocatable_mig_devices : Clients → Calls → Found (List Device) × Calls
get_allocatable_mig_devices c t =
    let asked = t ++ get_allocatable_devices ∷ [] in
    elim (c.allocatable_devices t) [
      | none ↦ (error generic, asked)
      | some l ↦ extract_mig_devices c (filter is_nvidia_resource l) asked
    ]

-- The lookup of the used devices by their ids is a test for membership.
unfoldable pub compute_free_devices_and_update_status : List Device → List Device → List Device
compute_free_devices_and_update_status used [] = []
compute_free_devices_and_update_status used (a ∷ rest) =
    if in_slice a.device_id (map (λ u. u.device_id) used)
    then compute_free_devices_and_update_status used rest
    else record a { status = free } ∷ compute_free_devices_and_update_status used rest

unfoldable pub get_mig_devices : Clients → Calls → Found (List Device) × Calls
get_mig_devices c t =
    let (used, u) = get_used_mig_devices c t in
    let (allocatable, v) = get_allocatable_mig_devices c u in
    elim used [
      | error e ↦ (error e, u)
      | found l ↦ elim allocatable [
        | error e ↦ (error e, v)
        | found a ↦ (found (l ++ compute_free_devices_and_update_status l a), v)
      ]
    ]

-- ProfileList.GroupByGPU
abbrev pub group_by_gpu : List Profile → GoMap ℤ (List Profile)
group_by_gpu l = group_by (λ p. p.gpu_index) l

-- The loop of CreateMigDevices: the profiles that are created, whether there was an error.
unfoldable pub create_groups :
    Clients → GoMap ℤ (List Profile) → Calls → (List Profile × Bool) × Calls
create_groups c [] t = (([], false), t)
create_groups c ((index, profiles) ∷ rest) t =
    let names = map (λ p. p.name) profiles in
    let ((created, failed), u) = create_groups c rest (t ++ create_mig_devices index names ∷ []) in
    if c.created t index names then ((profiles ++ created, failed), u) else ((created, true), u)

unfoldable pub create_mig_profiles : Clients → List Profile → Calls → (List Profile × Bool) × Calls
create_mig_profiles c profiles t = create_groups c (group_by_gpu profiles) t
