-- ===== src/Slicing/Reporter.antt =====
-- pkg/gpu/slicing/client.go and internal/controllers/gpuagent/reporter.go: the agent of a node whose GPUs
-- are sliced writes the devices that there are to the annotations of its node. Of the clients,
-- `gpu_index` answers for GetGpuIndex here.
pub mod Stable
use walkai_nos.Base.{
  Bool, true, false, none, some, List, [], ◌∷◌, ◌++◌, String, String_eq, if◌then◌else◌, Comparable,
}
use walkai_nos.GoMap.{GoMap}
use walkai_nos.GoMap.Groups.{filter}
use walkai_nos.Util.{unordered_equal}
use walkai_nos.Device.{Device}
use walkai_nos.Annotation.{StatusAnnotation}
use walkai_nos.Annotation.Format.{annotation_gpu_status_prefix, parse_node_annotations}
use walkai_nos.Annotation.Report.{as_status_annotation}
use walkai_nos.Annotation.Write.{delete_with_prefix, write_statuses}
use walkai_nos.Agent.Client.{
  Call, Calls, Clients, ClientError, generic, Found, found, error, Resource, get_used_devices,
  get_allocatable_devices, get_gpu_index, get_node, patch_annotations, is_nvidia_resource, prepend,
  compute_free_devices_and_update_status,
}
use walkai_nos.Slicing.Profile.{extract_gpu_id, extract_slice_profile}

-- Any error of NVML ends the loop.
unfoldable pub to_gpu_device_list : Clients → List Resource → Calls → Found (List Device) × Calls
unfolding extract_gpu_id
to_gpu_device_list c [] t = (found [], t)
to_gpu_device_list c (r ∷ rest) t =
    let id = extract_gpu_id r.device_id in
    let asked = t ++ get_gpu_index id ∷ [] in
    let later = to_gpu_device_list c rest asked in
    elim (c.gpu_index t id) [ found index ↦ prepend r index later | error e ↦ (error e, asked) ]

unfoldable pub get_used_gpus : Clients → Calls → Found (List Device) × Calls
unfolding to_gpu_device_list
get_used_gpus c t =
    let asked = t ++ get_used_devices ∷ [] in
    elim (c.used_devices t) [
      | none ↦ (error generic, asked)
      | some l ↦ to_gpu_device_list c (filter is_nvidia_resource l) asked
    ]

unfoldable pub get_allocatable_gpus : Clients → Calls → Found (List Device) × Calls
unfolding to_gpu_device_list
get_allocatable_gpus c t =
    let asked = t ++ get_allocatable_devices ∷ [] in
    elim (c.allocatable_devices t) [
      | none ↦ (error generic, asked)
      | some l ↦ to_gpu_device_list c (filter is_nvidia_resource l) asked
    ]

unfoldable pub get_gpus : Clients → Calls → Found (List Device) × Calls
unfolding get_used_gpus get_allocatable_gpus
get_gpus c t =
    let (used, u) = get_used_gpus c t in
    let (allocatable, v) = get_allocatable_gpus c u in
    elim used [
      | error e ↦ (error e, u)
      | found l ↦ elim allocatable [
        | error e ↦ (error e, v)
        | found a ↦ (found (l ++ compute_free_devices_and_update_status l a), v)
      ]
    ]

abbrev pub reported_slices : List StatusAnnotation → GoMap String String → GoMap String String
reported_slices statuses annotations =
    write_statuses statuses (delete_with_prefix annotation_gpu_status_prefix annotations)

-- Reconcile of the reporter: whether there was no error.
unfoldable pub report_slices : Clients → ⦃e : Comparable StatusAnnotation⦄ → Calls → Bool × Calls
unfolding get_gpus
report_slices c t =
    let asked = t ++ get_node ∷ [] in
    let (devices, u) = get_gpus c asked in
    elim (c.node t) [
      | none ↦ (false, asked)
      | some node ↦ elim devices [
        | error _ ↦ (false, u)
        | found l ↦
            let statuses = as_status_annotation extract_slice_profile l in
            let updated = reported_slices statuses node.annotations in
            if unordered_equal statuses (parse_node_annotations node.annotations).0
            then (true, u)
            else (
              c.annotations_patched u updated,
              u ++ patch_annotations node.annotations updated ∷ [],
            )
      ]
    ]
