-- ===== src/Nvml/Deletion.antt =====
-- DeleteMigDevice and DeleteAllMigDevicesExcept.
pub mod Kept
use walkai_nos.Base.{
  Bool, true, false, Option, none, some, List, [], ◌∷◌, ◌++◌, ℕ, ◌+◌, nat_eq, String, ℤ,
  if◌then◌else◌,
}
use walkai_nos.Agent.Client.{ClientError, not_found, generic}
use walkai_nos.Agent.State.{in_slice}
use walkai_nos.Nvml.{
  Code, code_not_found, code_not_supported, code_invalid_argument, code_other, Answer, success,
  failed, DeviceHandle, GpuInstance, ComputeInstance, NvmlCall, init, shutdown, destroyed_gi,
  destroyed_ci, failed_to_destroy, Log, Driver,
}
use walkai_nos.Nvml.Visit.{Visitor, each, visit_compute_instances, visit_gpu_instances}

abbrev pub not_found_or_generic : Code → ClientError
not_found_or_generic code_not_found = not_found
not_found_or_generic code_not_supported = generic
not_found_or_generic code_invalid_argument = generic
not_found_or_generic code_other = generic

module _ (d : Driver) where
  -- Destroy, with its entry of the log.
  unfoldable pub destroy_ci_logged : ComputeInstance → Log → Option Code × Log
  destroy_ci_logged ci t = elim (d.destroy_ci t ci) [
    | none ↦ (none, t ++ destroyed_ci ci ∷ [])
    | some code ↦ (some code, t ++ failed_to_destroy ∷ [])
  ]

  unfoldable pub destroy_gi_logged : GpuInstance → Log → Option Code × Log
  destroy_gi_logged gi t = elim (d.destroy_gi t gi) [
    | none ↦ (none, t ++ destroyed_gi gi ∷ [])
    | some code ↦ (some code, t ++ failed_to_destroy ∷ [])
  ]

  -- The visitor of DeleteMigDevice, with the number of visits.
  unfoldable pub delete_visited : Visitor ComputeInstance ℕ
  unfolding destroy_ci_logged
  delete_visited ci visited t =
      let (code, u) = destroy_ci_logged ci t in
      elim code [ none ↦ ((true, visited + 1), u) | some _ ↦ ((false, visited + 1), u) ]

  -- Behind the search for the GPU instance. The result is the error, if there is one.
  unfoldable pub delete_instances : GpuInstance → Log → Option ClientError × Log
  unfolding visit_compute_instances delete_visited destroy_gi_logged
  delete_instances gi t =
      let ((done, visited), u) = visit_compute_instances d gi delete_visited 0 t in
      let (code, v) = destroy_gi_logged gi u in
      if done
      then (if nat_eq visited 0
          then (some generic, u)
          else (elim code [ none ↦ none | some _ ↦ some generic ], v))
      else (some generic, u)

  unfoldable pub delete_device : DeviceHandle → Log → Option ClientError × Log
  unfolding delete_instances
  delete_device device t = elim (d.is_mig_device_handle t device) [
    | failed _ ↦ (some generic, t)
    | success false ↦ (some generic, t)
    | success true ↦ elim (d.gpu_instance_id t device) [
      | failed _ ↦ (some generic, t)
      | success id ↦ elim (d.parent t device) [
        | failed _ ↦ (some generic, t)
        | success gpu ↦ elim (d.gpu_instance_by_id t gpu id) [
          | failed code ↦ (some (not_found_or_generic code), t)
          | success gi ↦ delete_instances gi t
        ]
      ]
    ]
  ]

  unfoldable pub delete_mig_device : String → Log → Option ClientError × Log
  unfolding delete_device
  delete_mig_device id t =
      let ready = t ++ init true ∷ [] in
      let (result, u) : Option ClientError × Log = elim (d.handle_by_uuid ready id) [
        | failed code ↦ (some (not_found_or_generic code), ready)
        | success device ↦ delete_device device ready
      ] in
      if d.initialized t then (result, u ++ shutdown ∷ []) else (some generic, t ++ init false ∷ [])

  -- An invalid argument is no error of Destroy here.
  abbrev pub tolerated : Option Code → Bool
  tolerated none = true
  tolerated (some code_invalid_argument) = true
  tolerated (some code_not_found) = false
  tolerated (some code_not_supported) = false
  tolerated (some code_other) = false

  abbrev pub known_uuid : Log → Answer DeviceHandle → Option String
  known_uuid t (failed _) = none
  known_uuid t (success device) = elim (d.uuid t device) [ failed _ ↦ none | success id ↦ some id ]

  -- The visitors of DeleteAllMigDevicesExcept.
  unfoldable pub delete_ci_except : List String → Visitor ComputeInstance Unit
  unfolding destroy_ci_logged in_slice
  delete_ci_except ids ci x t = elim (known_uuid t (d.ci_device t ci)) [
    | none ↦ ((false, x), t)
    | some id ↦
        let (code, u) = destroy_ci_logged ci t in
        if in_slice id ids then ((true, x), t) else ((tolerated code, x), u)
  ]

  unfoldable pub delete_gi_except : List String → Visitor GpuInstance Unit
  unfolding visit_compute_instances delete_ci_except destroy_gi_logged in_slice
  delete_gi_except ids gi x t = elim (known_uuid t (d.gi_device t gi)) [
    | none ↦ ((false, x), t)
    | some id ↦
        let ((done, y), u) = visit_compute_instances d gi (delete_ci_except ids) x t in
        let (code, v) = destroy_gi_logged gi u in
        if in_slice id ids
        then ((true, x), t)
        else if done
        then ((tolerated code, y), v)
        else ((false, y), u)
  ]

  unfoldable pub delete_device_except : List String → Visitor (Option (ℤ × DeviceHandle)) Unit
  unfolding visit_gpu_instances delete_gi_except
  delete_device_except ids none x t = ((false, x), t)
  delete_device_except ids (some (i, device)) x t = elim (d.is_mig_enabled t device) [
    | none ↦ ((false, x), t)
    | some false ↦ ((true, x), t)
    | some true ↦ visit_gpu_instances d device (delete_gi_except ids) x t
  ]

  -- Whether there is no error.
  unfoldable pub delete_all_mig_devices_except : List String → Log → Bool × Log
  unfolding each delete_device_except
  delete_all_mig_devices_except ids t =
      let ready = t ++ init true ∷ [] in
      let ((done, _), u) = each (delete_device_except ids) (d.devices ready) tt ready in
      if d.initialized t then (done, u ++ shutdown ∷ []) else (false, t ++ init false ∷ [])
