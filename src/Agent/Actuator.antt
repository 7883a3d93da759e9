-- ===== src/Agent/Actuator.antt =====
-- internal/controllers/migagent/actuator.go: the plan and its application.
pub mod Application
use walkai_nos.Base.{
  Bool, true, false, ◌&&◌, ◌||◌, not, Option, none, some, List, [], ◌∷◌, ◌++◌, ℕ, zero, suc, String,
  String_eq, ℤ, pos, pos_part, if◌then◌else◌, nat_eq, length, Comparable, ◌==◌, int_eq,
}
use walkai_nos.GoMap.{GoMap, get?, put, amount, add_at}
use walkai_nos.GoMap.Groups.{group_by, flatten}
use walkai_nos.Text.{has_prefix}
use walkai_nos.Util.{unordered_equal}
use walkai_nos.Geometry.Compare.{MapCompare}
use walkai_nos.Kube.{KubeNode, Taint}
use walkai_nos.Mig.Profile.{Profile}
use walkai_nos.Device.{Device, is_free, get_mig_profile_name}
use walkai_nos.Annotation.{SpecAnnotation, StatusAnnotation}
use walkai_nos.Annotation.Format.{
  parse_node_annotations, index_with_profile, spec_index_with_profile, status_index_with_profile,
  annotation_gpu_spec_prefix,
}
use walkai_nos.Agent.State.{MigState, new_mig_state}
use walkai_nos.Agent.Plan.{
  CreateOperation, DeleteOperation, MigConfigPlan, is_empty, new_mig_config_plan,
}
use walkai_nos.Agent.Shared.{on_apply_done, at_least_one_report_since_last_apply}
use walkai_nos.Agent.Client.{
  Call, Calls, Clients, ClientError, not_found, generic, found, error, get_mig_devices,
  create_mig_profiles, delete_mig_device, restart_device_plugin, get_node, patch_annotations,
  patch_taints,
}
use walkai_nos.Partitioner.Plan.{annotation_partitioning_plan}
use walkai_nos.Partitioner.Taints.{without_repartitioning_taint, has_repartitioning_taint}
use walkai_nos.Agent.Matching.{flatten_operations, state_matches}

-- Whether the plugin has to be restarted, and whether there was an error.
pub record OperationStatus : Type 0 where
  pub plugin_restart_required : Bool
  pub failed : Bool

unfoldable pub any_used : List Device → Bool
any_used [] = false
any_used (r ∷ rest) = if not (is_free r) then true else any_used rest

unfoldable pub contains_used_resources : List DeleteOperation → Bool
contains_used_resources [] = false
contains_used_resources (o ∷ rest) =
    if any_used o.resources then true else contains_used_resources rest

module _ (c : Clients) where
  -- The loop of applyDeleteOp: what is restarted, failed and deleted of the devices that are left. A
  -- device that is not found asks for a restart, as does one that is deleted.
  unfoldable pub delete_devices : List Device → Calls → (OperationStatus × List Profile) × Calls
  delete_devices [] t = ((record { plugin_restart_required = false; failed = false }, []), t)
  delete_devices (r ∷ rest) t =
      let asked = t ++ delete_mig_device r.device_id ∷ [] in
      let skipped = delete_devices rest t in
      let ((status, profiles), u) = delete_devices rest asked in
      if not (is_free r) then skipped else elim (c.deleted t r.device_id) [
        | some generic ↦ ((record status { failed = true }, profiles), u)
        | some not_found ↦ ((record { plugin_restart_required = true; failed = true }, profiles), u)
        | none ↦ (
          (
            record status { plugin_restart_required = true },
            record { gpu_index = r.gpu_index; name = get_mig_profile_name r } ∷ profiles,
          ),
          u,
        )
      ]

  -- The loop of apply over the delete operations.
  unfoldable pub apply_delete_ops :
      List DeleteOperation → Calls → (OperationStatus × List Profile) × Calls
  apply_delete_ops [] t = ((record { plugin_restart_required = false; failed = false }, []), t)
  apply_delete_ops (o ∷ rest) t =
      let ((status, deleted), u) = delete_devices o.resources t in
      let ((later, more), v) = apply_delete_ops rest u in
      (
        (
          record {
            plugin_restart_required =
                status.plugin_restart_required || later.plugin_restart_required;
            failed = status.failed || later.failed;
          },
          deleted ++ more,
        ),
        v,
      )

  unfoldable pub apply_create_ops : List CreateOperation → Calls → OperationStatus × Calls
  apply_create_ops ops t =
      let ((created, failed), u) = create_mig_profiles c (flatten_operations ops) t in
      (
        record {
          plugin_restart_required = if failed then not (nat_eq (length created) 0) else true;
          failed = failed;
        },
        u,
      )

  unfoldable pub rollback_deleted_resources : List Profile → Calls → Calls
  rollback_deleted_resources [] t = t
  rollback_deleted_resources (p ∷ profiles) t = (create_mig_profiles c (p ∷ profiles) t).1

  unfoldable pub clear_repartitioning_taint : Calls → Calls
  clear_repartitioning_taint t =
      let asked = t ++ get_node ∷ [] in
      elim (c.node t) [
        | none ↦ asked
        | some node ↦
            if has_repartitioning_taint node.taints
            then asked ++ patch_taints (without_repartitioning_taint node.taints) ∷ []
            else asked
      ]

  unfoldable pub without_plan : GoMap String String → GoMap String String
  without_plan [] = []
  without_plan ((k, v) ∷ rest) =
      if has_prefix k annotation_gpu_spec_prefix || (k == annotation_partitioning_plan)
      then without_plan rest
      else (k, v) ∷ without_plan rest

  -- Whether there was no error.
  unfoldable pub reset_node_spec : Calls → Bool × Calls
  reset_node_spec t =
      let asked = t ++ get_node ∷ [] in
      elim (c.node t) [
        | none ↦ (false, asked)
        | some node ↦
            let updated = without_plan node.annotations in
            (
              c.annotations_patched asked updated,
              asked ++ patch_annotations node.annotations updated ∷ [],
            )
      ]

  -- restartNvidiaDevicePlugin waits for the plugin to come back, which is the client's.
  abbrev pub restart_nvidia_device_plugin : Calls → Bool × Calls
  restart_nvidia_device_plugin t = (c.restarted t, t ++ restart_device_plugin ∷ [])

  -- The end of apply: the restart, and the taint where something failed.
  unfoldable pub finish_apply : OperationStatus → Calls → Bool × Calls
  finish_apply status t =
      let (restarted, u) = restart_nvidia_device_plugin t in
      if status.plugin_restart_required
      then (if not restarted
          then (false, clear_repartitioning_taint u)
          else if status.failed
          then (false, clear_repartitioning_taint u)
          else (true, u))
      else if status.failed
      then (false, clear_repartitioning_taint t)
      else (true, t)

  unfoldable pub apply_plan : MigConfigPlan → Calls → Bool × Calls
  apply_plan plan t =
      let ((deletes, deleted), u) = apply_delete_ops plan.delete_operations t in
      let (creates, v) = apply_create_ops plan.create_operations u in
      let w = if creates.failed then rollback_deleted_resources deleted v else v in
      if contains_used_resources plan.delete_operations
      then reset_node_spec t
      else finish_apply
          (record {
            plugin_restart_required =
                deletes.plugin_restart_required || creates.plugin_restart_required;
            failed = deletes.failed || creates.failed;
          })
          w

  -- The plan, `none` for an error. Devices that are not found ask for a restart of the plugin.
  unfoldable pub plan :
      MapCompare String → List SpecAnnotation → Calls → Option MigConfigPlan × Calls
  plan cmp specs t =
      let nothing : MigConfigPlan = record { delete_operations = []; create_operations = [] } in
      let (devices, u) = get_mig_devices c t in
      let (restarted, v) = restart_nvidia_device_plugin u in
      elim devices [
        | error generic ↦ (none, u)
        | error not_found ↦ (if restarted then some nothing else none, v)
        | found l ↦
            let state = new_mig_state l in
            (
              some (
                  if state_matches cmp state specs
                  then nothing
                  else new_mig_config_plan state specs),
              u,
            )
      ]
