-- ===== src/Agent/Reporter.antt =====
-- internal/controllers/migagent/reporter.go: the agent writes the devices that there are to the
-- annotations of its node.
use walkai_nos.Base.{
  Bool, true, false, ◌&&◌, none, some, List, [], ◌∷◌, ◌++◌, String, String_eq, if◌then◌else◌,
  Comparable, ◌==◌,
}
use walkai_nos.GoMap.{GoMap, get?, put}
use walkai_nos.Util.{unordered_equal}
use walkai_nos.Mig.Profile.{extract_profile_name}
use walkai_nos.Annotation.{StatusAnnotation}
use walkai_nos.Annotation.Format.{annotation_gpu_status_prefix, parse_node_annotations}
use walkai_nos.Annotation.Report.{as_status_annotation}
use walkai_nos.Annotation.Write.{delete_with_prefix, write_statuses}
use walkai_nos.Agent.Shared.{on_report_done}
use walkai_nos.Agent.Client.{
  Calls, Clients, found, error, get_mig_devices, get_node, patch_annotations,
}
use walkai_nos.Agent.Actuate.{Actuator}

abbrev pub annotation_reported_partitioning_plan : String
annotation_reported_partitioning_plan = "nos.nebuly.com/status-partitioning-plan"

unfoldable pub reported_annotations :
    List StatusAnnotation → String → GoMap String String → GoMap String String
reported_annotations statuses plan_id annotations =
    put annotation_reported_partitioning_plan plan_id
      (write_statuses statuses (delete_with_prefix annotation_gpu_status_prefix annotations))

module _ (c : Clients) ⦃e : Comparable StatusAnnotation⦄ where
  -- The node reports these devices and this plan.
  unfoldable pub is_reported : List StatusAnnotation → String → GoMap String String → Bool
  is_reported statuses plan_id annotations =
      let reported : String = elim (get? annotation_reported_partitioning_plan annotations) [
        | none ↦ ""
        | some v ↦ v
      ] in
      unordered_equal statuses (parse_node_annotations annotations).0 && (reported == plan_id)

  -- Reconcile of the reporter: whether there was no error. The report counts as done in any case.
  unfoldable pub report : String → Calls → Bool × Calls
  report plan_id t =
      let asked = t ++ get_node ∷ [] in
      let (devices, u) = get_mig_devices c asked in
      elim (c.node t) [
        | none ↦ (false, asked)
        | some node ↦ elim devices [
          | error _ ↦ (false, u)
          | found l ↦
              let statuses = as_status_annotation extract_profile_name l in
              let updated = reported_annotations statuses plan_id node.annotations in
              if is_reported statuses plan_id node.annotations then (true, u) else (
                c.annotations_patched u updated,
                u ++ patch_annotations node.annotations updated ∷ [],
              )
        ]
      ]

  -- The token is put on every path.
  abbrev pub report_with : Actuator → Calls → (Bool × Actuator) × Calls
  report_with a t =
      let (done, u) = report a.last_parsed_plan_id t in
      ((done, record a { reports = on_report_done a.reports }), u)
