-- ===== src/Agent/Actuate.antt =====
-- internal/controllers/migagent/actuator.go: Reconcile of the actuator, with the state that it keeps.
use walkai_nos.Base.{
  Bool, false, ◌&&◌, not, Option, none, some, List, [], ◌∷◌, ◌++◌, String, String_eq, if◌then◌else◌,
  Comparable, int_eq,
}
use walkai_nos.GoMap.{get?}
use walkai_nos.Util.{unordered_equal}
use walkai_nos.Geometry.Compare.{MapCompare}
use walkai_nos.Annotation.{SpecAnnotation, StatusAnnotation}
use walkai_nos.Annotation.Format.{parse_node_annotations}
use walkai_nos.Agent.Plan.{MigConfigPlan, is_empty}
use walkai_nos.Agent.Shared.{on_apply_done, at_least_one_report_since_last_apply}
use walkai_nos.Agent.Client.{Calls, Clients, get_node}
use walkai_nos.Partitioner.Plan.{annotation_partitioning_plan}
use walkai_nos.Agent.Actuator.{plan, apply_plan}
use walkai_nos.Agent.Matching.{spec_matches_status}

-- The actuator's fields and the shared state.
pub record Actuator : Type 0 where
  pub last_applied : Option (MigConfigPlan × List StatusAnnotation)
  pub last_parsed_plan_id : String
  pub reports : Bool

-- What Reconcile returns: to be called again after a second, nothing, or an error.
pub data Answer : Type 0 where
  requeue finished failed : Answer

-- `plan_equal` is cmp.Equal on the operations of two plans.
module _ (c : Clients) (cmp : MapCompare String) (plan_equal : MigConfigPlan → MigConfigPlan → Bool)
    ⦃e : Comparable StatusAnnotation⦄ where
  unfoldable pub already_applied :
      MigConfigPlan → List StatusAnnotation → Option (MigConfigPlan × List StatusAnnotation) → Bool
  already_applied p statuses none = false
  already_applied p statuses (some (last, before)) =
      plan_equal p last && unordered_equal statuses before

  -- Reconcile behind the test that the status does not match the spec.
  unfoldable pub reconcile_specs :
      List SpecAnnotation → List StatusAnnotation → Actuator → Calls → (Answer × Actuator) × Calls
  reconcile_specs specs statuses a t =
      let (planned, u) = plan c cmp specs t in
      elim planned [
        | none ↦ ((failed, a), u)
        | some p ↦
            let updated = record a { last_applied = some (p, statuses) } in
            let (applied, v) = apply_plan c p u in
            if is_empty p
            then ((finished, updated), u)
            else if already_applied p statuses a.last_applied
            then ((finished, updated), u)
            else (
              (
                if applied then finished else failed,
                record updated { reports = on_apply_done updated.reports },
              ),
              v,
            )
      ]

  unfoldable pub actuate : Actuator → Calls → (Answer × Actuator) × Calls
  actuate a t =
      let (reported, reports) = at_least_one_report_since_last_apply a.reports in
      let taken = record a { reports = reports } in
      let asked = t ++ get_node ∷ [] in
      if not reported then ((requeue, taken), t) else elim (c.node t) [
        | none ↦ ((failed, taken), asked)
        | some instance_node ↦
            let id : String = elim (get? annotation_partitioning_plan instance_node.annotations) [
              | none ↦ ""
              | some v ↦ v
            ] in
            let parsed = record taken { last_parsed_plan_id = id } in
            let (statuses, specs) = parse_node_annotations instance_node.annotations in
            let later = reconcile_specs specs statuses parsed asked in
            if spec_matches_status cmp specs statuses then ((finished, parsed), asked) else later
      ]
