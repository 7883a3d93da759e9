-- ===== src/Partitioner/Nodes.antt =====
-- internal/controllers/gpupartitioner/node_controller.go: a node that is partitioned for the first time.
pub mod Once
use walkai_nos.Base.{
  Bool, true, false, Option, none, some, List, [], ◌∷◌, ◌++◌, String, String_eq, ℤ, pos, eq_ℤ,
  int_eq, length, if◌then◌else◌,
}
use walkai_nos.GoMap.{GoMap}
use walkai_nos.Geometry.{Geometry, Slice, Slice_eq}
use walkai_nos.Geometry.Compare.{MapCompare}
use walkai_nos.Kube.{KubeNode}
use walkai_nos.Annotation.{group_spec_by_gpu_index}
use walkai_nos.Annotation.Format.{parse_node_annotations}
use walkai_nos.Mig.Gpu.{Model}
use walkai_nos.Mig.Configs.{is_mig_partitioning_enabled}
use walkai_nos.Mig.Node.Build.{get_model, get_count}
use walkai_nos.Partitioner.Api.{Api, Requests, Outcome, get_node}
use walkai_nos.Partitioner.Plan.{init_node_partitioning}

unfoldable pub is_node_initialized : KubeNode → Bool
unfolding get_count parse_node_annotations group_spec_by_gpu_index
is_node_initialized node = elim (get_count node) [
  | none ↦ false
  | some count ↦
      eq_ℤ count
        (pos (length (group_spec_by_gpu_index (parse_node_annotations node.annotations).1)))
]

module _ (cmp : MapCompare Slice) (known : GoMap Model (List Geometry)) (api : Api) where
  -- Reconcile behind the call that reads the node.
  unfoldable pub reconcile_node : KubeNode → Requests → Outcome Unit
  unfolding is_node_initialized is_mig_partitioning_enabled init_node_partitioning get_count
  reconcile_node node t =
      if is_mig_partitioning_enabled node
      then if is_node_initialized node then (some tt, t) else elim (get_model node) [
        | none ↦ (some tt, t)
        | some _ ↦ elim (get_count node) [
          | none ↦ (some tt, t)
          | some _ ↦ init_node_partitioning cmp known api node t
        ]
      ]
      else (some tt, t)

  -- `not_found`: an error of the call is that there is no such node.
  unfoldable pub node_controller_reconcile :
      (Requests → String → Bool) → String → Requests → Outcome Unit
  unfolding reconcile_node
  node_controller_reconcile not_found name t =
      let asked = t ++ get_node name ∷ [] in
      elim (api.node t name) [
        | none ↦ (if not_found t name then some tt else none, asked)
        | some node ↦ reconcile_node node asked
      ]
