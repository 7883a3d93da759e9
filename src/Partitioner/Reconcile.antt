-- ===== src/Partitioner/Reconcile.antt =====
-- mig_controller.go: Reconcile and the functions that it calls in turn.
pub mod Safety
pub mod Reconciled
use walkai_nos.Base.{
  Bool, true, false, Option, none, some, List, [], ◌∷◌, ◌++◌, String_eq, ℤ, nat_eq, length,
  if◌then◌else◌,
}
use walkai_nos.GoMap.{GoMap}
use walkai_nos.Geometry.{Slice, Slice_eq, Geometry}
use walkai_nos.Geometry.Compare.{MapCompare}
use walkai_nos.Kube.{KubeNode, Pod}
use walkai_nos.Pods.{Quota, get_requested_profiles}
use walkai_nos.Mig.Gpu.{Model}
use walkai_nos.Mig.Node.Build.{new_node}
use walkai_nos.Partitioner.Api.{Api, Requests, Outcome, list_nodes, list_pods}
use walkai_nos.Partitioner.Plan.{build_node_partitioning, apply_partitioning}
use walkai_nos.Partitioner.Order.{sort_pods_by_priority_and_age}
use walkai_nos.Partitioner.Capacity.{
  Requested, should_consider_pod, profile_already_present, repartitioned,
  build_requested_profiles_plan,
}
use walkai_nos.Partitioner.Taints.{cleanup_repartitioning_taints}
use walkai_nos.Partitioner.Preemption.{try_preemption}

module _ (quota : Quota) (known : GoMap Model (List Geometry)) (cmp : MapCompare Slice)
    (api : Api) where
  -- The loop of listPendingMigPods
  unfoldable pub pending_mig_pods : List Pod → List Pod
  pending_mig_pods [] = []
  pending_mig_pods (p ∷ rest) =
      if should_consider_pod p
      then (if nat_eq (length (get_requested_profiles quota p)) 0
          then pending_mig_pods rest
          else p ∷ pending_mig_pods rest)
      else pending_mig_pods rest

  -- Whether the node is patched; `none` is an error.
  unfoldable pub update_node_geometry : KubeNode → Requested → Requests → Outcome Bool
  update_node_geometry node requested t = elim (new_node known node) [
    | none ↦ (none, t)
    | some n ↦ elim (repartitioned known cmp n requested) [
      | none ↦ (some false, t)
      | some updated ↦
          let (applied, u) =
            apply_partitioning api node (api.plan_id t) (build_node_partitioning updated.gpus) t in
          (elim applied [ none ↦ none | some _ ↦ some true ], u)
    ]
  ]

  abbrev pub updated? : Option Bool → Bool
  updated? none = false
  updated? (some b) = b

  -- An error at a node is logged, and the next node tried.
  unfoldable pub try_repartition : List KubeNode → Requested → Requests → Bool × Requests
  try_repartition [] requested t = (false, t)
  try_repartition (node ∷ rest) requested t =
      let (updated, u) = update_node_geometry node requested t in
      let later = try_repartition rest requested u in if updated? updated then (true, u) else later

  unfoldable pub try_plan_without_preemption : List KubeNode → List Pod → Requests → Outcome Bool
  try_plan_without_preemption nodes pods t =
      let requested = build_requested_profiles_plan known cmp quota nodes pods in
      let (cleaned, u) = cleanup_repartitioning_taints api nodes t in
      let (planned, v) = try_repartition nodes requested t in
      if nat_eq (length requested) 0
      then (some false, t)
      else if profile_already_present known nodes requested
      then (elim cleaned [ none ↦ none | some _ ↦ some false ], u)
      else (some planned, v)

  -- The part of Reconcile behind the two lists.
  unfoldable pub reconcile_pods : Bool → List KubeNode → List Pod → Requests → Outcome Unit
  reconcile_pods preemption nodes [] t = cleanup_repartitioning_taints api nodes t
  reconcile_pods preemption nodes (p ∷ rest) t =
      let (planned, u) = try_plan_without_preemption nodes (p ∷ rest) t in
      elim planned [
        | none ↦ (none, u)
        | some done ↦
            if done
            then (some tt, u)
            else if preemption
            then (some tt, (try_preemption quota known cmp api nodes (p ∷ rest) u).1)
            else (some tt, u)
      ]

  -- The result is always to be called again after the interval.
  unfoldable pub reconcile : Bool → Requests → Outcome Unit
  reconcile preemption t =
      let u = t ++ list_nodes ∷ [] in
      let v = u ++ list_pods ∷ [] in
      elim (api.mig_nodes t) [
        | none ↦ (none, u)
        | some [] ↦ (some tt, u)
        | some (n ∷ nodes) ↦ elim (api.pods u) [
          | none ↦ (none, v)
          | some pods ↦
              reconcile_pods preemption (n ∷ nodes)
                (sort_pods_by_priority_and_age (pending_mig_pods pods)) v
        ]
      ]
