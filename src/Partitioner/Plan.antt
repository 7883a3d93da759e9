-- ===== src/Partitioner/Plan.antt =====
-- internal/partitioning/state/partitioning.go, internal/partitioning/mig/state.go, partitioner.go and
-- initializer.go: the partitioning of a node and how it is written to the node's annotations.
pub mod Written
use walkai_nos.Base.{
  Bool, true, false, ◌&&◌, Option, none, some, List, [], ◌∷◌, ◌++◌, ℕ, ◌+◌, String, String_eq, ℤ,
  pos, le_ℤ, nat_eq, length, if◌then◌else◌, Comparable,
}
use walkai_nos.GoMap.{GoMap, get?, put}
use walkai_nos.Geometry.{Geometry, Slice, Slice_eq, as_mig}
use walkai_nos.Geometry.Compare.{MapCompare}
use walkai_nos.Util.{unordered_equal}
use walkai_nos.Kube.{KubeNode}
use walkai_nos.Annotation.{SpecAnnotation}
use walkai_nos.Annotation.Format.{annotation_gpu_spec_prefix}
use walkai_nos.Annotation.Write.{delete_with_prefix, write_specs}
use walkai_nos.Mig.Profile.{ResourceName, as_resource_name, extract_profile_name}
use walkai_nos.Mig.Gpu.{Model, Gpu, Result, ok, err, get_geometry, init_geometry}
use walkai_nos.Mig.Node.{Node}
use walkai_nos.Mig.Node.Build.{new_node}
use walkai_nos.Mig.Configs.{is_mig_partitioning_enabled}
use walkai_nos.Partitioner.Api.{Api, Requests, Outcome, patch_annotations}

pub record GpuPartitioning : Type 0 where
  pub gpu_index : ℤ
  pub resources : GoMap ResourceName ℤ

-- NodePartitioning is the list of its GPUs.
abbrev pub NodePartitioning : Type 0
NodePartitioning = List GpuPartitioning

abbrev pub PartitioningState : Type 0
PartitioningState = GoMap String NodePartitioning

abbrev pub is_empty : PartitioningState → Bool
is_empty p = nat_eq (length p) 0

-- Two partitionings of a GPU are compared by reflect.DeepEqual, which the instance stands for.
module _ ⦃e : Comparable GpuPartitioning⦄ where
  unfoldable pub equal_partitioning : NodePartitioning → NodePartitioning → Bool
  equal_partitioning n other =
      if nat_eq (length n) (length other) then unordered_equal n other else false

  -- other[node] of a missing node is the partitioning without GPUs.
  unfoldable pub agrees : PartitioningState → PartitioningState → Bool
  agrees [] other = true
  agrees ((node, partitioning) ∷ rest) other =
      equal_partitioning partitioning (elim (get? node other) [ none ↦ [] | some p ↦ p ])
      && agrees rest other

  unfoldable pub equal_state : PartitioningState → PartitioningState → Bool
  equal_state p other = if nat_eq (length p) (length other) then agrees p other else false

-- The slices that are no MIG profile, and those with no device, are left out.
unfoldable pub resources_of : Geometry → GoMap ResourceName ℤ → GoMap ResourceName ℤ
resources_of [] resources = resources
resources_of ((slice, quantity) ∷ rest) resources = resources_of rest (elim (as_mig slice) [
  | none ↦ resources
  | some profile ↦
      if le_ℤ quantity (pos 0) then resources else put (as_resource_name profile) quantity resources
])

unfoldable pub build_node_partitioning : List Gpu → NodePartitioning
build_node_partitioning [] = []
build_node_partitioning (g ∷ rest) =
    record { gpu_index = g.index; resources = resources_of (get_geometry g) [] }
    ∷ build_node_partitioning rest

-- The annotations of one GPU, of the error of the first resource without a profile.
unfoldable pub annotations_of : ℤ → GoMap ResourceName ℤ → Option (List SpecAnnotation)
annotations_of index [] = some []
annotations_of index ((r, q) ∷ rest) =
    let later = annotations_of index rest in
    elim (extract_profile_name r) [
      | none ↦ none
      | some profile ↦ elim later [
        | none ↦ none
        | some l ↦ some (record { profile_name = profile; index = index; quantity = q } ∷ l)
      ]
    ]

unfoldable pub get_gpu_spec_annotation_list : NodePartitioning → Option (List SpecAnnotation)
get_gpu_spec_annotation_list [] = some []
get_gpu_spec_annotation_list (g ∷ rest) =
    let later = get_gpu_spec_annotation_list rest in
    elim (annotations_of g.gpu_index g.resources) [
      | none ↦ none
      | some l ↦ elim later [ none ↦ none | some more ↦ some (l ++ more) ]
    ]

abbrev pub annotation_partitioning_plan : String
annotation_partitioning_plan = "nos.nebuly.com/spec-partitioning-plan"

-- The annotations that ApplyPartitioning sends.
abbrev pub planned_annotations :
    List SpecAnnotation → String → GoMap String String → GoMap String String
planned_annotations specs plan_id annotations =
    put annotation_partitioning_plan plan_id
      (write_specs specs (delete_with_prefix annotation_gpu_spec_prefix annotations))

-- The Go code also changes the map of the caller's node, also when the patch fails. What it changes
-- there are the plan's annotations, which the caller does not read again.
unfoldable pub apply_partitioning :
    Api → KubeNode → String → NodePartitioning → Requests → Outcome Unit
apply_partitioning api node plan_id partitioning t =
    elim (get_gpu_spec_annotation_list partitioning) [
      | none ↦ (none, t)
      | some specs ↦
          let updated = planned_annotations specs plan_id node.annotations in
          (
            if api.annotations_patched t node.name updated then some tt else none,
            t ++ patch_annotations node.name node.annotations updated ∷ [],
          )
    ]

-- The loop of InitNodePartitioning: the GPUs and the number that is initialized, or the error.
abbrev pub initialized : Result Gpu → Option (List Gpu × ℕ) → Option (List Gpu × ℕ)
initialized (ok g) (some (gpus, n)) = some (g ∷ gpus, n + 1)
initialized _ _ = none

module _ (cmp : MapCompare Slice) where
  unfoldable pub init_gpus : List Gpu → Option (List Gpu × ℕ)
  init_gpus [] = some ([], 0)
  init_gpus (g ∷ rest) =
      let later = init_gpus rest in
      if nat_eq (length (get_geometry g)) 0
      then initialized (init_geometry cmp g) later
      else elim later [ none ↦ none | some (gpus, n) ↦ some (g ∷ gpus, n) ]

  unfoldable pub init_node_partitioning :
      GoMap Model (List Geometry) → Api → KubeNode → Requests → Outcome Unit
  init_node_partitioning known api node t =
      if is_mig_partitioning_enabled node
      then elim (new_node known node) [
        | none ↦ (none, t)
        | some n ↦ elim (init_gpus n.gpus) [
          | none ↦ (none, t)
          | some (gpus, count) ↦
              if nat_eq count 0
              then (some tt, t)
              else apply_partitioning api node (api.plan_id t) (build_node_partitioning gpus) t
        ]
      ]
      else (none, t)
