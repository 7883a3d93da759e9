-- ===== src/Slicing/Node.antt =====
-- pkg/gpu/slicing/node.go and GetMemoryGB of pkg/gpu/util.go: the GPUs of a node whose memory is sliced.
-- The Go loops range over copies of the GPUs, which share the maps, so that what an operation does to a
-- copy stays in the node. Of the scheduler's node info only the scalar resources are modelled.
pub mod Memory
pub mod Update
use walkai_nos.Base.{
  Bool, true, false, ◌||◌, not, Option, none, some, List, [], ◌∷◌, ◌++◌, ℕ, zero, suc, ◌+◌, ◌/◌,
  String, String_eq, ℤ, pos, negsuc, pos_part, sub_ℕ, ◌-ℤ◌, le_ℤ, int_eq, if◌then◌else◌, nat_eq,
  length,
}
use walkai_nos.GoMap.{GoMap, get?, put, delete, amount, sub_at}
use walkai_nos.Text.Decimal.{atoi}
use walkai_nos.Geometry.{ProfileName, Geometry, Slice, mig_profile, slicing_profile, Slice_eq}
use walkai_nos.Kube.{KubeNode}
use walkai_nos.Annotation.{StatusAnnotation, group_status_by_gpu_index}
use walkai_nos.Annotation.Format.{parse_node_annotations}
use walkai_nos.Mig.Profile.{ResourceName}
use walkai_nos.Mig.Gpu.{Model}
use walkai_nos.Mig.Node.{add_geometry}
use walkai_nos.Mig.Node.Build.{get_model, get_count, used_devices, free_devices}
use walkai_nos.Slicing.Profile.{is_gpu_slice, slice_resource_name}
use walkai_nos.Slicing.Gpu.{
  SlicingGpu, new_slicing_gpu, new_full_gpu, slicing_geometry, slicing_has_free_capacity,
  add_slicing_pod, update_slices_for,
}

abbrev pub label_nvidia_memory : String
label_nvidia_memory = "nvidia.com/gpu.memory"

-- math.Ceil(float64(n) / 1000), for numbers that a float64 holds exactly.
abbrev pub ceil_thousandth : ℤ → ℤ
ceil_thousandth (pos n) = pos ((n + 999) / 1000)
ceil_thousandth (negsuc n) = sub_ℕ 0 (suc n / 1000)

-- `none` is an error, here and below.
unfoldable pub get_memory_gb : KubeNode → Option ℤ
unfolding atoi
get_memory_gb node = elim (get? label_nvidia_memory node.labels) [
  | none ↦ none
  | some text ↦ elim (atoi text) [ none ↦ none | some n ↦ some (ceil_thousandth n) ]
]

pub record SlicingNode : Type 0 where
  pub name : String
  pub scalar_resources : GoMap ResourceName ℤ
  pub gpus : List SlicingGpu

-- The GPUs that the annotations name.
unfoldable pub annotated_slicing_gpus :
    Model → ℤ → GoMap ℤ (List StatusAnnotation) → Option (List SlicingGpu)
unfolding new_slicing_gpu used_devices free_devices
annotated_slicing_gpus model memory [] = some []
annotated_slicing_gpus model memory ((index, annotations) ∷ rest) =
    let later = annotated_slicing_gpus model memory rest in
    elim (new_slicing_gpu model index memory (used_devices annotations [])
      (free_devices annotations [])) [
        | none ↦ none
        | some g ↦ elim later [ none ↦ none | some gpus ↦ some (g ∷ gpus) ]
      ]

-- The loop from the number of these GPUs to the number of GPUs: the index, and the rounds left.
unfoldable pub missing_slicing_gpus : Model → ℤ → ℕ → ℕ → List SlicingGpu
missing_slicing_gpus model memory i zero = []
missing_slicing_gpus model memory i (suc rounds) =
    new_full_gpu model (pos i) memory ∷ missing_slicing_gpus model memory (i + 1) rounds

unfoldable pub extract_slicing_gpus : KubeNode → Option (List SlicingGpu)
unfolding annotated_slicing_gpus missing_slicing_gpus get_memory_gb get_count parse_node_annotations
    group_status_by_gpu_index
extract_slicing_gpus node =
    let groups = group_status_by_gpu_index (parse_node_annotations node.annotations).0 in
    elim (get_model node) [
      | none ↦ none
      | some model ↦ elim (get_count node) [
        | none ↦ none
        | some count ↦ elim (get_memory_gb node) [
          | none ↦ none
          | some memory ↦ elim (annotated_slicing_gpus model memory groups) [
            | none ↦ none
            | some named ↦ some (
                named
                ++ missing_slicing_gpus model memory (length named)
                    (pos_part (count -ℤ pos (length named))))
          ]
        ]
      ]
    ]

unfoldable pub new_slicing_node : KubeNode → Option SlicingNode
unfolding extract_slicing_gpus
new_slicing_node node = elim (extract_slicing_gpus node) [
  | none ↦ none
  | some gpus ↦
      some (record { name = node.name; scalar_resources = node.scalar_resources; gpus = gpus })
]

unfoldable pub sum_slices : List SlicingGpu → Geometry → Geometry
unfolding add_geometry
sum_slices [] res = res
sum_slices (g ∷ rest) res = sum_slices rest (add_geometry (slicing_geometry g) res)

abbrev pub slicing_node_geometry : SlicingNode → Geometry
slicing_node_geometry n = sum_slices n.gpus []

-- The entries that are no slicing resource.
unfoldable pub without_slices : GoMap ResourceName ℤ → GoMap ResourceName ℤ
unfolding is_gpu_slice
without_slices [] = []
without_slices ((r, v) ∷ rest) =
    let later = without_slices rest in if not (is_gpu_slice r) then (r, v) ∷ later else later

-- The geometry of a sliced GPU has slicing profiles only, which the Go code asserts of its keys.
unfoldable pub put_slices : Geometry → GoMap ResourceName ℤ → GoMap ResourceName ℤ
unfolding slice_resource_name
put_slices [] res = res
put_slices ((slicing_profile p, v) ∷ rest) res = put_slices rest (put (slice_resource_name p) v res)
put_slices ((mig_profile p, v) ∷ rest) res = put_slices rest res

abbrev pub compute_slicing_resources : SlicingNode → GoMap ResourceName ℤ
compute_slicing_resources n =
    put_slices (slicing_node_geometry n) (without_slices n.scalar_resources)

-- What is still required when the free slices of a GPU are taken off.
unfoldable pub less_slices : GoMap ProfileName ℤ → GoMap ProfileName ℤ → GoMap ProfileName ℤ
less_slices [] required = required
less_slices ((p, q) ∷ rest) required =
    let less = sub_at p q required in
    less_slices rest (if le_ℤ (amount p less) (pos 0) then delete p less else less)

unfoldable pub update_slicing_gpus : GoMap ProfileName ℤ → List SlicingGpu → List SlicingGpu × Bool
unfolding update_slices_for less_slices
update_slicing_gpus required [] = ([], false)
update_slicing_gpus required (g ∷ rest) =
    let (updated, changed) = update_slices_for required g in
    let (others, any) = update_slicing_gpus (less_slices updated.free_profiles required) rest in
    (updated ∷ others, changed || any)

unfoldable pub slicing_node_update_geometry_for :
    SlicingNode → GoMap ProfileName ℤ → SlicingNode × Bool
unfolding update_slicing_gpus
slicing_node_update_geometry_for n slices =
    let (gpus, changed) = update_slicing_gpus slices n.gpus in
    let updated = record n { gpus = gpus } in
    if nat_eq (length n.gpus) 0
    then (n, false)
    else if nat_eq (length slices) 0
    then (n, false)
    else (record updated { scalar_resources = compute_slicing_resources updated }, changed)

-- AddPod, on the GPUs: the first GPU that takes all slices of the pod. What another GPU moved before its
-- error stays moved.
unfoldable pub add_slicing_pod_to_first :
    GoMap ProfileName ℤ → List SlicingGpu → List SlicingGpu × Bool
unfolding add_slicing_pod
add_slicing_pod_to_first requested [] = ([], false)
add_slicing_pod_to_first requested (g ∷ rest) =
    let (moved, taken) = add_slicing_pod requested g in
    let (others, done) = add_slicing_pod_to_first requested rest in
    if taken then (moved ∷ rest, true) else (moved ∷ others, done)

unfoldable pub any_slicing_capacity : List SlicingGpu → Bool
unfolding slicing_has_free_capacity
any_slicing_capacity [] = false
any_slicing_capacity (g ∷ rest) =
    if slicing_has_free_capacity g then true else any_slicing_capacity rest
