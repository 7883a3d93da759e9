-- ===== src/Mig/Node/Build.antt =====
-- NewNode and extractGPUs of pkg/gpu/mig/node.go, GetModel and GetCount of pkg/gpu/util.go: the GPUs of
-- a node are read from its labels and its status annotations.
use walkai_nos.Base.{
  Option, none, some, List, [], ◌∷◌, ◌++◌, ℕ, zero, suc, ◌+◌, String, String_eq, ℤ, pos, pos_part,
  ◌-ℤ◌, int_eq, if◌then◌else◌, length,
}
use walkai_nos.GoMap.{GoMap, get?, put}
use walkai_nos.Text.Decimal.{atoi}
use walkai_nos.Geometry.{Geometry, ProfileName}
use walkai_nos.Kube.{KubeNode}
use walkai_nos.Annotation.{StatusAnnotation, is_used, is_free, group_status_by_gpu_index}
use walkai_nos.Annotation.Format.{parse_node_annotations}
use walkai_nos.Mig.Gpu.{Model, Gpu, Result, ok, err, new_gpu}
use walkai_nos.Mig.Node.{Node}

abbrev pub label_nvidia_product : String
label_nvidia_product = "nvidia.com/gpu.product"

abbrev pub label_nvidia_count : String
label_nvidia_count = "nvidia.com/gpu.count"

-- `none` is an error, here and below.
abbrev pub get_model : KubeNode → Option Model
get_model node = get? label_nvidia_product node.labels

unfoldable pub get_count : KubeNode → Option ℤ
unfolding atoi
get_count node = elim (get? label_nvidia_count node.labels) [ none ↦ none | some val ↦ atoi val ]

-- The two maps of one GPU.
unfoldable pub used_devices : List StatusAnnotation → GoMap ProfileName ℤ → GoMap ProfileName ℤ
used_devices [] used = used
used_devices (a ∷ rest) used =
    used_devices rest (if is_used a then put a.profile_name a.quantity used else used)

unfoldable pub free_devices : List StatusAnnotation → GoMap ProfileName ℤ → GoMap ProfileName ℤ
free_devices [] free = free
free_devices (a ∷ rest) free =
    free_devices rest (if is_free a then put a.profile_name a.quantity free else free)

abbrev pub and_then : Result Gpu → Option (List Gpu) → Option (List Gpu)
and_then (err e) rest = none
and_then (ok g) none = none
and_then (ok g) (some gpus) = some (g ∷ gpus)

abbrev pub with_gpus : KubeNode → Option (List Gpu) → Option Node
with_gpus node none = none
with_gpus node (some gpus) =
    some (record { name = node.name; scalar_resources = node.scalar_resources; gpus = gpus })

module _ (known : GoMap Model (List Geometry)) where
  -- The GPUs that the annotations name.
  unfoldable pub annotated_gpus : Model → GoMap ℤ (List StatusAnnotation) → Option (List Gpu)
  unfolding new_gpu used_devices free_devices
  annotated_gpus model [] = some []
  annotated_gpus model ((index, annotations) ∷ rest) =
      and_then
        (new_gpu known model index (used_devices annotations []) (free_devices annotations []))
        (annotated_gpus model rest)

  -- The loop from the number of these GPUs to the number of GPUs: the index, and the rounds left.
  unfoldable pub missing_gpus : Model → ℕ → ℕ → Option (List Gpu)
  unfolding new_gpu
  missing_gpus model i zero = some []
  missing_gpus model i (suc rounds) =
      and_then (new_gpu known model (pos i) [] []) (missing_gpus model (i + 1) rounds)

  abbrev pub both : Option (List Gpu) → Option (List Gpu) → Option (List Gpu)
  both (some a) (some b) = some (a ++ b)
  both (some a) none = none
  both none b = none

  unfoldable pub extract_gpus : KubeNode → Model → ℤ → Option (List Gpu)
  unfolding annotated_gpus missing_gpus parse_node_annotations group_status_by_gpu_index
  extract_gpus node model count =
      let groups = group_status_by_gpu_index (parse_node_annotations node.annotations).0 in
      both (annotated_gpus model groups)
        (missing_gpus model (length groups) (pos_part (count -ℤ pos (length groups))))

  abbrev pub with_count : KubeNode → Model → Option ℤ → Option Node
  with_count node model none = none
  with_count node model (some count) = with_gpus node (extract_gpus node model count)

  abbrev pub with_model : KubeNode → Option Model → Option Node
  with_model node none = none
  with_model node (some model) = with_count node model (get_count node)

  unfoldable pub new_node : KubeNode → Option Node
  unfolding extract_gpus get_count
  new_node node = with_model node (get_model node)
