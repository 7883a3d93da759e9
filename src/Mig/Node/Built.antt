-- ===== src/Mig/Node/Built.antt =====
-- The GPUs of a node that NewNode returns: their indices and devices.
use walkai_nos.Base.{
  ◌≡◌, sym, ◌∙◌, ap, Option, none, some, List, [], ◌++◌, String_eq, ℤ, pos, pos_part, ◌-ℤ◌, int_eq,
  length, All,
}
use mathlib.Core.List.{map-append}
use walkai_nos.GoMap.{GoMap}
use walkai_nos.Geometry.{Geometry}
use walkai_nos.Kube.{KubeNode}
use walkai_nos.Annotation.{StatusAnnotation, group_status_by_gpu_index}
use walkai_nos.Annotation.Format.{parse_node_annotations}
use walkai_nos.Mig.Gpu.{Model, Gpu}
use walkai_nos.Mig.Node.Contents.{
  HasContents, annotated-HasContents, groups_filtered, missing-Empty,
}
use walkai_nos.Mig.Node.{Node}
use walkai_nos.Mig.Node.Build.{
  with_gpus, with_count, with_model, extract_gpus, new_node, get_model, get_count,
}
use walkai_nos.Mig.Node.Extracted.{
  index_of, indices, range_from, keys, annotated-indices, missing-indices, extracted,
}

-- What NewNode makes of a node.
built :
    (known : GoMap Model (List Geometry)) (node : KubeNode) (model : Model) (count : ℤ) (n : Node)
    → get_model node ≡ some model
    → get_count node ≡ some count
    → new_node known node ≡ some n
    → extract_gpus known node model count ≡ some n.gpus
unfolding new_node
built known node model count n hm hc h =
    given (extract_gpus known node model count)
      (sym (ap (with_model known node) hm ∙ ap (with_count known node model) hc) ∙ h)
  where
    given : (o : Option (List Gpu)) → with_gpus node o ≡ some n → o ≡ some n.gpus
    given none e = cc
    given (some gpus) e =
        ap
          (λ (x : Option Node). elim x as (λ _. Option (List Gpu)) [
            | none ↦ none
            | some y ↦ some y.gpus
          ])
          e

-- The groups of status annotations of a node, by GPU.
abbrev pub status_groups : KubeNode → GoMap ℤ (List StatusAnnotation)
status_groups node = group_status_by_gpu_index (parse_node_annotations node.annotations).0

pub indices-new_node :
    (known : GoMap Model (List Geometry)) (node : KubeNode) (model : Model) (count : ℤ) (n : Node)
    → get_model node ≡ some model
    → get_count node ≡ some count
    → new_node known node ≡ some n
    → indices n.gpus
      ≡ keys (status_groups node)
        ++ range_from
            (length (status_groups node))
            (pos_part (count -ℤ pos (length (status_groups node))))
indices-new_node known node model count n hm hc h =
    let gpus = built known node model count n hm hc h in
    let (named, missing, eq, a, b) = extracted known model node count n.gpus gpus in
    let groups = status_groups node in
    ap indices eq
    ∙ map-append index_of named missing
    ∙ cc (
      annotated-indices known model groups named a,
      missing-indices known model (length groups) (pos_part (count -ℤ pos (length groups))) missing
          b,
    )

-- A GPU that is made without annotations of its own.
abbrev pub IsEmpty : Gpu → Type 0
IsEmpty g = (g.used_mig_devices ≡ []) × (g.free_mig_devices ≡ [])

-- The GPUs of a node that NewNode returns are one for each index among the status annotations, and then
-- the missing ones, from the number of these upwards. A GPU of the first has, of each profile, as many
-- used devices as the last used status annotation of its index and of the profile says, or none, and
-- likewise as many free devices; one of the others has no devices.
pub contents-new_node :
    (known : GoMap Model (List Geometry)) (node : KubeNode) (model : Model) (count : ℤ) (n : Node)
    → get_model node ≡ some model
    → get_count node ≡ some count
    → new_node known node ≡ some n
    → (named missing : List Gpu) × (n.gpus ≡ named ++ missing)
      × (indices named ≡ keys (status_groups node))
      × All (HasContents (parse_node_annotations node.annotations).0) named
      × (indices missing
          ≡ range_from
              (length (status_groups node))
              (pos_part (count -ℤ pos (length (status_groups node)))))
      × All IsEmpty missing
contents-new_node known node model count n hm hc h =
    let gpus = built known node model count n hm hc h in
    let (named, missing, eq, a, b) = extracted known model node count n.gpus gpus in
    let groups = status_groups node in
    let rounds = pos_part (count -ℤ pos (length groups)) in
    (
      named,
      missing,
      eq,
      annotated-indices known model groups named a,
      annotated-HasContents known model (parse_node_annotations node.annotations).0 groups named a
          (groups_filtered (parse_node_annotations node.annotations).0),
      missing-indices known model (length groups) rounds missing b,
      missing-Empty known model (length groups) rounds missing b,
    )
