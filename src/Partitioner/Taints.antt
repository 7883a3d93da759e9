-- ===== src/Partitioner/Taints.antt =====
-- mig_controller.go: the taint of a node that is being repartitioned.
use walkai_nos.Base.{
  Bool, true, false, none, some, List, [], ◌∷◌, ◌++◌, String, String_eq, ◌==◌, nat_eq, length,
  if◌then◌else◌,
}
use walkai_nos.Kube.{Taint, KubeNode}
use walkai_nos.Partitioner.Api.{Api, Requests, Outcome, get_node, patch_taints}

abbrev pub repartitioning_taint_key : String
repartitioning_taint_key = "nos.nebuly.com/repartitioning"

abbrev pub repartitioning_taint : Taint
repartitioning_taint = record {
  key = repartitioning_taint_key;
  value = "planned";
  effect = "NoSchedule";
}

unfoldable pub has_repartitioning_taint : List Taint → Bool
has_repartitioning_taint [] = false
has_repartitioning_taint (t ∷ rest) =
    if t.key == repartitioning_taint_key then true else has_repartitioning_taint rest

unfoldable pub without_repartitioning_taint : List Taint → List Taint
without_repartitioning_taint [] = []
without_repartitioning_taint (t ∷ rest) =
    if t.key == repartitioning_taint_key
    then without_repartitioning_taint rest
    else t ∷ without_repartitioning_taint rest

abbrev pub patch_taints_of : Api → String → List Taint → Requests → Outcome Unit
patch_taints_of api name taints t =
    (if api.taints_patched t name taints then some tt else none, t ++ patch_taints name taints ∷ [])

unfoldable pub ensure_repartitioning_taint : Api → KubeNode → Requests → Outcome Unit
ensure_repartitioning_taint api node t =
    if has_repartitioning_taint node.taints
    then (some tt, t)
    else patch_taints_of api node.name (node.taints ++ repartitioning_taint ∷ []) t

-- The taints are the ones that the API has now.
unfoldable pub remove_repartitioning_taint : Api → String → Requests → Outcome Unit
remove_repartitioning_taint api name t =
    let asked = t ++ get_node name ∷ [] in
    elim (api.node t name) [
      | none ↦ (none, asked)
      | some current ↦
          let left = without_repartitioning_taint current.taints in
          if nat_eq (length left) (length current.taints)
          then (some tt, asked)
          else patch_taints_of api name left asked
    ]

unfoldable pub cleanup_repartitioning_taints : Api → List KubeNode → Requests → Outcome Unit
cleanup_repartitioning_taints api [] t = (some tt, t)
cleanup_repartitioning_taints api (node ∷ rest) t =
    let (removed, u) = remove_repartitioning_taint api node.name t in
    let skipped = cleanup_repartitioning_taints api rest t in
    let later = cleanup_repartitioning_taints api rest u in
    if has_repartitioning_taint node.taints
    then elim removed [ none ↦ (none, u) | some _ ↦ later ]
    else skipped
