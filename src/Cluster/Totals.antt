-- ===== src/Cluster/Totals.antt =====
-- collector.go: how many devices of each profile are allocated and available, by the annotations of the
-- nodes or else by their capacity.
pub mod Capacity
use Prim.Native.String.{compare}
use text.Mathlib.Text.{is_lt}
use walkai_nos.Base.{
  Bool, true, false, Option, none, some, List, [], ◌∷◌, String, String_eq, ℤ, pos, ◌+ℤ◌, ◌-ℤ◌, lt_ℤ,
  ltb, length, nat_eq, ◌==◌, if◌then◌else◌,
}
use walkai_nos.GoMap.{GoMap, get?, put, amount, add_at}
use walkai_nos.Geometry.{ProfileName}
use walkai_nos.Device.{used, free, unknown}
use walkai_nos.Annotation.{StatusAnnotation}
use walkai_nos.Annotation.Format.{parse_node_annotations}
use walkai_nos.Kube.{ResourceList}
use walkai_nos.Pods.{Quota, get_requested_profiles}
use walkai_nos.Mig.Profile.{extract_profile_name}
use walkai_nos.Partitioner.Order.{sort_stable}
use walkai_nos.Cluster.Times.{ClusterPod}

pub record ClusterNode : Type 0 where
  pub annotations : GoMap String String
  pub capacity : ResourceList

pub record GpuInventory : Type 0 where
  pub profile : String
  pub allocated : ℤ
  pub available : ℤ

pub record GpuTotals : Type 0 where
  pub allocated : ℤ
  pub available : ℤ

-- result[profile], where a missing profile has no devices
unfoldable pub totals_at : String → GoMap String GpuTotals → GpuTotals
totals_at profile m = elim (get? profile m) [
  | none ↦ record { allocated = pos 0; available = pos 0 }
  | some entry ↦ entry
]

-- An annotation of another status leaves the numbers as they are, but makes an entry.
abbrev pub count_annotation : StatusAnnotation → GpuTotals → GpuTotals
count_annotation a entry = elim a.status [
  | used ↦ record entry { allocated = entry.allocated +ℤ a.quantity }
  | free ↦ record entry { available = entry.available +ℤ a.quantity }
  | unknown ↦ entry
]

unfoldable pub count_annotations :
    List StatusAnnotation → GoMap String GpuTotals → GoMap String GpuTotals
unfolding totals_at
count_annotations [] result = result
count_annotations (a ∷ rest) result =
    count_annotations rest
      (put a.profile_name (count_annotation a (totals_at a.profile_name result)) result)

unfoldable pub count_nodes : List ClusterNode → GoMap String GpuTotals → GoMap String GpuTotals
unfolding count_annotations parse_node_annotations
count_nodes [] result = result
count_nodes (n ∷ rest) result =
    count_nodes rest (count_annotations (parse_node_annotations n.annotations).0 result)

abbrev pub text_before : String → String → Bool
text_before a b = is_lt (compare a b)

-- The keys of a map but the empty text; Go leaves their order open.
unfoldable pub profile_keys {ℓ} : {V : Type ℓ} → GoMap String V → List String
profile_keys [] = []
profile_keys ((profile, v) ∷ rest) =
    let later = profile_keys rest in if profile == "" then later else profile ∷ later

unfoldable pub inventory_of : GoMap String GpuTotals → List String → List GpuInventory
unfolding totals_at
inventory_of totals [] = []
inventory_of totals (profile ∷ rest) =
    let entry = totals_at profile totals in
    record { profile = profile; allocated = entry.allocated; available = entry.available }
    ∷ inventory_of totals rest

unfoldable pub gpu_totals_to_inventory : GoMap String GpuTotals → List GpuInventory
unfolding profile_keys inventory_of sort_stable
gpu_totals_to_inventory totals = inventory_of totals (sort_stable text_before (profile_keys totals))

unfoldable pub build_gpu_inventory_from_annotations : List ClusterNode → List GpuInventory
unfolding count_nodes gpu_totals_to_inventory
build_gpu_inventory_from_annotations nodes = gpu_totals_to_inventory (count_nodes nodes [])

-- The two loops over the capacity of the nodes.
unfoldable pub add_capacity : ResourceList → GoMap ProfileName ℤ → GoMap ProfileName ℤ
unfolding extract_profile_name
add_capacity [] totals = totals
add_capacity ((name, quantity) ∷ rest) totals =
    add_capacity rest
      (elim (extract_profile_name name) [ none ↦ totals | some p ↦ add_at p quantity totals ])

unfoldable pub capacity_totals : List ClusterNode → GoMap ProfileName ℤ → GoMap ProfileName ℤ
unfolding add_capacity
capacity_totals [] totals = totals
capacity_totals (n ∷ rest) totals = capacity_totals rest (add_capacity n.capacity totals)

-- for profile, quantity := range requested { allocated[profile] += quantity }
unfoldable pub add_requests : GoMap ProfileName ℤ → GoMap ProfileName ℤ → GoMap ProfileName ℤ
add_requests [] allocated = allocated
add_requests ((p, q) ∷ rest) allocated = add_requests rest (add_at p q allocated)

unfoldable pub aggregate_pod_requests :
    Quota → List ClusterPod → GoMap ProfileName ℤ → GoMap ProfileName ℤ
unfolding add_requests get_requested_profiles
aggregate_pod_requests quota [] allocated = allocated
aggregate_pod_requests quota (p ∷ rest) allocated =
    aggregate_pod_requests quota rest (add_requests (get_requested_profiles quota p.pod) allocated)

-- The devices of a profile: no more are used than there are.
abbrev pub totals_of : ℤ → ℤ → GpuTotals
totals_of asked total =
    let limited = if lt_ℤ total asked then total else asked in
    record { allocated = limited; available = total -ℤ limited }

unfoldable pub capacity_result :
    GoMap ProfileName ℤ → GoMap ProfileName ℤ → GoMap String GpuTotals → GoMap String GpuTotals
capacity_result allocated [] result = result
capacity_result allocated ((profile, total) ∷ rest) result =
    capacity_result allocated rest (put profile (totals_of (amount profile allocated) total) result)

unfoldable pub build_gpu_inventory_from_capacity :
    Quota → List ClusterNode → List ClusterPod → List GpuInventory
unfolding capacity_totals aggregate_pod_requests capacity_result gpu_totals_to_inventory
build_gpu_inventory_from_capacity quota nodes pods =
    let totals = capacity_totals nodes [] in
    if nat_eq (length totals) 0
    then []
    else gpu_totals_to_inventory (capacity_result (aggregate_pod_requests quota pods []) totals [])

unfoldable pub build_gpu_inventory : Quota → List ClusterNode → List ClusterPod → List GpuInventory
unfolding build_gpu_inventory_from_annotations build_gpu_inventory_from_capacity
build_gpu_inventory quota nodes pods =
    let inventory = build_gpu_inventory_from_annotations nodes in
    if ltb 0 (length inventory)
    then inventory
    else build_gpu_inventory_from_capacity quota nodes pods
