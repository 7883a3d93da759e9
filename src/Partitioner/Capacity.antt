-- ===== src/Partitioner/Capacity.antt =====
-- mig_controller.go: what the nodes offer to the waiting pods, and the plan of what can be offered.
pub mod Prefix
use walkai_nos.Base.{
  Bool, true, false, ◌&&◌, not, Option, none, some, List, [], ◌∷◌, map, String, String_eq, ℤ, lt_ℤ,
  le_ℤ, nat_eq, length, if◌then◌else◌,
}
use walkai_nos.GoMap.{GoMap, amount, add_at}
use walkai_nos.Geometry.{ProfileName, Slice, mig_profile, Slice_eq, Geometry}
use walkai_nos.Geometry.Compare.{MapCompare}
use walkai_nos.Kube.{KubeNode, Pod}
use walkai_nos.Pods.{Quota, get_requested_profiles, is_pending, is_scheduled, is_unschedulable}
use walkai_nos.Mig.Gpu.{Model}
use walkai_nos.Mig.Node.{Node, node_geometry, free_geometry, node_update_geometry_for}
use walkai_nos.Mig.Node.Build.{new_node}

abbrev pub Requested : Type 0
Requested = GoMap ProfileName ℤ

abbrev pub should_consider_pod : Pod → Bool
should_consider_pod p =
    if not (is_pending p) then false else if is_scheduled p then false else is_unschedulable p

-- target[profile] += quantity
unfoldable pub add_requested : Requested → Requested → Requested
add_requested [] target = target
add_requested ((profile, quantity) ∷ rest) target =
    add_requested rest (add_at profile quantity target)

-- requiredSlices[profile] = quantity, which is a copy as each profile occurs once.
abbrev pub convert_profiles_to_slices : Requested → GoMap Slice ℤ
convert_profiles_to_slices requested =
    map (λ (profile, quantity). (mig_profile profile, quantity)) requested

-- A geometry has so much of each profile: the loop of hasFreeCapacityFor and providesRequestedProfiles.
unfoldable pub has_free_capacity_for : Geometry → Requested → Bool
has_free_capacity_for free [] = true
has_free_capacity_for free ((profile, quantity) ∷ rest) =
    if lt_ℤ (amount (mig_profile profile) free) quantity
    then false
    else has_free_capacity_for free rest

abbrev pub provides_requested_profiles : Node → Requested → Bool
provides_requested_profiles n requested = has_free_capacity_for (node_geometry n) requested

module _ (known : GoMap Model (List Geometry)) where
  -- Nodes that cannot be read are passed over.
  unfoldable pub profile_present_on_any_node : List KubeNode → ProfileName → ℤ → Bool
  profile_present_on_any_node [] profile quantity = false
  profile_present_on_any_node (node ∷ rest) profile quantity =
      let later = profile_present_on_any_node rest profile quantity in
      elim (new_node known node) [
        | none ↦ later
        | some n ↦
            if le_ℤ quantity (amount (mig_profile profile) (free_geometry n.gpus []))
            then true
            else later
      ]

  unfoldable pub profile_already_present : List KubeNode → Requested → Bool
  profile_already_present nodes [] = true
  profile_already_present nodes ((profile, quantity) ∷ rest) =
      if profile_present_on_any_node nodes profile quantity
      then profile_already_present nodes rest
      else false

  module _ (cmp : MapCompare Slice) where
    -- The node with the geometry that is found for the request, where it then provides the request.
    unfoldable pub repartitioned : Node → Requested → Option Node
    repartitioned n requested =
        let (updated, changed) =
          node_update_geometry_for cmp n (convert_profiles_to_slices requested) in
        if changed && provides_requested_profiles updated requested then some updated else none

    unfoldable pub can_repartition_any : List KubeNode → Requested → Bool
    can_repartition_any [] requested = false
    can_repartition_any (node ∷ rest) requested =
        let later = can_repartition_any rest requested in
        elim (new_node known node) [
          | none ↦ later
          | some n ↦ elim (repartitioned n requested) [ none ↦ later | some _ ↦ true ]
        ]

    unfoldable pub can_repartition : List KubeNode → Requested → Bool
    can_repartition nodes requested =
        if nat_eq (length requested) 0 then false else can_repartition_any nodes requested

    module _ (quota : Quota) where
      -- The loop of buildRequestedProfilesPlan, with its two variables.
      unfoldable pub plan_from : List KubeNode → List Pod → Requested → Requested → Requested
      plan_from nodes [] requested last_feasible = last_feasible
      plan_from nodes (pod ∷ rest) requested last_feasible =
          let more = add_requested (get_requested_profiles quota pod) requested in
          let later = plan_from nodes rest more more in
          if profile_already_present nodes more
          then later
          else if can_repartition nodes more
          then later
          else last_feasible

      unfoldable pub build_requested_profiles_plan : List KubeNode → List Pod → Requested
      build_requested_profiles_plan nodes pods = plan_from nodes pods [] []
