-- ===== src/Partitioner/Preemption.antt =====
-- mig_controller.go: the pods that are evicted for the first waiting pod.
pub mod Victims
use walkai_nos.Base.{
  Bool, true, false, ◌&&◌, not, Option, none, some, List, [], ◌∷◌, ◌++◌, String, String_eq, ℤ, le_ℤ,
  ◌==◌, nat_eq, length, if◌then◌else◌,
}
use walkai_nos.GoMap.{GoMap}
use walkai_nos.Geometry.{Slice, Slice_eq, Geometry}
use walkai_nos.Geometry.Compare.{MapCompare}
use walkai_nos.Kube.{KubeNode, Pod}
use walkai_nos.Pods.{
  Quota, get_requested_profiles, pod_priority_or_default, is_owned_by_daemon_set, is_owned_by_node,
}
use walkai_nos.Mig.Gpu.{Model}
use walkai_nos.Mig.Node.{Node, free_geometry, release_all}
use walkai_nos.Mig.Node.Build.{new_node}
use walkai_nos.Partitioner.Api.{Api, Requests, Outcome, list_pods, evict}
use walkai_nos.Partitioner.Order.{sort_stable, before_as_victim}
use walkai_nos.Partitioner.Capacity.{Requested, has_free_capacity_for, repartitioned}
use walkai_nos.Partitioner.Taints.{ensure_repartitioning_taint, remove_repartitioning_taint}

-- evictPodsUsingAPI: up to the first error
unfoldable pub evict_pods : Api → List Pod → Requests → Outcome Unit
evict_pods api [] t = (some tt, t)
evict_pods api (p ∷ rest) t =
    let later = evict_pods api rest (t ++ evict p ∷ []) in
    if api.evicted t p then later else (none, t ++ evict p ∷ [])

module _ (quota : Quota) where
  unfoldable pub is_candidate : String → ℤ → Pod → Bool
  is_candidate node_name target_priority p =
      if not (p.node_name == node_name)
      then false
      else if p.is_deleted
      then false
      else if is_owned_by_daemon_set p
      then false
      else if is_owned_by_node p
      then false
      else if nat_eq (length (get_requested_profiles quota p)) 0
      then false
      else not (le_ℤ target_priority (pod_priority_or_default p))

  unfoldable pub candidates : String → ℤ → List Pod → List Pod
  candidates node_name target_priority [] = []
  candidates node_name target_priority (p ∷ rest) =
      if is_candidate node_name target_priority p
      then p ∷ candidates node_name target_priority rest
      else candidates node_name target_priority rest

  unfoldable pub list_candidate_victims : Api → String → ℤ → Requests → Outcome (List Pod)
  list_candidate_victims api node_name target_priority t = (
    elim (api.pods t) [
      | none ↦ none
      | some pods ↦ some (sort_stable before_as_victim (candidates node_name target_priority pods))
    ],
    t ++ list_pods ∷ [],
  )

  module _ (known : GoMap Model (List Geometry)) (cmp : MapCompare Slice) where
    -- A node offers a request: it has the free devices, or can be repartitioned to provide it.
    unfoldable pub offers : Node → Requested → Bool
    offers n requested =
        if has_free_capacity_for (free_geometry n.gpus []) requested
        then true
        else elim (repartitioned known cmp n requested) [ none ↦ false | some _ ↦ true ]

    -- The loop over the candidates. What a release that fails has moved stays moved.
    unfoldable pub select_victims : Requested → List Pod → Node → List Pod → List Pod × Bool
    select_victims target [] working victims = ([], false)
    select_victims target (victim ∷ rest) working victims =
        let profiles = get_requested_profiles quota victim in
        let (gpus, done) = release_all profiles working.gpus in
        let released = record working { gpus = gpus } in
        let skipped = select_victims target rest working victims in
        let failed = select_victims target rest released victims in
        let chosen = select_victims target rest released (victims ++ victim ∷ []) in
        if nat_eq (length profiles) 0
        then skipped
        else if not done
        then failed
        else if offers released target
        then (victims ++ victim ∷ [], true)
        else chosen

    -- The victims, and whether the request is feasible with them.
    unfoldable pub find_victims : Api → KubeNode → Pod → Requests → Outcome (List Pod × Bool)
    find_victims api node target t =
        let requested = get_requested_profiles quota target in
        let (listed, u) = list_candidate_victims api node.name (pod_priority_or_default target) t in
        elim (new_node known node) [
          | none ↦ (none, t)
          | some n ↦ if offers n requested then (some ([], true), t) else elim listed [
            | none ↦ (none, u)
            | some l ↦ (some (select_victims requested l n []), u)
          ]
        ]

    -- One node of the loop of tryPreemption, for the victims that are found: whether they are evicted.
    unfoldable pub preempt_on : Api → KubeNode → List Pod → Requests → Bool × Requests
    preempt_on api node victims t =
        let (tainted, u) = ensure_repartitioning_taint api node t in
        let (evicted, v) = evict_pods api victims u in
        elim tainted [
          | none ↦ (false, u)
          | some _ ↦ elim evicted [
            | none ↦ (false, (remove_repartitioning_taint api node.name v).1)
            | some _ ↦ (true, v)
          ]
        ]

    abbrev pub victims_of : Option (List Pod × Bool) → List Pod
    victims_of none = []
    victims_of (some r) = if r.1 then r.0 else []

    unfoldable pub try_preemption_on : Api → List KubeNode → Pod → Requests → Bool × Requests
    try_preemption_on api [] target t = (false, t)
    try_preemption_on api (node ∷ rest) target t =
        let (found, u) = find_victims api node target t in
        let (done, v) = preempt_on api node (victims_of found) u in
        let without = try_preemption_on api rest target u in
        let later = try_preemption_on api rest target v in
        if nat_eq (length (victims_of found)) 0 then without else if done then (true, v) else later

    unfoldable pub try_preemption : Api → List KubeNode → List Pod → Requests → Bool × Requests
    try_preemption api nodes [] t = (false, t)
    try_preemption api nodes (target ∷ rest) t = try_preemption_on api nodes target t
