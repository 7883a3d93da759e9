-- ===== src/Partitioner/Reconcile/Safety.antt =====
-- What Reconcile may ask of the API: a predicate on the calls, kept by each function of the controller.
use walkai_nos.Base.{
  ◌≡◌, refl, some, List, [], ◌∷◌, ◌++◌, String, ℤ, nat_eq, length, All, All-append, All-map,
  Bool-cases, Option-cases, inl, inr,
}
use walkai_nos.GoMap.{GoMap}
use walkai_nos.Geometry.{Slice, Slice_eq, Geometry}
use walkai_nos.Geometry.Compare.{MapCompare}
use walkai_nos.Kube.{KubeNode, Pod}
use walkai_nos.Pods.{Quota, get_requested_profiles, pod_priority_or_default}
use walkai_nos.Annotation.{SpecAnnotation}
use walkai_nos.Mig.Gpu.{Model}
use walkai_nos.Mig.Node.{Node}
use walkai_nos.Mig.Node.Build.{new_node}
use walkai_nos.Partitioner.Api.{
  Api, Request, Requests, list_nodes, list_pods, get_node, patch_annotations, patch_taints, evict,
}
use walkai_nos.Partitioner.Plan.{
  get_gpu_spec_annotation_list, planned_annotations, build_node_partitioning, apply_partitioning,
}
use walkai_nos.Partitioner.Capacity.{Requested, repartitioned}
use walkai_nos.Partitioner.Taints.{
  ensure_repartitioning_taint, remove_repartitioning_taint, cleanup_repartitioning_taints,
  has_repartitioning_taint, without_repartitioning_taint,
}
use walkai_nos.Partitioner.Preemption.{
  evict_pods, find_victims, victims_of, preempt_on, try_preemption_on, list_candidate_victims,
  offers,
}
use walkai_nos.Partitioner.Preemption.Victims.{IsEvictable, find_victims-All}
use walkai_nos.Partitioner.Reconcile.{update_node_geometry}

module _ (known : GoMap Model (List Geometry)) (cmp : MapCompare Slice) where
  -- What ApplyPartitioning is asked to write for a request on a node.
  pub record IsPlanned (requested : Requested) (node : KubeNode) (after : GoMap String String)
      : Type 0 where
    pub read : Node
    pub updated : Node
    pub specs : List SpecAnnotation
    pub plan_id : String
    pub read_eq : new_node known node ≡ some read
    pub updated_eq : repartitioned known cmp read requested ≡ some updated
    pub specs_eq : get_gpu_spec_annotation_list (build_node_partitioning updated.gpus) ≡ some specs
    pub after_eq : after ≡ planned_annotations specs plan_id node.annotations

module _ (P : Pod → Type 0) (Q : String → GoMap String String → GoMap String String → Type 0) where
  -- An eviction satisfies `P`, a patch of annotations `Q`.
  abbrev pub Permitted : Request → Type 0
  Permitted list_nodes = Unit
  Permitted list_pods = Unit
  Permitted (get_node name) = Unit
  Permitted (patch_annotations name before after) = Q name before after
  Permitted (patch_taints name taints) = Unit
  Permitted (evict p) = P p

  ensure-Permitted :
      (api : Api) (node : KubeNode) (t : Requests)
      → All Permitted t
      → All Permitted (ensure_repartitioning_taint api node t).1
  unfolding ensure_repartitioning_taint
  ensure-Permitted api node t h = elim (Bool-cases (has_repartitioning_taint node.taints)) [
    | inl e ↦ rw (ensure_repartitioning_taint, e) h
    | inr e ↦ rw (ensure_repartitioning_taint, e) (All-append Permitted t _ h (tt, tt))
  ]

  remove-Permitted :
      (api : Api) (name : String) (t : Requests)
      → All Permitted t
      → All Permitted (remove_repartitioning_taint api name t).1
  unfolding remove_repartitioning_taint
  remove-Permitted api name t h =
      let asked : All Permitted (t ++ get_node name ∷ []) =
        All-append Permitted t (get_node name ∷ []) h (tt, tt) in
      elim (Option-cases (api.node t name)) [
        | inl e ↦ rw (remove_repartitioning_taint, e) asked
        | inr (current, e) ↦
            elim (Bool-cases (
              nat_eq (length (without_repartitioning_taint current.taints))
                (length current.taints))) [
                  | inl s ↦ rw (remove_repartitioning_taint, e, s) asked
                  | inr s ↦
                      rw (remove_repartitioning_taint, e, s)
                        (All-append Permitted (t ++ get_node name ∷ []) _ asked (tt, tt))
                ]
      ]

  pub cleanup-Permitted :
      (api : Api) (nodes : List KubeNode) (t : Requests)
      → All Permitted t
      → All Permitted (cleanup_repartitioning_taints api nodes t).1
  unfolding cleanup_repartitioning_taints
  cleanup-Permitted api [] t h = h
  cleanup-Permitted api (node ∷ rest) t h =
      let u = remove_repartitioning_taint api node.name t in
      let removed = remove-Permitted api node.name t h in
      elim (Bool-cases (has_repartitioning_taint node.taints)) [
        | inr e ↦ rw (cleanup_repartitioning_taints, e) (cleanup-Permitted api rest t h)
        | inl e ↦ elim (Option-cases u.0) [
          | inl o ↦ rw (cleanup_repartitioning_taints, e, o) removed
          | inr (_, o) ↦
              rw (cleanup_repartitioning_taints, e, o) (cleanup-Permitted api rest u.1 removed)
        ]
      ]

  evict_pods-Permitted :
      (api : Api) (pods : List Pod) (t : Requests)
      → All P pods
      → All Permitted t
      → All Permitted (evict_pods api pods t).1
  unfolding evict_pods
  evict_pods-Permitted api [] t k h = h
  evict_pods-Permitted api (p ∷ rest) t k h =
      let asked : All Permitted (t ++ evict p ∷ []) =
        All-append Permitted t (evict p ∷ []) h (k.0, tt) in
      elim (Bool-cases (api.evicted t p)) [
        | inl e ↦ rw (evict_pods, e) (evict_pods-Permitted api rest (t ++ evict p ∷ []) k.1 asked)
        | inr e ↦ rw (evict_pods, e) asked
      ]

  preempt_on-Permitted :
      (quota : Quota) (known : GoMap Model (List Geometry)) (cmp : MapCompare Slice) (api : Api)
      (node : KubeNode) (victims : List Pod) (t : Requests)
      → All P victims
      → All Permitted t
      → All Permitted (preempt_on quota known cmp api node victims t).1
  unfolding preempt_on
  preempt_on-Permitted quota known cmp api node victims t k h =
      let u = ensure_repartitioning_taint api node t in
      let tainted = ensure-Permitted api node t h in
      let v = evict_pods api victims u.1 in
      let evicted = evict_pods-Permitted api victims u.1 k tainted in
      elim (Option-cases u.0) [
        | inl e ↦ rw (preempt_on, e) tainted
        | inr (_, e) ↦ elim (Option-cases v.0) [
          | inl o ↦ rw (preempt_on, e, o) (remove-Permitted api node.name v.1 evicted)
          | inr (_, o) ↦ rw (preempt_on, e, o) evicted
        ]
      ]

  list_candidate_victims-Permitted :
      (quota : Quota) (api : Api) (name : String) (priority : ℤ) (t : Requests)
      → All Permitted t
      → All Permitted (list_candidate_victims quota api name priority t).1
  unfolding list_candidate_victims
  list_candidate_victims-Permitted quota api name priority t h =
      All-append Permitted t (list_pods ∷ []) h (tt, tt)

  module _ (quota : Quota) (known : GoMap Model (List Geometry)) (cmp : MapCompare Slice)
      (api : Api) where
    find_victims-Permitted :
        (node : KubeNode) (target : Pod) (t : Requests)
        → All Permitted t
        → All Permitted (find_victims quota known cmp api node target t).1
    unfolding find_victims
    find_victims-Permitted node target t h =
        let priority = pod_priority_or_default target in
        let listed = list_candidate_victims quota api node.name priority t in
        let asked = list_candidate_victims-Permitted quota api node.name priority t h in
        elim (Option-cases (new_node known node)) [
          | inl e ↦ rw (find_victims, e) h
          | inr (n, e) ↦
              elim (Bool-cases (offers quota known cmp n (get_requested_profiles quota target))) [
                | inl o ↦ rw (find_victims, e, o) h
                | inr o ↦ elim (Option-cases listed.0) [
                  | inl l ↦ rw (find_victims, e, o, l) asked
                  | inr (_, l) ↦ rw (find_victims, e, o, l) asked
                ]
              ]
        ]

    pub try_preemption_on-Permitted :
        (nodes : List KubeNode) (target : Pod) (t : Requests)
        → ((name : String) (p : Pod)
            → IsEvictable quota name (pod_priority_or_default target) p
            → P p)
        → All Permitted t
        → All Permitted (try_preemption_on quota known cmp api nodes target t).1
    unfolding try_preemption_on
    try_preemption_on-Permitted [] target t k h = h
    try_preemption_on-Permitted (node ∷ rest) target t k h =
        let found = find_victims quota known cmp api node target t in
        let victims = victims_of quota known cmp found.0 in
        let looked = find_victims-Permitted node target t h in
        let done = preempt_on quota known cmp api node victims found.1 in
        let tried =
          preempt_on-Permitted quota known cmp api node victims found.1
            (All-map (λ p h. k node.name p h.0) victims
              (find_victims-All quota known cmp api node target t))
            looked in
        elim (Bool-cases (nat_eq (length victims) 0)) [
          | inl e ↦
              rw (try_preemption_on, e) (try_preemption_on-Permitted rest target found.1 k looked)
          | inr e ↦ elim (Bool-cases done.0) [
            | inl d ↦ rw (try_preemption_on, e, d) tried
            | inr d ↦
                rw (try_preemption_on, e, d)
                  (try_preemption_on-Permitted rest target done.1 k tried)
          ]
        ]

    pub update-Permitted :
        (node : KubeNode) (requested : Requested) (t : Requests)
        → ((after : GoMap String String)
            → IsPlanned known cmp requested node after
            → Q node.name node.annotations after)
        → All Permitted t
        → All Permitted (update_node_geometry quota known cmp api node requested t).1
    unfolding update_node_geometry apply_partitioning
    update-Permitted node requested t k h = elim (Option-cases (new_node known node)) [
      | inl e ↦ rw (update_node_geometry, e) h
      | inr (n, e) ↦ elim (Option-cases (repartitioned known cmp n requested)) [
        | inl r ↦ rw (update_node_geometry, e, r) h
        | inr (updated, r) ↦
            elim (Option-cases
              (get_gpu_spec_annotation_list (build_node_partitioning updated.gpus))) [
                | inl g ↦ rw (update_node_geometry, e, r, apply_partitioning, g) h
                | inr (specs, g) ↦
                    rw (update_node_geometry, e, r, apply_partitioning, g)
                      (All-append Permitted t _ h (
                        k (planned_annotations specs (api.plan_id t) node.annotations) (record {
                          read = n;
                          updated = updated;
                          specs = specs;
                          plan_id = api.plan_id t;
                          read_eq = e;
                          updated_eq = r;
                          specs_eq = g;
                          after_eq = refl;
                        }),
                        tt,
                      ))
              ]
      ]
    ]
