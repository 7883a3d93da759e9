-- ===== src/Partitioner/Reconcile/Reconciled.antt =====
-- What one call of Reconcile asks of the API.
use walkai_nos.Base.{
  ◌≡◌, refl, Bool, true, Option, none, some, List, [], ◌∷◌, String, nat_eq, length, All, All-map,
  Any, Bool-cases, Option-cases, inl, inr, String_eq,
}
use walkai_nos.GoMap.{GoMap}
use walkai_nos.Geometry.{Slice, Slice_eq, Geometry}
use walkai_nos.Geometry.Compare.{MapCompare}
use walkai_nos.Kube.{KubeNode, Pod}
use walkai_nos.Pods.{Quota, pod_priority_or_default}
use walkai_nos.Mig.Gpu.{Model}
use walkai_nos.Partitioner.Api.{Api, Requests, list_nodes, list_pods}
use walkai_nos.Partitioner.Order.{sort_pods_by_priority_and_age}
use walkai_nos.Partitioner.Capacity.{
  Requested, build_requested_profiles_plan, profile_already_present,
}
use walkai_nos.Partitioner.Preemption.{try_preemption}
use walkai_nos.Partitioner.Preemption.Victims.{IsEvictable}
use walkai_nos.Partitioner.Reconcile.{
  updated?, update_node_geometry, try_repartition, try_plan_without_preemption, reconcile_pods,
  reconcile, pending_mig_pods,
}
use walkai_nos.Partitioner.Reconcile.Safety.{
  Permitted, IsPlanned, cleanup-Permitted, try_preemption_on-Permitted, update-Permitted,
}

abbrev pub Among : KubeNode → List KubeNode → Type 0
Among node nodes = Any (λ m. m ≡ node) nodes

All-Among : (nodes : List KubeNode) → All (λ n. Among n nodes) nodes
All-Among [] = tt
All-Among (n ∷ nodes) = (
  inl refl,
  All-map {P = λ m. Among m nodes} {Q = λ m. Among m (n ∷ nodes)} (λ m h. inr h) nodes
      (All-Among nodes),
)

module _ (quota : Quota) (known : GoMap Model (List Geometry)) (cmp : MapCompare Slice)
    (api : Api) where
  -- An eviction for the first of the sorted pods that wait.
  pub record IsVictim (preemption : Bool) (pods : List Pod) (p : Pod) : Type 0 where
    pub allowed : preemption ≡ true
    pub target : Pod
    pub behind : List Pod
    pub pods_eq : pods ≡ target ∷ behind
    pub node_name : String
    pub candidate : IsEvictable quota node_name (pod_priority_or_default target) p

  -- A patch of a node that can be repartitioned for the plan of the pods.
  pub record IsPatch (nodes : List KubeNode) (pods : List Pod) (name : String)
      (before after : GoMap String String) : Type 0 where
    pub node : KubeNode
    pub among : Among node nodes
    pub name_eq : name ≡ node.name
    pub before_eq : before ≡ node.annotations
    pub planned :
        IsPlanned known cmp (build_requested_profiles_plan known cmp quota nodes pods) node after

  module _ (P : Pod → Type 0)
      (Q : String → GoMap String String → GoMap String String → Type 0) where
    try_repartition-Permitted :
        (nodes : List KubeNode) (requested : Requested) (t : Requests)
        → All
            (λ node.
              (after : GoMap String String)
              → IsPlanned known cmp requested node after
              → Q node.name node.annotations after)
            nodes
        → All (Permitted P Q) t
        → All (Permitted P Q) (try_repartition quota known cmp api nodes requested t).1
    unfolding try_repartition
    try_repartition-Permitted [] requested t k h = h
    try_repartition-Permitted (node ∷ rest) requested t k h =
        let u = update_node_geometry quota known cmp api node requested t in
        let tried = update-Permitted P Q quota known cmp api node requested t k.0 h in
        elim (Bool-cases (updated? quota known cmp api u.0)) [
          | inl e ↦ rw (try_repartition, e) tried
          | inr e ↦ rw (try_repartition, e) (try_repartition-Permitted rest requested u.1 k.1 tried)
        ]

    try_plan-Permitted :
        (nodes : List KubeNode) (pods : List Pod) (t : Requests)
        → All
            (λ node.
              (after : GoMap String String)
              → IsPlanned known cmp
                  (build_requested_profiles_plan known cmp quota nodes pods)
                  node
                  after
              → Q node.name node.annotations after)
            nodes
        → All (Permitted P Q) t
        → All (Permitted P Q) (try_plan_without_preemption quota known cmp api nodes pods t).1
    unfolding try_plan_without_preemption
    try_plan-Permitted nodes pods t k h =
        let requested = build_requested_profiles_plan known cmp quota nodes pods in
        elim (Bool-cases (nat_eq (length requested) 0)) [
          | inl e ↦ rw (try_plan_without_preemption, e) h
          | inr e ↦ elim (Bool-cases (profile_already_present known nodes requested)) [
            | inl q ↦ rw (try_plan_without_preemption, e, q) (cleanup-Permitted P Q api nodes t h)
            | inr q ↦
                rw (try_plan_without_preemption, e, q)
                  (try_repartition-Permitted nodes requested t k h)
          ]
        ]

    reconcile_pods-Permitted :
        (preemption : Bool) (nodes : List KubeNode) (pods : List Pod) (t : Requests)
        → ((p : Pod) → IsVictim preemption pods p → P p)
        → ((name : String) (before after : GoMap String String)
            → IsPatch nodes pods name before after
            → Q name before after)
        → All (Permitted P Q) t
        → All (Permitted P Q) (reconcile_pods quota known cmp api preemption nodes pods t).1
    unfolding reconcile_pods try_preemption
    reconcile_pods-Permitted preemption nodes [] t kp kq h = cleanup-Permitted P Q api nodes t h
    reconcile_pods-Permitted preemption nodes (p ∷ rest) t kp kq h =
        let u = try_plan_without_preemption quota known cmp api nodes (p ∷ rest) t in
        let planned =
          try_plan-Permitted nodes (p ∷ rest) t
            (All-map {P = λ n. Among n nodes}
              (λ node m after w.
                kq node.name node.annotations after (record {
                  node = node;
                  among = m;
                  name_eq = refl;
                  before_eq = refl;
                  planned = w;
                }))
              nodes (All-Among nodes))
            h in
        elim (Option-cases u.0) [
          | inl e ↦ rw (reconcile_pods, e) planned
          | inr (done, e) ↦ elim (Bool-cases done) [
            | inl d ↦ rw (reconcile_pods, e, d) planned
            | inr d ↦ elim (Bool-cases preemption) [
              | inr q ↦ rw (reconcile_pods, e, d, q) planned
              | inl q ↦
                  rw (reconcile_pods, e, d, q)
                    (try_preemption_on-Permitted P Q quota known cmp api nodes p u.1
                      (λ name victim c. kp victim (record {
                        allowed = q;
                        target = p;
                        behind = rest;
                        pods_eq = refl;
                        node_name = name;
                        candidate = c;
                      }))
                      planned)
            ]
          ]
        ]

  abbrev pub listed {ℓ} : {A : Type ℓ} → Option (List A) → List A
  listed none = []
  listed (some l) = l

  -- The pods that Reconcile considers, of the answers to its first two calls.
  abbrev pub considered : List Pod
  considered =
      sort_pods_by_priority_and_age
        (pending_mig_pods quota known cmp api (listed (api.pods (list_nodes ∷ []))))

  reads :
      (P : Pod → Type 0) (Q : String → GoMap String String → GoMap String String → Type 0)
      → All (Permitted P Q) (list_nodes ∷ list_pods ∷ [])
  reads P Q = (tt, (tt, tt))

  -- Whatever the API answers, Reconcile evicts a pod only with preemption on, and only where the pod is
  -- a candidate for the first of the sorted waiting pods; and it writes the annotations of a node only
  -- where the node, which is one of the listed ones, can be read and repartitioned so that it provides
  -- the plan for the waiting pods, and then it writes the specs of that geometry.
  pub reconcile_requests :
      (preemption : Bool)
      → All
          (Permitted
            (IsVictim preemption considered)
            (IsPatch (listed (api.mig_nodes [])) considered))
          (reconcile quota known cmp api preemption []).1
  unfolding reconcile
  reconcile_requests preemption = from_nodes (api.mig_nodes []) refl
    where
      Goal : Type 0
      Goal =
          All
            (Permitted (IsVictim preemption considered)
              (IsPatch (listed (api.mig_nodes [])) considered))
            (reconcile quota known cmp api preemption []).1

      from_nodes : (o : Option (List KubeNode)) → api.mig_nodes [] ≡ o → Goal
      from_nodes none e = rw (reconcile, e) (tt, tt)
      from_nodes (some []) e = rw (reconcile, e) (tt, tt)
      from_nodes (some (n ∷ nodes)) e = elim (Option-cases (api.pods (list_nodes ∷ []))) [
        | inl d ↦ rw (reconcile, e, d) (tt, (tt, tt))
        | inr (pods, d) ↦
            let waiting =
              sort_pods_by_priority_and_age (pending_mig_pods quota known cmp api pods) in
            let P = IsVictim preemption waiting in
            let Q = IsPatch (n ∷ nodes) waiting in
            rw (reconcile, e, d)
              (reconcile_pods-Permitted P Q preemption (n ∷ nodes) waiting
                (list_nodes ∷ list_pods ∷ []) (λ p h. h) (λ name before after h. h) (reads P Q))
      ]
