-- ===== src/Partitioner/Preemption/Victims.antt =====
-- The pods that are found as victims.
use walkai_nos.Base.{
  Any, All-map, String_eq, refl, ◌<◌, ◌<ℤ◌, arith, ◌≡◌, Bool, true, false, Option, none, some, List,
  [], ◌∷◌, ◌++◌, String, ℤ, nat_eq, length, if◌then◌else◌, All, All-append, Bool-cases, inl, inr,
  Option-cases,
}
use walkai_nos.GoMap.{GoMap}
use walkai_nos.Geometry.{Slice, Slice_eq, Geometry}
use walkai_nos.Geometry.Compare.{MapCompare}
use walkai_nos.Kube.{KubeNode, Pod}
use walkai_nos.Pods.{
  Quota, get_requested_profiles, pod_priority_or_default, is_owned_by_daemon_set, is_owned_by_node,
}
use walkai_nos.Mig.Gpu.{Model}
use walkai_nos.Mig.Node.{Node, release_all}
use walkai_nos.Mig.Node.Build.{new_node}
use walkai_nos.Partitioner.Api.{Api, Requests}
use walkai_nos.Partitioner.Order.{sort_stable, before_as_victim}
use walkai_nos.Partitioner.Order.Sorted.{sort_stable-All}
use walkai_nos.Partitioner.Preemption.{
  is_candidate, candidates, list_candidate_victims, offers, select_victims, find_victims,
  victims_of,
}

chosen-All : (P : Pod → Type 0) (b : Bool) (l : List Pod) → All P l → All P (if b then l else [])
chosen-All P true l h = h
chosen-All P false l h = tt

All-zip {ℓ κ μ} :
    {P : Pod → Type ℓ} {Q : Pod → Type κ} {R : Pod → Type μ} (f : (p : Pod) → P p → Q p → R p)
    (l : List Pod)
    → All P l
    → All Q l
    → All R l
All-zip f [] h k = tt
All-zip f (p ∷ l) h k = (f p h.0 k.0, All-zip f l h.1 k.1)

module _ (quota : Quota) where
  abbrev pub IsCandidate : String → ℤ → Pod → Type 0
  IsCandidate node_name target_priority p = is_candidate quota node_name target_priority p ≡ true

  -- On the node, not being deleted, not owned by a daemon set or a node, with a request for some MIG
  -- profile, and of a lower priority.
  abbrev pub IsEvictable : String → ℤ → Pod → Type 0
  IsEvictable node_name target_priority p =
      (p.node_name ≡ node_name)
      × (p.is_deleted ≡ false)
      × (is_owned_by_daemon_set p ≡ false)
      × (is_owned_by_node p ≡ false)
      × (0 < length (get_requested_profiles quota p))
      × (pod_priority_or_default p <ℤ target_priority)

  candidate-IsEvictable :
      (name : String) (priority : ℤ) (p : Pod)
      → IsCandidate name priority p
      → IsEvictable name priority p
  unfolding is_candidate
  candidate-IsEvictable name priority p h = (
    ground (arith, h, String_eq.same_iff p.node_name name),
    ground (arith, h),
    ground (arith, h),
    ground (arith, h),
    ground (arith, h),
    ground (arith, h),
  )

  candidates_listed :
      (name : String) (priority : ℤ) (pods : List Pod)
      → All (λ p. Any (λ q. q ≡ p) pods) (candidates quota name priority pods)
  unfolding candidates
  candidates_listed name priority [] = tt
  candidates_listed name priority (p ∷ rest) =
      let later =
        All-map (λ q h. inr h) (candidates quota name priority rest)
          (candidates_listed name priority rest) in
      elim (Bool-cases (is_candidate quota name priority p)) [
        | inl e ↦ rw (e) (inl refl, later)
        | inr e ↦ rw (e) later
      ]

  -- The call that lists the pods has answered with a list that has the pod.
  abbrev pub IsListed : Api → Requests → Pod → Type 0
  IsListed api t p = (pods : List Pod) × (api.pods t ≡ some pods) × Any (λ q. q ≡ p) pods

  candidates-All :
      (name : String) (priority : ℤ) (pods : List Pod)
      → All (IsCandidate name priority) (candidates quota name priority pods)
  unfolding candidates
  candidates-All name priority [] = tt
  candidates-All name priority (p ∷ rest) = elim (Bool-cases (is_candidate quota name priority p)) [
    | inl e ↦ rw (e) (e, candidates-All name priority rest)
    | inr e ↦ rw (e) (candidates-All name priority rest)
  ]

  module _ (known : GoMap Model (List Geometry)) (cmp : MapCompare Slice) where
    -- The victims are among the candidates, and where there are any the request is feasible.
    select_victims-All :
        (P : Pod → Type 0) (target : GoMap String ℤ) (l : List Pod) (n : Node) (victims : List Pod)
        → All P l
        → All P victims
        → All P (select_victims quota known cmp target l n victims).0
    unfolding select_victims
    select_victims-All P target [] n victims h k = tt
    select_victims-All P target (victim ∷ rest) n victims h k =
        let released = release_all (get_requested_profiles quota victim) n.gpus in
        let working = record n { gpus = released.0 } in
        let more = All-append P victims (victim ∷ []) k (h.0, tt) in
        elim (Bool-cases (nat_eq (length (get_requested_profiles quota victim)) 0)) [
          | inl e ↦ rw (e) (select_victims-All P target rest n victims h.1 k)
          | inr e ↦ elim (Bool-cases released.1) [
            | inr r ↦ rw (e, r) (select_victims-All P target rest working victims h.1 k)
            | inl r ↦ elim (Bool-cases (offers quota known cmp working target)) [
              | inl o ↦ rw (e, r, o) more
              | inr o ↦
                  rw (e, r, o)
                    (select_victims-All P target rest working (victims ++ victim ∷ []) h.1 more)
            ]
          ]
        ]

    -- What the search returns is nothing, or what is selected of the sorted candidates.
    pub data Found (api : Api) (node : KubeNode) (target : Pod) (t : Requests)
        : Option (List Pod × Bool) → Type 0 where
      nothing : Found api node target t none
      no_victims : Found api node target t (some ([], true))
      selected :
          (n : Node) (pods : List Pod)
          → api.pods t ≡ some pods
          → Found api node target t (
              some (
                select_victims quota known cmp
                  (get_requested_profiles quota target)
                  (sort_stable before_as_victim
                    (candidates quota node.name (pod_priority_or_default target) pods))
                  n
                  []))

    find_victims-Found :
        (api : Api) (node : KubeNode) (target : Pod) (t : Requests)
        → Found api node target t (find_victims quota known cmp api node target t).0
    unfolding find_victims list_candidate_victims
    find_victims-Found api node target t = elim (Option-cases (new_node known node)) [
      | inl e ↦ rw (find_victims, e) nothing
      | inr (n, e) ↦
          elim (Bool-cases (offers quota known cmp n (get_requested_profiles quota target))) [
            | inl o ↦ rw (find_victims, e, o) no_victims
            | inr o ↦ elim (Option-cases (api.pods t)) [
              | inl l ↦ rw (find_victims, e, o, l) nothing
              | inr (pods, l) ↦ rw (find_victims, e, o, l) (selected n pods l)
            ]
          ]
    ]

    Found-All :
        (api : Api) (node : KubeNode) (target : Pod) (t : Requests) (o : Option (List Pod × Bool))
        → Found api node target t o
        → All
            (λ p. IsEvictable node.name (pod_priority_or_default target) p × IsListed api t p)
            (victims_of quota known cmp o)
    Found-All api node target t none nothing = tt
    Found-All api node target t (some _) no_victims = tt
    Found-All api node target t (some _) (selected n pods l) =
        let priority = pod_priority_or_default target in
        let P : Pod → Type 0 = λ p. IsEvictable node.name priority p × IsListed api t p in
        let found = candidates quota node.name priority pods in
        let good =
          All-zip
            (λ p test listed. (candidate-IsEvictable node.name priority p test, (pods, l, listed)))
            found (candidates-All node.name priority pods)
            (candidates_listed node.name priority pods) in
        let sorted = sort_stable before_as_victim found in
        let r = select_victims quota known cmp (get_requested_profiles quota target) sorted n [] in
        chosen-All P r.1 r.0 (
          select_victims-All P (get_requested_profiles quota target) sorted n []
            (sort_stable-All before_as_victim P found good) tt)

    -- The pods that are found as victims are pods that the API has listed, on the node, not being
    -- deleted, not owned by a daemon set or a node; each requests a MIG profile, and has a lower
    -- priority than the pod.
    pub find_victims-All :
        (api : Api) (node : KubeNode) (target : Pod) (t : Requests)
        → All
            (λ p. IsEvictable node.name (pod_priority_or_default target) p × IsListed api t p)
            (victims_of quota known cmp (find_victims quota known cmp api node target t).0)
    find_victims-All api node target t =
        Found-All api node target t (find_victims quota known cmp api node target t).0
          (find_victims-Found api node target t)
