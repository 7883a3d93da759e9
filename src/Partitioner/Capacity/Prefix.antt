-- ===== src/Partitioner/Capacity/Prefix.antt =====
-- The plan of buildRequestedProfilesPlan, against the longest prefix of the waiting pods that can be
-- served.
use walkai_nos.Base.{
  ◌≡◌, refl, Bool, true, false, ◌||◌, List, [], ◌∷◌, ◌++◌, Bool-cases, inl, inr, ap,
}
use walkai_nos.GoMap.{GoMap}
use walkai_nos.Geometry.{Slice, Slice_eq, Geometry}
use walkai_nos.Geometry.Compare.{MapCompare}
use walkai_nos.Kube.{KubeNode, Pod}
use walkai_nos.Pods.{Quota, get_requested_profiles}
use walkai_nos.Mig.Gpu.{Model}
use walkai_nos.Partitioner.Capacity.{
  Requested, add_requested, profile_already_present, can_repartition, plan_from,
  build_requested_profiles_plan,
}

module _ (known : GoMap Model (List Geometry)) (cmp : MapCompare Slice) (quota : Quota)
    (nodes : List KubeNode) where
  -- Some node has the free devices for each profile, or one node can be repartitioned for all.
  abbrev pub feasible : Requested → Bool
  feasible requested =
      profile_already_present known nodes requested || can_repartition known cmp nodes requested

  -- What the pods request together, on top of `requested`.
  abbrev pub total : Requested → List Pod → Requested
  total requested [] = requested
  total requested (p ∷ rest) = total (add_requested (get_requested_profiles quota p) requested) rest

  -- Every prefix is feasible, on top of `requested`.
  abbrev pub EachFeasible : Requested → List Pod → Type 0
  EachFeasible requested [] = Unit
  EachFeasible requested (p ∷ rest) =
      let more = add_requested (get_requested_profiles quota p) requested in
      (feasible more ≡ true) × EachFeasible more rest

  -- The next pod, where there is one, is not feasible as well.
  abbrev pub Stops : Requested → List Pod → Type 0
  Stops requested [] = Unit
  Stops requested (p ∷ rest) =
      feasible (add_requested (get_requested_profiles quota p) requested) ≡ false

  -- `plan` is the request of the longest prefix of `pods` that is feasible with all its prefixes.
  pub record IsLongest (requested : Requested) (pods : List Pod) (plan : Requested) : Type 0 where
    pub served : List Pod
    pub left : List Pod
    pub pods_eq : pods ≡ served ++ left
    pub each : EachFeasible requested served
    pub stops : Stops (total requested served) left
    pub plan_eq : plan ≡ total requested served

  serve :
      (p : Pod) (rest : List Pod) (requested : Requested) {plan : Requested}
      → feasible (add_requested (get_requested_profiles quota p) requested) ≡ true
      → IsLongest (add_requested (get_requested_profiles quota p) requested) rest plan
      → IsLongest requested (p ∷ rest) plan
  serve p rest requested f h = record {
    served = p ∷ h.served;
    left = h.left;
    pods_eq = ap (λ l. p ∷ l) h.pods_eq;
    each = (f, h.each);
    stops = h.stops;
    plan_eq = h.plan_eq;
  }

  plan_from-IsLongest :
      (pods : List Pod) (requested : Requested)
      → IsLongest requested pods (plan_from known cmp quota nodes pods requested requested)
  unfolding plan_from
  plan_from-IsLongest [] requested = record {
    served = [];
    left = [];
    pods_eq = refl;
    each = tt;
    stops = tt;
    plan_eq = refl;
  }
  plan_from-IsLongest (p ∷ rest) requested =
      let more = add_requested (get_requested_profiles quota p) requested in
      elim (Bool-cases (profile_already_present known nodes more)) [
        | inl e ↦ rw (e) (serve p rest requested (rw (e) refl) (plan_from-IsLongest rest more))
        | inr e ↦ elim (Bool-cases (can_repartition known cmp nodes more)) [
          | inl d ↦
              rw (e, d) (serve p rest requested (rw (e, d) refl) (plan_from-IsLongest rest more))
          | inr d ↦
              rw (e, d)
                (record {
                  served = [];
                  left = p ∷ rest;
                  pods_eq = refl;
                  each = tt;
                  stops = rw (e, d) refl;
                  plan_eq = refl;
                })
        ]
      ]

  -- The plan is the request of the longest prefix of the waiting pods of which every prefix is
  -- feasible: each of its prefixes is feasible, and the prefix that is longer by one pod is not.
  pub build_plan-IsLongest :
      (pods : List Pod)
      → IsLongest [] pods (build_requested_profiles_plan known cmp quota nodes pods)
  unfolding build_requested_profiles_plan
  build_plan-IsLongest pods = plan_from-IsLongest pods []
