-- ===== src/Agent/Actuator/Application.antt =====
-- What the application of a plan may ask of the hardware and the API.
use walkai_nos.Base.{
  ◌≡◌, refl, true, false, List, [], ◌∷◌, ◌++◌, map, String, ℤ, All, All-append, All-map, Any, inl,
  inr, ◌⊎◌, Bool, none, some, subst, sym, Bool-cases, Option-cases,
}
use walkai_nos.GoMap.{GoMap}
use walkai_nos.Kube.{KubeNode}
use walkai_nos.Mig.Profile.{Profile}
use walkai_nos.Device.{Device, is_free}
use walkai_nos.Agent.Matching.{flatten_operations}
use walkai_nos.Agent.Plan.{DeleteOperation, MigConfigPlan}
use walkai_nos.Agent.Client.{
  Call, Calls, Clients, not_found, generic, create_groups, create_mig_profiles, group_by_gpu,
  delete_mig_device, create_mig_devices, restart_device_plugin, get_node, patch_annotations,
}
use walkai_nos.Agent.Actuator.{
  OperationStatus, delete_devices, apply_delete_ops, apply_create_ops, rollback_deleted_resources,
  clear_repartitioning_taint, finish_apply, apply_plan, contains_used_resources, without_plan,
  reset_node_spec,
}
use walkai_nos.Partitioner.Taints.{has_repartitioning_taint}

-- The calls of an application, of which the deletions satisfy `D`.
module _ (c : Clients) (D : String → Type 0) where
  abbrev pub Applying : Call → Type 0
  Applying (delete_mig_device id) = D id
  Applying (patch_annotations before after) = ⊥
  Applying _ = Unit

  delete_devices-All :
      (l : List Device) (t : Calls)
      → All (λ r. is_free r ≡ true → D r.device_id) l
      → All Applying t
      → All Applying (delete_devices c l t).1
  unfolding delete_devices
  delete_devices-All [] t k h = h
  delete_devices-All (r ∷ rest) t k h = elim (Bool-cases (is_free r)) [
    | inr f ↦ rw (delete_devices, f) (delete_devices-All rest t k.1 h)
    | inl f ↦
        let later =
          delete_devices-All rest (t ++ delete_mig_device r.device_id ∷ []) k.1
            (All-append Applying t (delete_mig_device r.device_id ∷ []) h (k.0 f, tt)) in
        elim (Option-cases (c.deleted t r.device_id)) [
          | inl e ↦ rw (delete_devices, f, e) later
          | inr (generic, e) ↦ rw (delete_devices, f, e) later
          | inr (not_found, e) ↦ rw (delete_devices, f, e) later
        ]
  ]

  apply_delete_ops-All :
      (ops : List DeleteOperation) (t : Calls)
      → All (λ o. All (λ r. is_free r ≡ true → D r.device_id) o.resources) ops
      → All Applying t
      → All Applying (apply_delete_ops c ops t).1
  unfolding apply_delete_ops
  apply_delete_ops-All [] t k h = h
  apply_delete_ops-All (o ∷ rest) t k h =
      apply_delete_ops-All rest (delete_devices c o.resources t).1 k.1
        (delete_devices-All o.resources t k.0 h)

  create_groups-All :
      (groups : GoMap ℤ (List Profile)) (t : Calls)
      → All Applying t
      → All Applying (create_groups c groups t).1
  unfolding create_groups
  create_groups-All [] t h = h
  create_groups-All ((index, profiles) ∷ rest) t h =
      let names = map (λ p. p.name) profiles in
      let later =
        create_groups-All rest (t ++ create_mig_devices index names ∷ [])
          (All-append Applying t (create_mig_devices index names ∷ []) h (tt, tt)) in
      elim (Bool-cases (c.created t index names)) [
        | inl e ↦ rw (create_groups, e) later
        | inr e ↦ rw (create_groups, e) later
      ]

  rollback-All :
      (profiles : List Profile) (t : Calls)
      → All Applying t
      → All Applying (rollback_deleted_resources c profiles t)
  unfolding rollback_deleted_resources create_mig_profiles
  rollback-All [] t h = h
  rollback-All (p ∷ profiles) t h = create_groups-All (group_by_gpu (p ∷ profiles)) t h

  clear-All : (t : Calls) → All Applying t → All Applying (clear_repartitioning_taint c t)
  unfolding clear_repartitioning_taint
  clear-All t h =
      let asked : All Applying (t ++ get_node ∷ []) =
        All-append Applying t (get_node ∷ []) h (tt, tt) in
      elim (Option-cases (c.node t)) [
        | inl e ↦ rw (clear_repartitioning_taint, e) asked
        | inr (node, e) ↦ elim (Bool-cases (has_repartitioning_taint node.taints)) [
          | inl s ↦
              rw (clear_repartitioning_taint, e, s)
                (All-append Applying (t ++ get_node ∷ []) _ asked (tt, tt))
          | inr s ↦ rw (clear_repartitioning_taint, e, s) asked
        ]
      ]

  finish-All :
      (status : OperationStatus) (t : Calls)
      → All Applying t
      → All Applying (finish_apply c status t).1
  unfolding finish_apply
  finish-All status t h =
      let restarted : All Applying (t ++ restart_device_plugin ∷ []) =
        All-append Applying t (restart_device_plugin ∷ []) h (tt, tt) in
      elim (Bool-cases status.plugin_restart_required) [
        | inr p ↦ elim (Bool-cases status.failed) [
          | inl f ↦ rw (finish_apply, p, f) (clear-All t h)
          | inr f ↦ rw (finish_apply, p, f) h
        ]
        | inl p ↦ elim (Bool-cases (c.restarted t)) [
          | inr r ↦ rw (finish_apply, p, r) (clear-All _ restarted)
          | inl r ↦ elim (Bool-cases status.failed) [
            | inl f ↦ rw (finish_apply, p, r, f) (clear-All _ restarted)
            | inr f ↦ rw (finish_apply, p, r, f) restarted
          ]
        ]
      ]

  pub Applying-All :
      (plan : MigConfigPlan) (t : Calls)
      → contains_used_resources plan.delete_operations ≡ false
      → All (λ o. All (λ r. is_free r ≡ true → D r.device_id) o.resources) plan.delete_operations
      → All Applying t
      → All Applying (apply_plan c plan t).1
  unfolding apply_plan apply_create_ops create_mig_profiles
  Applying-All plan t n k h =
      let u = apply_delete_ops c plan.delete_operations t in
      let deleted = apply_delete_ops-All plan.delete_operations t k h in
      let groups = group_by_gpu (flatten_operations plan.create_operations) in
      let v = create_groups c groups u.1 in
      let created = create_groups-All groups u.1 deleted in
      elim (Bool-cases v.0.1) [
        | inl f ↦ rw (apply_plan, n, f) (finish-All _ _ (rollback-All u.0.1 v.1 created))
        | inr f ↦ rw (apply_plan, n, f) (finish-All _ _ created)
      ]

module _ (c : Clients) where
  -- A free device of a delete operation has the id.
  abbrev pub DeletesFree : List DeleteOperation → String → Type 0
  DeletesFree ops id = Any (λ o. Any (λ r. (r.device_id ≡ id) × (is_free r ≡ true)) o.resources) ops

  -- The node cannot be read, which is an error, or the annotations that it has are replaced by those
  -- without the spec and the plan, with an error if that fails.
  abbrev pub HasReset : Bool × Calls → Type 0
  HasReset r =
      ((c.node [] ≡ none) × (r ≡ (false, get_node ∷ [])))
      ⊎ ((node : KubeNode) × (c.node [] ≡ some node)
          × (r ≡ (
            c.annotations_patched (get_node ∷ []) (without_plan c node.annotations),
            get_node ∷ patch_annotations node.annotations (without_plan c node.annotations) ∷ [],
          )))

  free_among :
      (l : List Device)
      → All
          (λ d. is_free d ≡ true → Any (λ r. (r.device_id ≡ d.device_id) × (is_free r ≡ true)) l)
          l
  free_among [] = tt
  free_among (r ∷ l) = (λ f. inl (refl, f), All-map (λ d g f. inr (g f)) l (free_among l))

  free_in :
      (ops : List DeleteOperation)
      → All (λ o. All (λ r. is_free r ≡ true → DeletesFree ops r.device_id) o.resources) ops
  free_in [] = tt
  free_in (o ∷ ops) = (
    All-map (λ r g f. inl (g f)) o.resources (free_among o.resources),
    All-map (λ p g. All-map (λ r k f. inr (k f)) p.resources g) ops (free_in ops),
  )

  reset-HasReset : HasReset (reset_node_spec c [])
  unfolding reset_node_spec
  reset-HasReset = elim (Option-cases (c.node [])) [
    | inl e ↦ inl (e, rw (reset_node_spec, e) refl)
    | inr (node, e) ↦ inr (node, e, rw (reset_node_spec, e) refl)
  ]

  -- The application of a plan does one of two things. If a device of a delete operation is not free,
  -- it reads the node, which is an error if it fails, and replaces the annotations that the node has
  -- by those without the spec and the plan, with an error if that fails; it calls nothing else.
  -- Otherwise the devices that are deleted are free devices of the delete operations, and no annotation
  -- is written.
  pub apply_plan_calls :
      (plan : MigConfigPlan)
      → ((contains_used_resources plan.delete_operations ≡ true) × HasReset (apply_plan c plan []))
        ⊎ ((contains_used_resources plan.delete_operations ≡ false)
            × All (Applying c (DeletesFree plan.delete_operations)) (apply_plan c plan []).1)
  unfolding apply_plan
  apply_plan_calls plan = elim (Bool-cases (contains_used_resources plan.delete_operations)) [
    | inl e ↦ inl (e, subst HasReset (sym (rw (apply_plan, e) refl)) reset-HasReset)
    | inr e ↦ inr (
      e,
      Applying-All c (DeletesFree plan.delete_operations) plan [] e (free_in plan.delete_operations)
          tt,
    )
  ]
