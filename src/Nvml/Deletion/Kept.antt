-- ===== src/Nvml/Deletion/Kept.antt =====
-- DeleteAllMigDevicesExcept destroys no instance of a device that is to be kept.
use walkai_nos.Base.{
  ◌≡◌, sym, subst, ap, ◌∙◌, inl, inr, true, false, Option, none, some, List, [], ◌∷◌, ◌++◌, String,
  Bool-cases, Option-cases,
}
use mathlib.Core.List.{append_assoc, append-nil}
use walkai_nos.Agent.State.{in_slice}
use walkai_nos.Nvml.{
  GpuInstance, ComputeInstance, NvmlCall, init, shutdown, created_gi, created_ci, failed_to_create,
  destroyed_gi, destroyed_ci, failed_to_destroy, Log, Driver,
}
use walkai_nos.Nvml.Visit.{each, visit_compute_instances}
use walkai_nos.Nvml.Visit.Along.{Along, each-Along, compute_instances-Along, gpu_instances-Along}
use walkai_nos.Nvml.Deletion.{
  destroy_ci_logged, destroy_gi_logged, known_uuid, delete_ci_except, delete_gi_except,
  delete_device_except, delete_all_mig_devices_except,
}

module _ (d : Driver) (ids : List String) where
  -- The UUID is known, and none of those to be kept.
  abbrev pub Unkept : Option String → Type 0
  Unkept none = ⊥
  Unkept (some id) = in_slice id ids ≡ false

  -- A compute instance is destroyed when its device is known not to be kept; a GPU instance when this
  -- was known of its device at an earlier point of the run.
  abbrev pub IsAllowed : Log → NvmlCall → Type 0
  IsAllowed u (init _) = Unit
  IsAllowed u shutdown = Unit
  IsAllowed u (created_gi gi) = ⊥
  IsAllowed u (created_ci ci) = ⊥
  IsAllowed u failed_to_create = ⊥
  IsAllowed u (destroyed_gi gi) =
      (v : Log) × (w : Log) × (u ≡ v ++ w) × Unkept (known_uuid d v (d.gi_device v gi))
  IsAllowed u (destroyed_ci ci) = Unkept (known_uuid d u (d.ci_device u ci))
  IsAllowed u failed_to_destroy = Unit

  -- From one log to another, by allowed calls only.
  pub data Guarded (t : Log) : Log → Type 0 where
    at_start : Guarded t t
    by_call :
        {u : Log} (call : NvmlCall) → Guarded t u → IsAllowed u call → Guarded t (u ++ call ∷ [])

  pub Guarded-trans : (t u v : Log) → Guarded t u → Guarded u v → Guarded t v
  Guarded-trans t u v g at_start = g
  Guarded-trans t u v g (by_call {u = w} call h a) = by_call call (Guarded-trans t u w g h) a

  Guarded-prefix : (t u : Log) → Guarded t u → (w : Log) × (u ≡ t ++ w)
  Guarded-prefix t u at_start = ([], sym (append-nil t))
  Guarded-prefix t u (by_call {u = v} call h a) =
      let (w, e) = Guarded-prefix t v h in
      (w ++ call ∷ [], ap (λ l. l ++ call ∷ []) e ∙ append_assoc t w (call ∷ []))

  destroy_ci-Guarded :
      (ci : ComputeInstance) (t : Log)
      → Unkept (known_uuid d t (d.ci_device t ci))
      → Guarded t (destroy_ci_logged d ci t).1
  unfolding destroy_ci_logged
  destroy_ci-Guarded ci t h = elim (Option-cases (d.destroy_ci t ci)) [
    | inl done ↦ rw (destroy_ci_logged, done) (by_call (destroyed_ci ci) at_start h)
    | inr (code, e) ↦ rw (destroy_ci_logged, e) (by_call failed_to_destroy at_start tt)
  ]

  destroy_gi-Guarded :
      (gi : GpuInstance) (t u : Log)
      → Unkept (known_uuid d t (d.gi_device t gi))
      → Guarded t u
      → Guarded t (destroy_gi_logged d gi u).1
  unfolding destroy_gi_logged
  destroy_gi-Guarded gi t u h g =
      let (w, whole) = Guarded-prefix t u g in
      elim (Option-cases (d.destroy_gi u gi)) [
        | inl done ↦ rw (destroy_gi_logged, done) (by_call (destroyed_gi gi) g (t, w, whole, h))
        | inr (code, e) ↦ rw (destroy_gi_logged, e) (by_call failed_to_destroy g tt)
      ]

  Guarded-ci : Along Guarded (λ t. at_start) Guarded-trans (delete_ci_except d ids)
  unfolding delete_ci_except
  Guarded-ci ci x t = elim (Option-cases (known_uuid d t (d.ci_device t ci))) [
    | inl unknown ↦ rw (delete_ci_except, unknown) at_start
    | inr (id, e) ↦ elim (Bool-cases (in_slice id ids)) [
      | inl kept ↦ rw (delete_ci_except, e, kept) at_start
      | inr unkept ↦
          rw (delete_ci_except, e, unkept) (destroy_ci-Guarded ci t (subst Unkept (sym e) unkept))
    ]
  ]

  Guarded-gi : Along Guarded (λ t. at_start) Guarded-trans (delete_gi_except d ids)
  unfolding delete_gi_except
  Guarded-gi gi x t = elim (Option-cases (known_uuid d t (d.gi_device t gi))) [
    | inl unknown ↦ rw (delete_gi_except, unknown) at_start
    | inr (id, e) ↦
        let visit = visit_compute_instances d gi (delete_ci_except d ids) x t in
        let visited : Guarded t visit.1 =
          compute_instances-Along Guarded (λ v. at_start) Guarded-trans d gi
            (delete_ci_except d ids) Guarded-ci x t in
        elim (Bool-cases (in_slice id ids)) [
          | inl kept ↦ rw (delete_gi_except, e, kept) at_start
          | inr unkept ↦ elim (Bool-cases visit.0.0) [
            | inr broken ↦ rw (delete_gi_except, e, unkept, broken) visited
            | inl done ↦
                rw (delete_gi_except, e, unkept, done)
                  (destroy_gi-Guarded gi t visit.1 (subst Unkept (sym e) unkept) visited)
          ]
        ]
  ]

  Guarded-device : Along Guarded (λ t. at_start) Guarded-trans (delete_device_except d ids)
  unfolding delete_device_except
  Guarded-device none x t = at_start
  Guarded-device (some (i, device)) x t = elim (Option-cases (d.is_mig_enabled t device)) [
    | inl unknown ↦ rw (delete_device_except, unknown) at_start
    | inr (false, e) ↦ rw (delete_device_except, e) at_start
    | inr (true, e) ↦
        rw (delete_device_except, e)
          (gpu_instances-Along Guarded (λ v. at_start) Guarded-trans d device
            (delete_gi_except d ids) Guarded-gi x t)
  ]

  -- Whatever the driver answers, DeleteAllMigDevicesExcept creates no instance, and destroys an instance
  -- only when it has read that the UUID of its device is known and is none of those to be kept.
  pub delete_all_except-Guarded : (t : Log) → Guarded t (delete_all_mig_devices_except d ids t).1
  unfolding delete_all_mig_devices_except
  delete_all_except-Guarded t =
      let ready = t ++ init true ∷ [] in
      elim (Bool-cases (d.initialized t)) [
        | inr broken ↦ rw (delete_all_mig_devices_except, broken) (by_call (init false) at_start tt)
        | inl works ↦
            rw (delete_all_mig_devices_except, works)
              (by_call shutdown
                (Guarded-trans t ready
                  (each (delete_device_except d ids) (d.devices ready) tt ready).1
                  (by_call (init true) at_start tt)
                  (each-Along Guarded (λ v. at_start) Guarded-trans (delete_device_except d ids)
                    Guarded-device (d.devices ready) tt ready))
                tt)
      ]
