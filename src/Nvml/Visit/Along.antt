-- ===== src/Nvml/Visit/Along.antt =====
-- What holds along each visit holds along the visits of all instances.
use walkai_nos.Base.{◌≡◌, refl, ◌⊎◌, inl, inr, List, [], ◌∷◌, ℕ, Bool-cases}
use walkai_nos.Nvml.{
  Code, Answer, success, failed, code_not_found, code_not_supported, code_invalid_argument,
  code_other, DeviceHandle, GpuInstance, ComputeInstance, Log, Driver,
}
use walkai_nos.Nvml.Visit.{
  Visitor, counter, each, visit_compute_profile, visit_compute_instances, visit_gpu_profile,
  visit_gpu_instances,
}

pub Answer-cases :
    {A : Type 0} (a : Answer A) → ((c : Code) × (a ≡ failed c)) ⊎ ((x : A) × (a ≡ success x))
Answer-cases (failed c) = inl (c, refl)
Answer-cases (success x) = inr (x, refl)

-- A relation between the calls before and behind a step, which can be put together.
module _ (R : Log → Log → Type 0) (same : (t : Log) → R t t)
    (both : (t u v : Log) → R t u → R u v → R t v) where
  abbrev pub Along : {A X : Type 0} → Visitor A X → Type 0
  Along {A = A} {X = X} f = (a : A) (x : X) (t : Log) → R t (f a x t).1

  pub each-Along :
      {A X : Type 0} (f : Visitor A X)
      → Along f
      → (l : List A) (x : X) (t : Log) → R t (each f l x t).1
  unfolding each
  each-Along f h [] x t = same t
  each-Along f h (a ∷ rest) x t =
      let u = (f a x t).1 in
      elim (Bool-cases (f a x t).0.0) [
        | inl on ↦
            rw (each, on)
              (both t u (each f rest (f a x t).0.1 u).1 (h a x t)
                (each-Along f h rest (f a x t).0.1 u))
        | inr ended ↦ rw (each, ended) (h a x t)
      ]

  module _ {X : Type 0} (d : Driver) where
    compute_profile-Along :
        (gi : GpuInstance) (f : Visitor ComputeInstance X) (j : ℕ)
        → Along f
        → Along (visit_compute_profile d gi f j)
    unfolding visit_compute_profile
    compute_profile-Along gi f j h k x t = elim (Answer-cases (d.compute_profile_info t gi j k)) [
      | inl (code_not_found, e) ↦ rw (visit_compute_profile, e) (same t)
      | inl (code_not_supported, e) ↦ rw (visit_compute_profile, e) (same t)
      | inl (code_invalid_argument, e) ↦ rw (visit_compute_profile, e) (same t)
      | inl (code_other, e) ↦ rw (visit_compute_profile, e) (same t)
      | inr (info, e) ↦ elim (Answer-cases (d.compute_instances t gi info)) [
        | inl (c, k) ↦ rw (visit_compute_profile, e, k) (same t)
        | inr (l, k) ↦ rw (visit_compute_profile, e, k) (each-Along f h l x t)
      ]
    ]

    pub compute_instances-Along :
        (gi : GpuInstance) (f : Visitor ComputeInstance X)
        → Along f
        → (x : X) (t : Log) → R t (visit_compute_instances d gi f x t).1
    unfolding visit_compute_instances
    compute_instances-Along gi f h x t =
        let engines = counter 0 d.compute_instance_engine_profile_count in
        each-Along (λ j. each (visit_compute_profile d gi f j) engines)
          (λ j.
            each-Along (visit_compute_profile d gi f j) (compute_profile-Along gi f j h) engines)
          (counter 0 d.compute_instance_profile_count) x t

    gpu_profile-Along :
        (device : DeviceHandle) (f : Visitor GpuInstance X)
        → Along f
        → Along (visit_gpu_profile d device f)
    unfolding visit_gpu_profile
    gpu_profile-Along device f h i x t = elim (Answer-cases (d.gpu_profile_info t device i)) [
      | inl (code_not_found, e) ↦ rw (visit_gpu_profile, e) (same t)
      | inl (code_not_supported, e) ↦ rw (visit_gpu_profile, e) (same t)
      | inl (code_invalid_argument, e) ↦ rw (visit_gpu_profile, e) (same t)
      | inl (code_other, e) ↦ rw (visit_gpu_profile, e) (same t)
      | inr (info, e) ↦ elim (Answer-cases (d.gpu_instances t device info)) [
        | inl (c, k) ↦ rw (visit_gpu_profile, e, k) (same t)
        | inr (l, k) ↦ rw (visit_gpu_profile, e, k) (each-Along f h l x t)
      ]
    ]

    pub gpu_instances-Along :
        (device : DeviceHandle) (f : Visitor GpuInstance X)
        → Along f
        → (x : X) (t : Log) → R t (visit_gpu_instances d device f x t).1
    unfolding visit_gpu_instances
    gpu_instances-Along device f h x t =
        each-Along (visit_gpu_profile d device f) (gpu_profile-Along device f h)
          (counter 0 d.gpu_instance_profile_count) x t
