-- ===== src/Nvml/Visit.antt =====
-- visitGpuInstances and visitComputeInstances: a visitor is called on each instance until it fails.
pub mod Along
use walkai_nos.Base.{Bool, true, false, List, [], ◌∷◌, ℕ, zero, suc, ◌+◌, if◌then◌else◌}
use walkai_nos.Nvml.{
  Answer, success, failed, code_not_found, code_not_supported, code_invalid_argument, code_other,
  DeviceHandle, GpuInstance, ComputeInstance, Log, Driver,
}

-- 0, 1, and so on: the values of a loop's counter.
unfoldable pub counter : ℕ → ℕ → List ℕ
counter i zero = []
counter i (suc rounds) = i ∷ counter (i + 1) rounds

-- A visitor that keeps a value of type `X`: whether to go on, the value, and the calls.
abbrev pub Visitor : Type 0 → Type 0 → Type 0
Visitor A X = A → X → Log → (Bool × X) × Log

module _ {A X : Type 0} (f : Visitor A X) where
  unfoldable pub each : List A → X → Log → (Bool × X) × Log
  each [] x t = ((true, x), t)
  each (a ∷ rest) x t =
      let ((go_on, y), u) = f a x t in
      let later = each rest y u in if go_on then later else ((false, y), u)

module _ {X : Type 0} (d : Driver) where
  unfoldable pub visit_compute_profile : GpuInstance → Visitor ComputeInstance X → ℕ → Visitor ℕ X
  unfolding each
  visit_compute_profile gi f j k x t = elim (d.compute_profile_info t gi j k) [
    | failed code_not_supported ↦ ((true, x), t)
    | failed code_invalid_argument ↦ ((true, x), t)
    | failed code_not_found ↦ ((false, x), t)
    | failed code_other ↦ ((false, x), t)
    | success info ↦ elim (d.compute_instances t gi info) [
      | failed _ ↦ ((false, x), t)
      | success instances ↦ each f instances x t
    ]
  ]

  unfoldable pub visit_compute_instances :
      GpuInstance → Visitor ComputeInstance X → X → Log → (Bool × X) × Log
  unfolding each counter visit_compute_profile
  visit_compute_instances gi f x t =
      each
        (λ j.
          each (visit_compute_profile gi f j) (counter 0 d.compute_instance_engine_profile_count))
        (counter 0 d.compute_instance_profile_count) x t

  unfoldable pub visit_gpu_profile : DeviceHandle → Visitor GpuInstance X → Visitor ℕ X
  unfolding each
  visit_gpu_profile device f i x t = elim (d.gpu_profile_info t device i) [
    | failed code_not_found ↦ ((true, x), t)
    | failed code_not_supported ↦ ((true, x), t)
    | failed code_invalid_argument ↦ ((true, x), t)
    | failed code_other ↦ ((false, x), t)
    | success info ↦ elim (d.gpu_instances t device info) [
      | failed _ ↦ ((false, x), t)
      | success instances ↦ each f instances x t
    ]
  ]

  unfoldable pub visit_gpu_instances :
      DeviceHandle → Visitor GpuInstance X → X → Log → (Bool × X) × Log
  unfolding each counter visit_gpu_profile
  visit_gpu_instances device f x t =
      each (visit_gpu_profile device f) (counter 0 d.gpu_instance_profile_count) x t
