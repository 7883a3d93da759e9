-- ===== src/Nvml/Creation/Balance.antt =====
-- The instances that the loop over the permutations of CreateMigDevices leaves behind.
use walkai_nos.Base.{
  ◌≡◌, refl, ◌⊎◌, inl, inr, Bool, true, false, ◌&&◌, List, [], ◌∷◌, ◌++◌, ℕ, ◌+◌, nat_eq,
  Bool-cases, Option-cases, if◌then◌else◌, arith,
}
use walkai_nos.Nvml.{
  GpuInstance, gpu_instance, ComputeInstance, compute_instance, NvmlCall, created_gi, created_ci,
  destroyed_gi, destroyed_ci, Log, Driver,
}
use walkai_nos.Nvml.Deletion.{destroy_ci_logged, destroy_gi_logged}
use walkai_nos.Nvml.Permutation.{go_on, failure}
use walkai_nos.Nvml.Creation.{is_success, cleanup_cis, cleanup_gis, cleanup}

abbrev pub hit_gi : GpuInstance → GpuInstance → ℕ
hit_gi (gpu_instance a) (gpu_instance b) = if nat_eq a b then 1 else 0

abbrev pub hit_ci : ComputeInstance → ComputeInstance → ℕ
hit_ci (compute_instance a) (compute_instance b) = if nat_eq a b then 1 else 0

-- How often an entry creates or destroys the instance.
abbrev pub makes_gi : GpuInstance → NvmlCall → ℕ
makes_gi g (created_gi h) = hit_gi g h
makes_gi g _ = 0

abbrev pub ends_gi : GpuInstance → NvmlCall → ℕ
ends_gi g (destroyed_gi h) = hit_gi g h
ends_gi g _ = 0

abbrev pub makes_ci : ComputeInstance → NvmlCall → ℕ
makes_ci c (created_ci h) = hit_ci c h
makes_ci c _ = 0

abbrev pub ends_ci : ComputeInstance → NvmlCall → ℕ
ends_ci c (destroyed_ci h) = hit_ci c h
ends_ci c _ = 0

unfoldable pub total {ℓ} : {A : Type ℓ} → (A → ℕ) → List A → ℕ
total f [] = 0
total f (x ∷ xs) = f x + total f xs

pub total-append {ℓ} :
    {A : Type ℓ} (f : A → ℕ) (xs ys : List A) → total f (xs ++ ys) ≡ total f xs + total f ys
unfolding total
total-append f [] ys = omega arith
total-append f (x ∷ xs) ys = omega (arith, total-append f xs ys)

pub total-snoc {ℓ} :
    {A : Type ℓ} (f : A → ℕ) (xs : List A) (x : A) → total f (xs ++ x ∷ []) ≡ total f xs + f x
unfolding total
total-snoc f xs x = omega (arith, total-append f xs (x ∷ []))

total_zero {ℓ} : {A : Type ℓ} (xs : List A) → total (λ _. 0) xs ≡ 0
unfolding total
total_zero [] = refl
total_zero (x ∷ xs) = omega (arith, total_zero xs)

-- From log `t` to log `u`, of each instance one was created for each time that it was destroyed and for
-- each time that it stands in the lists.
pub record Leaves (t u : Log) (gis : List GpuInstance) (cis : List ComputeInstance) : Type 0 where
  pub gpu_instances :
      (g : GpuInstance)
      → total (makes_gi g) u + total (ends_gi g) t
        ≡ total (makes_gi g) t + total (ends_gi g) u + total (hit_gi g) gis
  pub compute_instances :
      (c : ComputeInstance)
      → total (makes_ci c) u + total (ends_ci c) t
        ≡ total (makes_ci c) t + total (ends_ci c) u + total (hit_ci c) cis

module _ (d : Driver) where
  and_left : (a b : Bool) → a && b ≡ true → a ≡ true
  and_left true b h = refl
  and_left false b h = cc (h)

  and_right : (a b : Bool) → a && b ≡ true → b ≡ true
  and_right true b h = h
  and_right false b h = cc (h)

  both_done : (b : Bool) → (if b then go_on else failure) ≡ go_on → b ≡ true
  both_done true h = refl
  both_done false h = cc (h)

  destroyed_ci_total :
      (f : NvmlCall → ℕ) (ci : ComputeInstance) (t : Log)
      → is_success (destroy_ci_logged d ci t).0 ≡ true
      → total f (destroy_ci_logged d ci t).1 ≡ total f t + f (destroyed_ci ci)
  unfolding destroy_ci_logged
  destroyed_ci_total f ci t h = elim (Option-cases (d.destroy_ci t ci)) [
    | inl done ↦ rw (destroy_ci_logged, done) (total-snoc f t (destroyed_ci ci))
    | inr (code, e) ↦
        let failed_too : is_success (destroy_ci_logged d ci t).0 ≡ false =
          rw (destroy_ci_logged, e) refl in
        absurd (cc (h, failed_too))
  ]

  cleanup_cis-total :
      (f : NvmlCall → ℕ) (cis : List ComputeInstance) (t : Log)
      → (cleanup_cis d cis t).0 ≡ true
      → total f (cleanup_cis d cis t).1 ≡ total f t + total (λ c. f (destroyed_ci c)) cis
  unfolding cleanup_cis total
  cleanup_cis-total f [] t h = omega arith
  cleanup_cis-total f (ci ∷ rest) t h =
      let (code, u) = destroy_ci_logged d ci t in
      let first =
        destroyed_ci_total f ci t (and_left (is_success code) (cleanup_cis d rest u).0 h) in
      let others =
        cleanup_cis-total f rest u (and_right (is_success code) (cleanup_cis d rest u).0 h) in
      omega (arith, first, others)

  destroyed_gi_total :
      (f : NvmlCall → ℕ) (gi : GpuInstance) (t : Log)
      → is_success (destroy_gi_logged d gi t).0 ≡ true
      → total f (destroy_gi_logged d gi t).1 ≡ total f t + f (destroyed_gi gi)
  unfolding destroy_gi_logged
  destroyed_gi_total f gi t h = elim (Option-cases (d.destroy_gi t gi)) [
    | inl done ↦ rw (destroy_gi_logged, done) (total-snoc f t (destroyed_gi gi))
    | inr (code, e) ↦
        let failed_too : is_success (destroy_gi_logged d gi t).0 ≡ false =
          rw (destroy_gi_logged, e) refl in
        absurd (cc (h, failed_too))
  ]

  cleanup_gis-total :
      (f : NvmlCall → ℕ) (gis : List GpuInstance) (t : Log)
      → (cleanup_gis d gis t).0 ≡ true
      → total f (cleanup_gis d gis t).1 ≡ total f t + total (λ c. f (destroyed_gi c)) gis
  unfolding cleanup_gis total
  cleanup_gis-total f [] t h = omega arith
  cleanup_gis-total f (gi ∷ rest) t h =
      let (code, u) = destroy_gi_logged d gi t in
      let first =
        destroyed_gi_total f gi t (and_left (is_success code) (cleanup_gis d rest u).0 h) in
      let others =
        cleanup_gis-total f rest u (and_right (is_success code) (cleanup_gis d rest u).0 h) in
      omega (arith, first, others)

  cleanup_total :
      (f : NvmlCall → ℕ) (gis : List GpuInstance) (cis : List ComputeInstance) (t : Log)
      → (cleanup d gis cis t).0 ≡ go_on
      → total f (cleanup d gis cis t).1
        ≡ total f t + total (λ c. f (destroyed_ci c)) cis + total (λ g. f (destroyed_gi g)) gis
  unfolding cleanup
  cleanup_total f gis cis t h =
      let (cis_done, u) = cleanup_cis d cis t in
      let (gis_done, v) = cleanup_gis d gis u in
      let done = both_done (cis_done && gis_done) h in
      let first = cleanup_cis-total f cis t (and_left cis_done gis_done done) in
      let second = cleanup_gis-total f gis u (and_right cis_done gis_done done) in
      omega (arith, first, second)

  pub cleanup_steps :
      (gis : List GpuInstance) (cis : List ComputeInstance) (t : Log)
      → ((cleanup d gis cis t).0 ≡ go_on) ⊎ ((cleanup d gis cis t).0 ≡ failure)
  unfolding cleanup
  cleanup_steps gis cis t =
      let (cis_done, u) = cleanup_cis d cis t in
      let (gis_done, v) = cleanup_gis d gis u in
      elim (Bool-cases (cis_done && gis_done)) [
        | inl done ↦ inl (rw done refl)
        | inr broken ↦ inr (rw broken refl)
      ]

  pub cleanup-Leaves :
      (s t : Log) (gis : List GpuInstance) (cis : List ComputeInstance)
      → Leaves s t gis cis
      → (cleanup d gis cis t).0 ≡ go_on
      → Leaves s (cleanup d gis cis t).1 [] []
  unfolding total
  cleanup-Leaves s t gis cis l h = record {
    gpu_instances = λ g. omega (
      arith,
      l.gpu_instances g,
      cleanup_total (makes_gi g) gis cis t h,
      cleanup_total (ends_gi g) gis cis t h,
      total_zero cis,
      total_zero gis,
    );
    compute_instances = λ c. omega (
      arith,
      l.compute_instances c,
      cleanup_total (makes_ci c) gis cis t h,
      cleanup_total (ends_ci c) gis cis t h,
      total_zero cis,
      total_zero gis,
    );
  }
