-- ===== src/Nvml/Creation/Created.antt =====
-- What a successful CreateMigDevices leaves behind.
use walkai_nos.Base.{
  ◌≡◌, refl, subst, ◌∙◌, true, false, inl, inr, Option, none, some, List, [], ◌∷◌, ◌++◌, map, ℕ,
  zero, suc, ◌<◌, nat_eq, length, All, Any, Bool-cases, Option-cases, arith, length-append, ℤ,
  if◌then◌else◌,
}
use walkai_nos.Geometry.{ProfileName}
use walkai_nos.Agent.Client.{ClientError, generic}
use walkai_nos.Nvml.{
  DeviceHandle, GpuInstance, ComputeInstance, MigProfile, init, shutdown, Log, Driver,
}
use walkai_nos.Nvml.Visit.Along.{Answer-cases}
use walkai_nos.Nvml.Permutation.{stop, element_at, permutation, permutations, iter_permutations}
use walkai_nos.Nvml.Creation.{
  try_permutation, parse_mig_profiles, create_on, create_profiles, create_mig_devices,
}
use walkai_nos.Nvml.Creation.Balance.{Leaves, total-snoc, makes_gi, ends_gi, makes_ci, ends_ci}
use walkai_nos.Nvml.Creation.Tried.{Tried, AllTried, Step-cases, permutations-Tried}

-- What the generator of permutations gives for `n`: lists of `n` indices below `n`.
abbrev pub IsGenerator : (ℕ → List (List ℕ)) → Type 0
IsGenerator orders = (n : ℕ) → All (λ order. (length order ≡ n) × All (λ i. i < n) order) (orders n)

length-element_at :
    {A : Type 0} (source : List A) (i : ℕ) → i < length source → length (element_at source i) ≡ 1
unfolding element_at
length-element_at [] i h = absurd (omega arith)
length-element_at (x ∷ xs) zero h = refl
length-element_at (x ∷ xs) (suc i) h = length-element_at xs i (omega (arith, h))

length-permutation :
    {A : Type 0} (source : List A) (order : List ℕ)
    → All (λ i. i < length source) order
    → length (permutation source order) ≡ length order
unfolding permutation
length-permutation source [] h = refl
length-permutation source (i ∷ rest) h = omega (
  arith,
  length-append (element_at source i) (permutation source rest),
  length-element_at source i h.0,
  length-permutation source rest h.1,
)

-- What a run that has created `n` devices leaves behind.
abbrev pub Created : Log → Log → ℕ → Type 0
Created t u n =
    (gis : List GpuInstance) × (cis : List ComputeInstance) × Leaves t u gis cis
    × (length gis ≡ n)
    × (length cis ≡ n)

Created-Any :
    (t u : Log) (mps : List MigProfile) (orders : List (List ℕ))
    → All (λ order. (length order ≡ length mps) × All (λ i. i < length mps) order) orders
    → Any (λ perm. Tried t u (length perm) stop) (map (permutation mps) orders)
    → Created t u (length mps)
Created-Any t u mps [] ok any = absurd any
Created-Any t u mps (order ∷ rest) ok (inl h) =
    subst (Created t u) (length-permutation mps order ok.0.1 ∙ ok.0.0) h
Created-Any t u mps (order ∷ rest) ok (inr later) = Created-Any t u mps rest ok.1 later

Created-permutations :
    (t u : Log) (mps : List MigProfile) (orders : ℕ → List (List ℕ))
    → IsGenerator orders
    → Any (λ perm. Tried t u (length perm) stop) (permutations orders mps)
    → Created t u (length mps)
unfolding permutations
Created-permutations t u mps orders ok any = elim (Bool-cases (nat_eq (length mps) 0)) [
  | inl nothing ↦ absurd (
      subst
        (λ b.
          Any (λ perm. Tried t u (length perm) stop)
            (if b then [] else map (permutation mps) (orders (length mps))))
        nothing any)
  | inr more ↦ Created-Any t u mps (orders (length mps)) (ok (length mps)) (
      subst
        (λ b.
          Any (λ perm. Tried t u (length perm) stop)
            (if b then [] else map (permutation mps) (orders (length mps))))
        more any)
]

Leaves-around :
    (t u : Log) (gis : List GpuInstance) (cis : List ComputeInstance)
    → Leaves (t ++ init true ∷ []) u gis cis
    → Leaves t (u ++ shutdown ∷ []) gis cis
Leaves-around t u gis cis l = record {
  gpu_instances = λ g. omega (
    arith,
    l.gpu_instances g,
    total-snoc (makes_gi g) t (init true),
    total-snoc (ends_gi g) t (init true),
    total-snoc (makes_gi g) u shutdown,
    total-snoc (ends_gi g) u shutdown,
  );
  compute_instances = λ c. omega (
    arith,
    l.compute_instances c,
    total-snoc (makes_ci c) t (init true),
    total-snoc (ends_ci c) t (init true),
    total-snoc (makes_ci c) u shutdown,
    total-snoc (ends_ci c) u shutdown,
  );
}

Created-around :
    (t u : Log) (n : ℕ) → Created (t ++ init true ∷ []) u n → Created t (u ++ shutdown ∷ []) n
Created-around t u n (gis, cis, l, hg, hc) = (gis, cis, Leaves-around t u gis cis l, hg, hc)

abbrev OfLength : ℕ → Option (List MigProfile) → Type 0
OfLength n none = Unit
OfLength n (some mps) = length mps ≡ n

abbrev OnSuccess : Log → ℕ → Option ClientError × Log → Type 0
OnSuccess t n r = r.0 ≡ none → Created t r.1 n

OnSuccess-around :
    (t : Log) (n : ℕ) (r : Option ClientError × Log)
    → OnSuccess (t ++ init true ∷ []) n r
    → OnSuccess t n (r.0, r.1 ++ shutdown ∷ [])
OnSuccess-around t n r f h = Created-around t r.1 n (f h)

module _ (d : Driver) (orders : ℕ → List (List ℕ)) (ok : IsGenerator orders) where
  create_on-Created :
      (device : DeviceHandle) (mps : List MigProfile) (t : Log)
      → OnSuccess t (length mps) (create_on d orders device mps t)
  unfolding create_on
  create_on-Created device mps t =
      let run = iter_permutations (try_permutation d device) (permutations orders mps) t in
      let tried = permutations-Tried d device (permutations orders mps) t in
      elim (Option-cases (d.is_mig_capable t device)) [
        | inl unknown ↦ rw (create_on, unknown) (λ h. cc (h))
        | inr (false, e) ↦ rw (create_on, e) (λ h. cc (h))
        | inr (true, e) ↦ elim (Step-cases d device run.0) [
          | inl stopped ↦
              rw (create_on, e)
                (λ _.
                  Created-permutations t run.1 mps orders ok
                    (subst (AllTried d device t run.1 (permutations orders mps)) stopped tried))
          | inr (inl on) ↦ rw (create_on, e, on) (λ h. cc (h))
          | inr (inr broken) ↦ rw (create_on, e, broken) (λ h. cc (h))
        ]
      ]

  create_profiles-Created :
      (mps : List MigProfile) (gpu_index : ℤ) (t : Log)
      → OnSuccess t (length mps) (create_profiles d orders mps gpu_index t)
  unfolding create_profiles
  create_profiles-Created mps gpu_index t = elim (Answer-cases (d.handle_by_index t gpu_index)) [
    | inl (code, e) ↦ rw (create_profiles, e) (λ h. cc (h))
    | inr (handle, e) ↦ elim (Option-cases (d.new_device t handle)) [
      | inl unknown ↦ rw (create_profiles, e, unknown) (λ h. cc (h))
      | inr (device, f) ↦ rw (create_profiles, e, f) (create_on-Created device mps t)
    ]
  ]

  parsed-Length : (names : List ProfileName) → OfLength (length names) (parse_mig_profiles d names)
  unfolding parse_mig_profiles
  parsed-Length [] = refl
  parsed-Length (name ∷ rest) =
      let others = parsed-Length rest in
      elim (Option-cases (d.parse_mig_profile name)) [
        | inl invalid ↦ rw (parse_mig_profiles, invalid) tt
        | inr (mp, e) ↦ elim (Option-cases (parse_mig_profiles d rest)) [
          | inl invalid ↦ rw (parse_mig_profiles, e, invalid) tt
          | inr (mps, f) ↦
              let same : length mps ≡ length rest = subst (OfLength (length rest)) f others in
              rw (parse_mig_profiles, e, f) (omega (arith, same))
        ]
      ]

  create_ready-Created :
      (names : List ProfileName) (gpu_index : ℤ) (t : Log)
      → OnSuccess t (length names) (elim (parse_mig_profiles d names) [
        | none ↦ (some generic, t)
        | some mps ↦ create_profiles d orders mps gpu_index t
      ])
  create_ready-Created names gpu_index t =
      let parsed = parsed-Length names in
      elim (Option-cases (parse_mig_profiles d names)) [
        | inl invalid ↦ rw invalid (λ h. cc (h))
        | inr (mps, e) ↦
            let same : length mps ≡ length names = subst (OfLength (length names)) e parsed in
            rw e (
              subst (λ n. OnSuccess t n (create_profiles d orders mps gpu_index t)) same
                (create_profiles-Created mps gpu_index t))
      ]

  create_mig_devices-OnSuccess :
      (names : List ProfileName) (gpu_index : ℤ) (t : Log)
      → OnSuccess t (length names) (create_mig_devices d orders names gpu_index t)
  unfolding create_mig_devices
  create_mig_devices-OnSuccess names gpu_index t =
      let run : Option ClientError × Log = elim (parse_mig_profiles d names) [
        | none ↦ (some generic, t ++ init true ∷ [])
        | some mps ↦ create_profiles d orders mps gpu_index (t ++ init true ∷ [])
      ] in
      elim (Bool-cases (d.initialized t)) [
        | inr failed_init ↦ rw (create_mig_devices, failed_init) (λ h. cc (h))
        | inl initialized ↦
            rw (create_mig_devices, initialized)
              (OnSuccess-around t (length names) run
                (create_ready-Created names gpu_index (t ++ init true ∷ [])))
      ]

  -- The generator gives permutations, and the devices of some profiles are created without an error. Then
  -- the instances that the run created and did not destroy are one GPU instance and one compute instance
  -- for each profile.
  pub create_mig_devices-Created :
      (names : List ProfileName) (gpu_index : ℤ) (t : Log)
      → (create_mig_devices d orders names gpu_index t).0 ≡ none
      → Created t (create_mig_devices d orders names gpu_index t).1 (length names)
  create_mig_devices-Created names gpu_index t h = create_mig_devices-OnSuccess names gpu_index t h
