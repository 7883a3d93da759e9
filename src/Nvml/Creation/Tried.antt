-- ===== src/Nvml/Creation/Tried.antt =====
-- The permutations that CreateMigDevices tries: one succeeds, or what they created is destroyed.
use walkai_nos.Base.{
  ◌≡◌, refl, subst, ◌⊎◌, inl, inr, List, [], ◌∷◌, ◌++◌, ℕ, ◌+◌, length, Any, arith, length-append,
}
use walkai_nos.Nvml.{
  DeviceHandle, GpuInstance, ComputeInstance, MigProfile, created_gi, created_ci, failed_to_create,
  Log, Driver,
}
use walkai_nos.Nvml.Visit.Along.{Answer-cases}
use walkai_nos.Nvml.Permutation.{Step, stop, go_on, failure, iter_permutations}
use walkai_nos.Nvml.Creation.{cleanup, try_profiles, try_permutation}
use walkai_nos.Nvml.Creation.Balance.{
  Leaves, total, total-snoc, makes_gi, ends_gi, makes_ci, ends_ci, hit_gi, hit_ci, cleanup-Leaves,
  cleanup_steps,
}

-- From log `t` to log `u`, the instances that are created and not destroyed are `n` GPU instances and
-- `n` compute instances if the loop stops, and none if it goes on; nothing is said of an error.
abbrev pub Tried : Log → Log → ℕ → Step → Type 0
Tried t u n stop =
    (gis : List GpuInstance) × (cis : List ComputeInstance) × Leaves t u gis cis
    × (length gis ≡ n)
    × (length cis ≡ n)
Tried t u n go_on = Leaves t u [] []
Tried t u n failure = Unit

Leaves-refl : (t : Log) → Leaves t t [] []
unfolding total
Leaves-refl t = record { gpu_instances = λ g. omega arith; compute_instances = λ c. omega arith }

Leaves-failed :
    (s t : Log) (gis : List GpuInstance) (cis : List ComputeInstance)
    → Leaves s t gis cis
    → Leaves s (t ++ failed_to_create ∷ []) gis cis
Leaves-failed s t gis cis l = record {
  gpu_instances = λ g. omega (
    arith,
    l.gpu_instances g,
    total-snoc (makes_gi g) t failed_to_create,
    total-snoc (ends_gi g) t failed_to_create,
  );
  compute_instances = λ c. omega (
    arith,
    l.compute_instances c,
    total-snoc (makes_ci c) t failed_to_create,
    total-snoc (ends_ci c) t failed_to_create,
  );
}

Leaves-gi :
    (s t : Log) (gi : GpuInstance) (gis : List GpuInstance) (cis : List ComputeInstance)
    → Leaves s t gis cis
    → Leaves s (t ++ created_gi gi ∷ []) (gis ++ gi ∷ []) cis
Leaves-gi s t gi gis cis l = record {
  gpu_instances = λ g. omega (
    arith,
    l.gpu_instances g,
    total-snoc (makes_gi g) t (created_gi gi),
    total-snoc (ends_gi g) t (created_gi gi),
    total-snoc (hit_gi g) gis gi,
  );
  compute_instances = λ c. omega (
    arith,
    l.compute_instances c,
    total-snoc (makes_ci c) t (created_gi gi),
    total-snoc (ends_ci c) t (created_gi gi),
  );
}

Leaves-ci :
    (s t : Log) (ci : ComputeInstance) (gis : List GpuInstance) (cis : List ComputeInstance)
    → Leaves s t gis cis
    → Leaves s (t ++ created_ci ci ∷ []) gis (cis ++ ci ∷ [])
Leaves-ci s t ci gis cis l = record {
  gpu_instances = λ g. omega (
    arith,
    l.gpu_instances g,
    total-snoc (makes_gi g) t (created_ci ci),
    total-snoc (ends_gi g) t (created_ci ci),
  );
  compute_instances = λ c. omega (
    arith,
    l.compute_instances c,
    total-snoc (makes_ci c) t (created_ci ci),
    total-snoc (ends_ci c) t (created_ci ci),
    total-snoc (hit_ci c) cis ci,
  );
}

module _ (d : Driver) (device : DeviceHandle) where
  cleanup-Tried :
      (s t : Log) (n : ℕ) (gis : List GpuInstance) (cis : List ComputeInstance)
      → Leaves s t gis cis
      → Tried s (cleanup d gis cis t).1 n (cleanup d gis cis t).0
  cleanup-Tried s t n gis cis l = elim (cleanup_steps d gis cis t) [
    | inl done ↦ rw done (cleanup-Leaves d s t gis cis l done)
    | inr broken ↦ rw broken tt
  ]

  try_profiles-Tried :
      (mps : List MigProfile) (s t : Log) (n : ℕ) (gis : List GpuInstance)
      (cis : List ComputeInstance)
      → Leaves s t gis cis
      → length gis + length mps ≡ n
      → length cis + length mps ≡ n
      → Tried s (try_profiles d device mps gis cis t).1 n (try_profiles d device mps gis cis t).0
  unfolding try_profiles
  try_profiles-Tried [] s t n gis cis l hg hc = (gis, cis, l, omega (arith, hg), omega (arith, hc))
  try_profiles-Tried (mp ∷ rest) s t n gis cis l hg hc =
      elim (Answer-cases (d.gpu_profile_info t device mp.gi_profile_id)) [
        | inl (c, e) ↦ rw (try_profiles, e) tt
        | inr (gi_info, e) ↦ elim (Answer-cases (d.create_gi t device gi_info)) [
          | inl (c, f) ↦
              rw (try_profiles, e, f)
                (cleanup-Tried s (t ++ failed_to_create ∷ []) n gis cis
                  (Leaves-failed s t gis cis l))
          | inr (gi, f) ↦
              let u = t ++ created_gi gi ∷ [] in
              let more = Leaves-gi s t gi gis cis l in
              elim (Answer-cases
                (d.compute_profile_info u gi mp.ci_profile_id mp.ci_eng_profile_id)) [
                  | inl (c, k) ↦ rw (try_profiles, e, f, k) tt
                  | inr (ci_info, k) ↦ elim (Answer-cases (d.create_ci u gi ci_info)) [
                    | inl (c, m) ↦
                        rw (try_profiles, e, f, k, m)
                          (cleanup-Tried s (u ++ failed_to_create ∷ []) n (gis ++ gi ∷ []) cis
                            (Leaves-failed s u (gis ++ gi ∷ []) cis more))
                    | inr (ci, m) ↦
                        rw (try_profiles, e, f, k, m)
                          (try_profiles-Tried rest s (u ++ created_ci ci ∷ []) n (gis ++ gi ∷ [])
                            (cis ++ ci ∷ []) (Leaves-ci s u ci (gis ++ gi ∷ []) cis more)
                            (omega (arith, hg, length-append gis (gi ∷ [])))
                            (omega (arith, hc, length-append cis (ci ∷ []))))
                  ]
                ]
        ]
      ]

  -- The same of the loop over permutations, of which the last one that was tried succeeds if it stops.
  abbrev pub AllTried : Log → Log → List (List MigProfile) → Step → Type 0
  AllTried t u perms stop = Any (λ perm. Tried t u (length perm) stop) perms
  AllTried t u perms go_on = Leaves t u [] []
  AllTried t u perms failure = Unit

  AllTried-later :
      (t u : Log) (perm : List MigProfile) (rest : List (List MigProfile)) (step : Step)
      → AllTried t u rest step
      → AllTried t u (perm ∷ rest) step
  AllTried-later t u perm rest stop h = inr h
  AllTried-later t u perm rest go_on h = h
  AllTried-later t u perm rest failure h = tt

  pub Step-cases : (s : Step) → (s ≡ stop) ⊎ (s ≡ go_on) ⊎ (s ≡ failure)
  Step-cases stop = inl refl
  Step-cases go_on = inr (inl refl)
  Step-cases failure = inr (inr refl)

  iter-AllTried :
      (perms : List (List MigProfile)) (s t : Log)
      → Leaves s t [] []
      → AllTried s
          (iter_permutations (try_permutation d device) perms t).1
          perms
          (iter_permutations (try_permutation d device) perms t).0
  unfolding iter_permutations
  iter-AllTried [] s t l = l
  iter-AllTried (perm ∷ rest) s t l =
      let tried = try_profiles-Tried perm s t (length perm) [] [] l (omega arith) (omega arith) in
      let u = (try_permutation d device perm t).1 in
      elim (Step-cases (try_permutation d device perm t).0) [
        | inl stopped ↦
            rw (iter_permutations, stopped) (inl (subst (Tried s u (length perm)) stopped tried))
        | inr (inl on) ↦
            rw (iter_permutations, on)
              (AllTried-later s (iter_permutations (try_permutation d device) rest u).1 perm rest
                (iter_permutations (try_permutation d device) rest u).0
                (iter-AllTried rest s u (subst (Tried s u (length perm)) on tried)))
        | inr (inr broken) ↦ rw (iter_permutations, broken) tt
      ]

  -- The permutations of some profiles are tried one after the other. If one succeeds, the instances that
  -- the run created and did not destroy are one GPU instance and one compute instance for each of its
  -- profiles. If none succeeds and there is no error, the run destroyed each instance as often as it
  -- created it.
  pub permutations-Tried :
      (perms : List (List MigProfile)) (t : Log)
      → AllTried t
          (iter_permutations (try_permutation d device) perms t).1
          perms
          (iter_permutations (try_permutation d device) perms t).0
  permutations-Tried perms t = iter-AllTried perms t t (Leaves-refl t)
