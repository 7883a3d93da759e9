-- ===== src/Nvml/Creation.antt =====
-- CreateMigDevices.
pub mod Balance
pub mod Tried
pub mod Created
use walkai_nos.Base.{
  Bool, true, false, ◌&&◌, Option, none, some, List, [], ◌∷◌, ◌++◌, ℕ, ℤ, if◌then◌else◌,
}
use walkai_nos.Geometry.{ProfileName}
use walkai_nos.Agent.Client.{ClientError, generic}
use walkai_nos.Nvml.{
  Code, Answer, success, failed, DeviceHandle, GpuInstance, ComputeInstance, MigProfile, NvmlCall,
  init, shutdown, created_gi, created_ci, failed_to_create, Log, Driver,
}
use walkai_nos.Nvml.Deletion.{destroy_ci_logged, destroy_gi_logged, not_found_or_generic}
use walkai_nos.Nvml.Permutation.{Step, stop, go_on, failure, permutations, iter_permutations}

abbrev pub is_success : Option Code → Bool
is_success none = true
is_success (some _) = false

module _ (d : Driver) where
  -- The two loops of `cleanup`: whether there was no error. They go on behind an error.
  unfoldable pub cleanup_cis : List ComputeInstance → Log → Bool × Log
  unfolding destroy_ci_logged
  cleanup_cis [] t = (true, t)
  cleanup_cis (ci ∷ rest) t =
      let (code, u) = destroy_ci_logged d ci t in
      let (done, v) = cleanup_cis rest u in (is_success code && done, v)

  unfoldable pub cleanup_gis : List GpuInstance → Log → Bool × Log
  unfolding destroy_gi_logged
  cleanup_gis [] t = (true, t)
  cleanup_gis (gi ∷ rest) t =
      let (code, u) = destroy_gi_logged d gi t in
      let (done, v) = cleanup_gis rest u in (is_success code && done, v)

  unfoldable pub cleanup : List GpuInstance → List ComputeInstance → Log → Step × Log
  unfolding cleanup_cis cleanup_gis
  cleanup gis cis t =
      let (cis_done, u) = cleanup_cis cis t in
      let (gis_done, v) = cleanup_gis gis u in (if cis_done && gis_done then go_on else failure, v)

  -- The loop over the profiles of a permutation, with the instances that are created.
  unfoldable pub try_profiles :
      DeviceHandle → List MigProfile → List GpuInstance → List ComputeInstance → Log → Step × Log
  unfolding cleanup
  try_profiles device [] gis cis t = (stop, t)
  try_profiles device (mp ∷ rest) gis cis t = elim (d.gpu_profile_info t device mp.gi_profile_id) [
    | failed _ ↦ (failure, t)
    | success gi_info ↦ elim (d.create_gi t device gi_info) [
      | failed _ ↦ cleanup gis cis (t ++ failed_to_create ∷ [])
      | success gi ↦
          let u = t ++ created_gi gi ∷ [] in
          elim (d.compute_profile_info u gi mp.ci_profile_id mp.ci_eng_profile_id) [
            | failed _ ↦ (failure, u)
            | success ci_info ↦ elim (d.create_ci u gi ci_info) [
              | failed _ ↦ cleanup (gis ++ gi ∷ []) cis (u ++ failed_to_create ∷ [])
              | success ci ↦
                  try_profiles device rest (gis ++ gi ∷ []) (cis ++ ci ∷ [])
                    (u ++ created_ci ci ∷ [])
            ]
          ]
    ]
  ]

  abbrev pub try_permutation : DeviceHandle → List MigProfile → Log → Step × Log
  try_permutation device perm t = try_profiles device perm [] [] t

  unfoldable pub parse_mig_profiles : List ProfileName → Option (List MigProfile)
  parse_mig_profiles [] = some []
  parse_mig_profiles (name ∷ rest) =
      let later = parse_mig_profiles rest in
      elim (d.parse_mig_profile name) [
        | none ↦ none
        | some mp ↦ elim later [ none ↦ none | some mps ↦ some (mp ∷ mps) ]
      ]

  -- The error for the end of the loop over the permutations.
  abbrev pub creation_error : Step → Option ClientError
  creation_error stop = none
  creation_error go_on = some generic
  creation_error failure = some generic

  module _ (orders : ℕ → List (List ℕ)) where
    unfoldable pub create_on : DeviceHandle → List MigProfile → Log → Option ClientError × Log
    unfolding permutations iter_permutations try_profiles
    create_on device mps t = elim (d.is_mig_capable t device) [
      | none ↦ (some generic, t)
      | some false ↦ (some generic, t)
      | some true ↦
          let (step, u) = iter_permutations (try_permutation device) (permutations orders mps) t in
          (creation_error step, u)
    ]

    unfoldable pub create_profiles : List MigProfile → ℤ → Log → Option ClientError × Log
    unfolding create_on
    create_profiles mps gpu_index t = elim (d.handle_by_index t gpu_index) [
      | failed code ↦ (some (not_found_or_generic code), t)
      | success handle ↦ elim (d.new_device t handle) [
        | none ↦ (some generic, t)
        | some device ↦ create_on device mps t
      ]
    ]

    unfoldable pub create_mig_devices : List ProfileName → ℤ → Log → Option ClientError × Log
    unfolding parse_mig_profiles create_profiles
    create_mig_devices names gpu_index t =
        let ready = t ++ init true ∷ [] in
        let (result, u) : Option ClientError × Log = elim (parse_mig_profiles names) [
          | none ↦ (some generic, ready)
          | some mps ↦ create_profiles mps gpu_index ready
        ] in
        if d.initialized t
        then (result, u ++ shutdown ∷ [])
        else (some generic, t ++ init false ∷ [])
