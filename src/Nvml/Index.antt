-- ===== src/Nvml/Index.antt =====
-- GetGpuIndex, GetMigDeviceGpuIndex and GetMigEnabledGPUs.
use walkai_nos.Base.{
  true, false, Option, none, some, List, [], ◌∷◌, ◌++◌, String, String_eq, ℤ, if◌then◌else◌, ◌==◌,
}
use walkai_nos.Agent.Client.{not_found, generic, Found, found, error}
use walkai_nos.Nvml.{success, failed, DeviceHandle, init, shutdown, Log, Driver}

-- The visits: an error of the library or of a UUID ends them, and the UUID is not asked for when the
-- device is found.
unfoldable pub visit_uuids :
    Driver → Log → String → List (Option (ℤ × DeviceHandle)) → Option ℤ → Option (Option ℤ)
visit_uuids d t id [] result = some result
visit_uuids d t id (none ∷ rest) result = none
visit_uuids d t id (some (index, device) ∷ rest) (some result) =
    visit_uuids d t id rest (some result)
visit_uuids d t id (some (index, device) ∷ rest) none = elim (d.uuid t device) [
  | failed _ ↦ none
  | success uuid ↦ visit_uuids d t id rest (if uuid == id then some index else none)
]

abbrev pub index_result : Option (Option ℤ) → Found ℤ
index_result none = error generic
index_result (some none) = error not_found
index_result (some (some index)) = found index

unfoldable pub get_gpu_index : Driver → String → Log → Found ℤ × Log
unfolding visit_uuids
get_gpu_index d id t =
    let ready = t ++ init true ∷ [] in
    if d.initialized t
    then (index_result (visit_uuids d ready id (d.devices ready) none), ready ++ shutdown ∷ [])
    else (error generic, t ++ init false ∷ [])

unfoldable pub get_mig_device_gpu_index : Driver → String → Log → Found ℤ × Log
unfolding visit_uuids
get_mig_device_gpu_index d id t =
    let ready = t ++ init true ∷ [] in
    if d.initialized t
    then (index_result (visit_uuids d ready id (d.mig_devices ready) none), ready ++ shutdown ∷ [])
    else (error generic, t ++ init false ∷ [])

-- What the loop of GetMigEnabledGPUs returns: the indexes, or no indexes with an error, which is nil
-- where the index of a GPU is not known.
pub data EnabledGpus : Type 0 where
  enabled : List ℤ → EnabledGpus
  enabled_error : EnabledGpus
  enabled_nil_error : EnabledGpus

abbrev pub and_index : ℤ → EnabledGpus → EnabledGpus
and_index index (enabled l) = enabled (index ∷ l)
and_index index enabled_error = enabled_error
and_index index enabled_nil_error = enabled_nil_error

unfoldable pub enabled_indexes : Driver → Log → List DeviceHandle → EnabledGpus
enabled_indexes d t [] = enabled []
enabled_indexes d t (device ∷ rest) =
    let later = enabled_indexes d t rest in
    elim (d.is_mig_enabled t device) [
      | none ↦ enabled_error
      | some false ↦ later
      | some true ↦ elim (d.index_of t device) [
        | failed _ ↦ enabled_nil_error
        | success index ↦ and_index index later
      ]
    ]

unfoldable pub get_mig_enabled_gpus : Driver → Log → EnabledGpus × Log
unfolding enabled_indexes
get_mig_enabled_gpus d t =
    let ready = t ++ init true ∷ [] in
    if d.initialized t
    then (
      elim (d.all_devices ready) [ none ↦ enabled_error | some l ↦ enabled_indexes d ready l ],
      ready ++ shutdown ∷ [],
    )
    else (enabled_error, t ++ init false ∷ [])
