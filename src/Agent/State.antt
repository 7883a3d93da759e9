-- ===== src/Agent/State.antt =====
-- internal/controllers/migagent/plan/mig_state.go: the MIG devices of each GPU.
use walkai_nos.Base.{
  Bool, true, false, not, List, [], ◌∷◌, ℤ, String, String_eq, int_eq, ◌==◌, if◌then◌else◌,
}
use walkai_nos.GoMap.{GoMap, put}
use walkai_nos.GoMap.Groups.{filter, list_at, group_by, flatten}
use walkai_nos.Geometry.{ProfileName}
use walkai_nos.Device.{Device, get_mig_profile_name}

abbrev pub MigState : Type 0
MigState = GoMap ℤ (List Device)

unfoldable pub new_mig_state : List Device → MigState
unfolding group_by
new_mig_state resources = group_by (λ r. r.gpu_index) resources

-- util.InSlice
unfoldable pub in_slice : String → List String → Bool
in_slice item [] = false
in_slice item (i ∷ rest) = if i == item then true else in_slice item rest

unfoldable pub deep_copy : MigState → MigState
unfolding new_mig_state flatten
deep_copy s = new_mig_state (flatten s)

unfoldable pub without_mig_profiles : MigState → ℤ → List ProfileName → MigState
unfolding deep_copy filter in_slice list_at
without_mig_profiles s gpu_index mig_profiles =
    put gpu_index
      (filter (λ r. not (in_slice (get_mig_profile_name r) mig_profiles)) (list_at gpu_index s))
      (deep_copy s)
