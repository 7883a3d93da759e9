-- ===== src/Agent/Matching.antt =====
-- Flatten of plan/operation.go and Matches of plan/mig_state.go in internal/controllers/migagent, and
-- SpecMatchesStatus of pkg/gpu/mig/annotation.go.
use walkai_nos.Base.{
  Bool, List, [], ◌∷◌, ◌++◌, ℕ, zero, suc, String, String_eq, ℤ, pos, pos_part, length, int_eq,
}
use walkai_nos.GoMap.{GoMap, put, add_at}
use walkai_nos.GoMap.Groups.{group_by, flatten}
use walkai_nos.Geometry.Compare.{MapCompare}
use walkai_nos.Mig.Profile.{Profile}
use walkai_nos.Device.{Device, get_mig_profile_name}
use walkai_nos.Annotation.{SpecAnnotation, StatusAnnotation}
use walkai_nos.Annotation.Format.{
  index_with_profile, spec_index_with_profile, status_index_with_profile,
}
use walkai_nos.Agent.State.{MigState}
use walkai_nos.Agent.Plan.{CreateOperation}

-- for i := 0; i < op.Quantity; i++ { res = append(res, op.MigProfile) }
unfoldable pub repeat_profile : ℕ → Profile → List Profile
repeat_profile zero p = []
repeat_profile (suc n) p = p ∷ repeat_profile n p

unfoldable pub flatten_operations : List CreateOperation → List Profile
flatten_operations [] = []
flatten_operations (o ∷ rest) =
    repeat_profile (pos_part o.quantity) o.mig_profile ++ flatten_operations rest

unfoldable pub add_specs : List SpecAnnotation → GoMap String ℤ → GoMap String ℤ
add_specs [] m = m
add_specs (a ∷ rest) m = add_specs rest (add_at (spec_index_with_profile a) a.quantity m)

unfoldable pub add_statuses : List StatusAnnotation → GoMap String ℤ → GoMap String ℤ
add_statuses [] m = m
add_statuses (a ∷ rest) m = add_statuses rest (add_at (status_index_with_profile a) a.quantity m)

abbrev pub spec_matches_status :
    MapCompare String → List SpecAnnotation → List StatusAnnotation → Bool
spec_matches_status cmp specs statuses = cmp.equal (add_specs specs []) (add_statuses statuses [])

unfoldable pub group_sizes : GoMap String (List Device) → GoMap String ℤ → GoMap String ℤ
group_sizes [] m = m
group_sizes ((k, l) ∷ rest) m = group_sizes rest (put k (pos (length l)) m)

abbrev pub state_matches : MapCompare String → MigState → List SpecAnnotation → Bool
state_matches cmp s specs = cmp.equal (add_specs specs []) (
    group_sizes
      (group_by (λ r. index_with_profile r.gpu_index (get_mig_profile_name r)) (flatten s)) [])
