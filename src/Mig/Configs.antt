-- ===== src/Mig/Configs.antt =====
-- ValidateConfigs, SetKnownGeometries and GetKnownGeometries of pkg/gpu/mig/known_configs.go,
-- GroupByModel of allowed_geometries.go, and the kinds of partitioning of pkg/gpu/partitioning.go.
use walkai_nos.Base.{
  ◌≡◌, refl, ◌↔◌, Bool, true, false, Option, none, some, List, [], ◌∷◌, String, String_eq, ℤ, pos,
  ◌≤ℤ◌, lt_ℤ, All, arith, length, nat_eq, if◌then◌else◌, ◌==◌, ◌≢◌,
}
use walkai_nos.GoMap.{GoMap, get?, put}
use walkai_nos.Geometry.{Geometry, Slice, mig_profile, slicing_profile}
use walkai_nos.Mig.Profile.{is_valid}
use walkai_nos.Mig.Gpu.{Model}
use walkai_nos.Kube.{KubeNode}

pub data ConfigError : Type 0 where
  no_configs not_a_mig_profile invalid_profile invalid_quantity : ConfigError

-- The innermost loop; `none` is success.
unfoldable pub validate_geometry : Geometry → Option ConfigError
unfolding is_valid
validate_geometry [] = none
validate_geometry ((slicing_profile p, q) ∷ rest) = some not_a_mig_profile
validate_geometry ((mig_profile p, q) ∷ rest) =
    if is_valid p
    then if lt_ℤ q (pos 1) then some invalid_quantity else validate_geometry rest
    else some invalid_profile

abbrev or_else : Option ConfigError → Option ConfigError → Option ConfigError
or_else (some e) rest = some e
or_else none rest = rest

unfoldable pub validate_list : List Geometry → Option ConfigError
unfolding validate_geometry
validate_list [] = none
validate_list (g ∷ rest) = or_else (validate_geometry g) (validate_list rest)

unfoldable pub validate_models : GoMap Model (List Geometry) → Option ConfigError
unfolding validate_list
validate_models [] = none
validate_models ((model, l) ∷ rest) = or_else (validate_list l) (validate_models rest)

unfoldable pub validate_configs : GoMap Model (List Geometry) → Option ConfigError
unfolding validate_models
validate_configs configs =
    if nat_eq (length configs) 0 then some no_configs else validate_models configs

-- The table after the call, and the error.
abbrev pub set_known_geometries :
    GoMap Model (List Geometry)
    → GoMap Model (List Geometry)
    → GoMap Model (List Geometry) × Option ConfigError
set_known_geometries configs known = elim (validate_configs configs) [
  | none ↦ (configs, none)
  | some e ↦ (known, some e)
]

pub record AllowedMigGeometries : Type 0 where
  pub models : List Model
  pub geometries : List Geometry

unfoldable pub put_models :
    List Model → List Geometry → GoMap Model (List Geometry) → GoMap Model (List Geometry)
put_models [] l res = res
put_models (model ∷ rest) l res = put_models rest l (put model l res)

unfoldable pub group_from :
    List AllowedMigGeometries → GoMap Model (List Geometry) → GoMap Model (List Geometry)
unfolding put_models
group_from [] res = res
group_from (a ∷ rest) res = group_from rest (put_models a.models a.geometries res)

abbrev pub group_by_model : List AllowedMigGeometries → GoMap Model (List Geometry)
group_by_model l = group_from l []

abbrev pub label_gpu_partitioning : String
label_gpu_partitioning = "nos.nebuly.com/gpu-partitioning"

pub data PartitioningKind : Type 0 where
  mig : PartitioningKind

unfoldable pub as_partitioning_kind : String → Option PartitioningKind
as_partitioning_kind kind = if kind == "mig" then some mig else none

unfoldable pub get_partitioning_kind : KubeNode → Option PartitioningKind
unfolding as_partitioning_kind
get_partitioning_kind node = elim (get? label_gpu_partitioning node.labels) [
  | none ↦ none
  | some kind ↦ as_partitioning_kind kind
]

unfoldable pub is_mig_partitioning_enabled : KubeNode → Bool
is_mig_partitioning_enabled node = elim (get? label_gpu_partitioning node.labels) [
  | none ↦ false
  | some kind ↦ kind == "mig"
]

-- What a configuration has to be.
abbrev pub IsEntry : Slice × ℤ → Type 0
IsEntry (mig_profile p, q) = (is_valid p ≡ true) × (pos 1 ≤ℤ q)
IsEntry (slicing_profile p, q) = ⊥

abbrev pub IsConfigs : GoMap Model (List Geometry) → Type 0
IsConfigs configs = All (λ e. All (All IsEntry) e.1) configs

or_else_iff :
    (a b : Option ConfigError) (P Q : Type 0)
    → (a ≡ none) ↔ P
    → (b ≡ none) ↔ Q
    → (or_else a b ≡ none) ↔ (P × Q)
or_else_iff none b P Q ha hb = (λ h. (ha.0 refl, hb.0 h), λ h. hb.1 h.1)
or_else_iff (some e) b P Q ha hb = (λ h. cc, λ h. ha.1 h.0)

geometry_iff : (g : Geometry) → (validate_geometry g ≡ none) ↔ All IsEntry g
unfolding validate_geometry
geometry_iff [] = (λ h. tt, λ h. refl)
geometry_iff ((slicing_profile p, q) ∷ rest) = (λ h. cc, λ h. absurd h.0)
geometry_iff ((mig_profile p, q) ∷ rest) = (
  λ h. ground (arith, h, geometry_iff rest),
  λ h. ground (arith, h.0.0, h.0.1, h.1, geometry_iff rest),
)

list_iff : (l : List Geometry) → (validate_list l ≡ none) ↔ All (All IsEntry) l
unfolding validate_list
list_iff [] = (λ h. tt, λ h. refl)
list_iff (g ∷ rest) =
    or_else_iff (validate_geometry g) (validate_list rest) (All IsEntry g) (All (All IsEntry) rest)
      (geometry_iff g) (list_iff rest)

models_iff : (m : GoMap Model (List Geometry)) → (validate_models m ≡ none) ↔ IsConfigs m
unfolding validate_models
models_iff [] = (λ h. tt, λ h. refl)
models_iff ((k, l) ∷ rest) =
    or_else_iff (validate_list l) (validate_models rest) (All (All IsEntry) l) (IsConfigs rest)
      (list_iff l) (models_iff rest)

-- ValidateConfigs accepts exactly the configurations that are not empty and name valid MIG profiles
-- only, each at least once.
pub validate_configs_iff :
    (configs : GoMap Model (List Geometry))
    → (validate_configs configs ≡ none) ↔ ((configs ≢ []) × IsConfigs configs)
unfolding validate_configs
validate_configs_iff [] = (λ h. cc, λ h. absurd (h.0 refl))
validate_configs_iff (e ∷ rest) =
    let not_empty : nat_eq (length (e ∷ rest)) 0 ≡ false = ground arith in
    rw not_empty
      ((λ h. ((λ empty. cc), (models_iff (e ∷ rest)).0 h)), λ h. (models_iff (e ∷ rest)).1 h.1)
