-- ===== src/Mig/Gpu.antt =====
-- pkg/gpu/mig/gpu.go: one GPU, its used and free MIG devices, and the operations that move them.
-- The two maps of the Go struct are shared by its copies; a method returns the new GPU.
pub mod Valid
pub mod Counts
pub mod Apply
pub mod Outcome
use walkai_nos.Base.{
  String_eq, Bool, true, false, ◌&&◌, ◌||◌, not, Option, none, some, List, [], ◌∷◌, String, ℕ, ℤ,
  pos, lt_ℤ, le_ℤ, eq_ℤ, ◌+ℤ◌, ◌-ℤ◌, nat_eq, length, if◌then◌else◌,
}
use walkai_nos.GoMap.{GoMap, get?, put, delete, amount, add_at, sub_at}
use walkai_nos.Geometry.{
  ProfileName, Slice, mig_profile, as_mig, Slice_eq, Geometry, get_fewest_slices_geometry,
}
use walkai_nos.Geometry.Compare.{MapCompare}

abbrev pub Model : Type 0
Model = String

pub data Error : Type 0 where
  unknown_model geometry_not_allowed deletes_used_devices not_enough_free_devices : Error

pub data Result {ℓ} (A : Type ℓ) : Type ℓ where
  ok : A → Result A
  err : Error → Result A

pub record Gpu : Type 0 where
  pub index : ℤ
  pub model : Model
  pub allowed_mig_geometries : List Geometry
  pub used_mig_devices : GoMap ProfileName ℤ
  pub free_mig_devices : GoMap ProfileName ℤ

-- `known` is the table of known_configs.go.
unfoldable pub new_gpu :
    GoMap Model (List Geometry) → Model → ℤ → GoMap ProfileName ℤ → GoMap ProfileName ℤ → Result Gpu
new_gpu known model index used free = elim (get? model known) [
  | none ↦ err unknown_model
  | some allowed ↦ ok (record {
    index = index;
    model = model;
    allowed_mig_geometries = allowed;
    used_mig_devices = used;
    free_mig_devices = free;
  })
]

-- for profile, quantity := range profiles { res[profile] += quantity }
unfoldable pub add_profiles : GoMap ProfileName ℤ → Geometry → Geometry
add_profiles [] res = res
add_profiles ((profile, quantity) ∷ rest) res =
    add_profiles rest (add_at (mig_profile profile) quantity res)

unfoldable pub get_geometry : Gpu → Geometry
get_geometry g = add_profiles g.free_mig_devices (add_profiles g.used_mig_devices [])

abbrev pub get_allowed_geometries : Gpu → List Geometry
get_allowed_geometries g = g.allowed_mig_geometries

-- The loop over the used devices in CanApplyGeometry.
unfoldable pub deletes_used : Geometry → GoMap ProfileName ℤ → Bool
deletes_used geometry [] = false
deletes_used geometry ((profile, used) ∷ rest) =
    lt_ℤ (amount (mig_profile profile) geometry) used || deletes_used geometry rest

-- The first loop of ApplyGeometry: the free devices are what the geometry leaves after the used ones.
unfoldable pub set_free : GoMap ProfileName ℤ → Geometry → GoMap ProfileName ℤ → GoMap ProfileName ℤ
set_free used [] free = free
set_free used ((profile, quantity) ∷ rest) free =
    set_free used rest
      (elim (as_mig profile) [ none ↦ free | some p ↦ put p (quantity -ℤ amount p used) free ])

-- The second loop: it ranges over the free devices and deletes from them as it goes.
unfoldable pub drop_absent :
    Geometry → GoMap ProfileName ℤ → GoMap ProfileName ℤ → GoMap ProfileName ℤ
drop_absent geometry [] free = free
drop_absent geometry ((profile, _) ∷ range) free =
    drop_absent geometry range
      (elim (get? (mig_profile profile) geometry) [ none ↦ delete profile free | some _ ↦ free ])

unfoldable pub replace_free : Gpu → Geometry → GoMap ProfileName ℤ
unfolding set_free drop_absent
replace_free g geometry =
    let free = set_free g.used_mig_devices geometry g.free_mig_devices in
    drop_absent geometry free free

module _ (cmp : MapCompare Slice) where
  unfoldable pub allowed_in : Geometry → List Geometry → Bool
  allowed_in geometry [] = false
  allowed_in geometry (allowed ∷ rest) =
      if cmp.equal geometry allowed then true else allowed_in geometry rest

  unfoldable pub allows_geometry : Gpu → Geometry → Bool
  unfolding allowed_in
  allows_geometry g geometry = allowed_in geometry (get_allowed_geometries g)

  -- `none` is (true, ""), and a reason is (false, reason).
  unfoldable pub can_apply_geometry : Gpu → Geometry → Option Error
  can_apply_geometry g geometry =
      if not (allows_geometry g geometry)
      then some geometry_not_allowed
      else if deletes_used geometry g.used_mig_devices
      then some deletes_used_devices
      else none

  unfoldable pub apply_geometry : Gpu → Geometry → Result Gpu
  apply_geometry g geometry = elim (can_apply_geometry g geometry) [
    | some reason ↦ err reason
    | none ↦ ok (record g { free_mig_devices = replace_free g geometry })
  ]

  -- A nil geometry reads as the empty one; there is one only where no geometry is allowed.
  unfoldable pub init_geometry : Gpu → Result Gpu
  init_geometry g =
      let largest : Geometry = elim (get_fewest_slices_geometry g.allowed_mig_geometries) [
        | none ↦ []
        | some l ↦ l
      ] in
      elim (can_apply_geometry g largest) [
        | some reason ↦ err reason
        | none ↦ apply_geometry g largest
      ]
