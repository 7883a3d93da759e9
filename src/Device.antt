-- ===== src/Device.antt =====
-- pkg/resource/device.go and pkg/gpu/device.go: the devices that Kubernetes reports.
use Prim.Native.String.{compare}
use text.Mathlib.Text.{is_lt}
use walkai_nos.Base.{
  Bool, true, false, none, some, List, [], ◌∷◌, String, String_eq, ℤ, int_eq, if◌then◌else◌,
}
use walkai_nos.GoMap.{GoMap}
use walkai_nos.GoMap.Groups.{filter, group_by}
use walkai_nos.Mig.Profile.{ResourceName, Profile, Profile_eq, extract_profile_name}
use walkai_nos.Geometry.{ProfileName}

-- The three values that the program gives to a `Status`.
pub data Status : Type 0 where
  used free unknown : Status

abbrev pub same_status : Status → Status → Bool
same_status used used = true
same_status free free = true
same_status unknown unknown = true
same_status _ _ = false

pub record Device : Type 0 where
  pub resource_name : ResourceName
  pub device_id : String
  pub status : Status
  pub gpu_index : ℤ

abbrev pub is_used : Device → Bool
is_used d = same_status d.status used

abbrev pub is_free : Device → Bool
is_free d = same_status d.status free

unfoldable pub get_free : List Device → List Device
unfolding filter
get_free l = filter is_free l

unfoldable pub get_used : List Device → List Device
unfolding filter
get_used l = filter is_used l

unfoldable pub group_by_gpu_index : List Device → GoMap ℤ (List Device)
unfolding group_by
group_by_gpu_index l = group_by (λ r. r.gpu_index) l

-- An entry goes behind those that are not after it, so that the sort is stable.
unfoldable pub insert_by_id : Device → List Device → List Device
insert_by_id d [] = d ∷ []
insert_by_id d (x ∷ xs) =
    if is_lt (compare x.device_id d.device_id) then x ∷ insert_by_id d xs else d ∷ x ∷ xs

unfoldable pub sort_by_device_id : List Device → List Device
unfolding insert_by_id
sort_by_device_id [] = []
sort_by_device_id (d ∷ rest) = insert_by_id d (sort_by_device_id rest)

-- GetMigProfileName of pkg/gpu/mig/util.go
unfoldable pub get_mig_profile_name : Device → ProfileName
unfolding extract_profile_name
get_mig_profile_name d = elim (extract_profile_name d.resource_name) [
  | none ↦ ""
  | some profile ↦ profile
]

abbrev pub profile_of : Device → Profile
profile_of d = record { gpu_index = d.gpu_index; name = get_mig_profile_name d }

-- GroupDevicesByMigProfile of pkg/gpu/mig/util.go
unfoldable pub group_devices_by_mig_profile : List Device → GoMap Profile (List Device)
unfolding group_by
group_devices_by_mig_profile l = group_by profile_of l
