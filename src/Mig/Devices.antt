-- ===== src/Mig/Devices.antt =====
-- AddPod, HasFreeMigDevices and ReleaseProfiles of pkg/gpu/mig/gpu.go: MIG devices change between
-- free and used. The profiles that a pod requests are an argument, in the order of their iteration.
pub mod Moves
pub mod Pods
pub mod Release
use walkai_nos.Base.{
  Bool, true, false, not, Option, none, some, [], ◌∷◌, ℤ, pos, lt_ℤ, eq_ℤ, ltb, length,
  if◌then◌else◌, String_eq,
}
use walkai_nos.GoMap.{GoMap, delete, amount, add_at, sub_at}
use walkai_nos.Geometry.{ProfileName}
use walkai_nos.Mig.Gpu.{Gpu, Error, not_enough_free_devices}

unfoldable pub take_devices : ProfileName → ℤ → Gpu → Gpu
take_devices r q g = record g {
  free_mig_devices = sub_at r q g.free_mig_devices;
  used_mig_devices = add_at r q g.used_mig_devices;
}

-- What was moved before an error stays moved.
unfoldable pub add_pod : GoMap ProfileName ℤ → Gpu → Gpu × Option Error
add_pod [] g = (g, none)
add_pod ((r, q) ∷ rest) g =
    let moved = add_pod rest (take_devices r q g) in
    if lt_ℤ (amount r g.free_mig_devices) q then (g, some not_enough_free_devices) else moved

unfoldable pub has_free_mig_devices : Gpu → Bool
has_free_mig_devices g = ltb 0 (length g.free_mig_devices)

-- The first loop of ReleaseProfiles.
unfoldable pub covers : GoMap ProfileName ℤ → GoMap ProfileName ℤ → Bool
covers used [] = true
covers used ((profile, quantity) ∷ rest) =
    if lt_ℤ (amount profile used) quantity then false else covers used rest

abbrev pub drop_zero : ProfileName → GoMap ProfileName ℤ → GoMap ProfileName ℤ
drop_zero profile used = if eq_ℤ (amount profile used) (pos 0) then delete profile used else used

-- The second loop.
unfoldable pub give_back : GoMap ProfileName ℤ → Gpu → Gpu
give_back [] g = g
give_back ((profile, quantity) ∷ rest) g = give_back rest (record g {
  used_mig_devices = drop_zero profile (sub_at profile quantity g.used_mig_devices);
  free_mig_devices = add_at profile quantity g.free_mig_devices;
})

unfoldable pub release_profiles : GoMap ProfileName ℤ → Gpu → Gpu × Bool
release_profiles profiles g =
    if covers g.used_mig_devices profiles then (give_back profiles g, true) else (g, false)
