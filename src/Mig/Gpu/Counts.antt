-- ===== src/Mig/Gpu/Counts.antt =====
-- GetGeometry of pkg/gpu/mig/gpu.go counts used and free devices together.
use walkai_nos.Base.{
  ◌≡◌, refl, [], ◌∷◌, ℤ, pos, ◌+ℤ◌, arith, String_eq, eq_of_parts, +ℤ_parts, int_laws,
}
use walkai_nos.GoMap.{GoMap, amount, add_at, Distinct}
use walkai_nos.GoMap.Quantities.{
  amount-nil, amount-cons, amount-none, amount-add_at, add_at-Distinct,
}
use walkai_nos.Geometry.{ProfileName, mig_profile, slicing_profile, Slice_eq, Geometry}
use walkai_nos.Mig.Gpu.{Gpu, add_profiles, get_geometry}

pub amount-add_profiles :
    (p : ProfileName) (ps : GoMap ProfileName ℤ) (res : Geometry)
    → Distinct ps
    → amount (mig_profile p) (add_profiles ps res) ≡ amount (mig_profile p) res +ℤ amount p ps
unfolding add_profiles
amount-add_profiles p [] res d = rw (amount-nil p) (omega int_laws)
amount-add_profiles p ((r, q) ∷ ps) res d = ground (
  arith,
  amount-add_profiles p ps (add_at (mig_profile r) q res) d.1,
  amount-add_at (mig_profile r) (mig_profile p) q res,
  amount-cons r p q ps,
  amount-none r ps d.0,
  String_eq.same_iff r p,
  +ℤ_parts (amount (mig_profile p) res) q,
  +ℤ_parts (amount (mig_profile p) res +ℤ q) (amount p ps),
  eq_of_parts (amount (mig_profile p) res +ℤ q +ℤ amount p ps) (amount (mig_profile p) res +ℤ q),
)

pub amount-add_profiles_slicing :
    (p : ProfileName) (ps : GoMap ProfileName ℤ) (res : Geometry)
    → amount (slicing_profile p) (add_profiles ps res) ≡ amount (slicing_profile p) res
unfolding add_profiles
amount-add_profiles_slicing p [] res = refl
amount-add_profiles_slicing p ((r, q) ∷ ps) res = ground (
  arith,
  amount-add_profiles_slicing p ps (add_at (mig_profile r) q res),
  amount-add_at (mig_profile r) (slicing_profile p) q res,
)

pub add_profiles-Distinct :
    (ps : GoMap ProfileName ℤ) (res : Geometry) → Distinct res → Distinct (add_profiles ps res)
unfolding add_profiles
add_profiles-Distinct [] res d = d
add_profiles-Distinct ((r, q) ∷ ps) res d =
    add_profiles-Distinct ps (add_at (mig_profile r) q res)
      (add_at-Distinct (mig_profile r) q res d)

pub get_geometry-Distinct : (g : Gpu) → Distinct (get_geometry g)
unfolding get_geometry
get_geometry-Distinct g =
    add_profiles-Distinct g.free_mig_devices (add_profiles g.used_mig_devices [])
      (add_profiles-Distinct g.used_mig_devices [] tt)

-- Each MIG profile counts once for each of its devices, used or free.
pub amount-get_geometry :
    (g : Gpu) (p : ProfileName)
    → Distinct g.used_mig_devices
    → Distinct g.free_mig_devices
    → amount (mig_profile p) (get_geometry g)
      ≡ amount p g.used_mig_devices +ℤ amount p g.free_mig_devices
unfolding get_geometry
amount-get_geometry g p du df = ground (
  arith,
  amount-add_profiles p g.free_mig_devices (add_profiles g.used_mig_devices []) df,
  amount-add_profiles p g.used_mig_devices [] du,
  amount-nil (mig_profile p),
  +ℤ_parts (pos 0) (amount p g.used_mig_devices),
  eq_of_parts (pos 0 +ℤ amount p g.used_mig_devices) (amount p g.used_mig_devices),
)
