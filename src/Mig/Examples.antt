-- ===== src/Mig/Examples.antt =====
-- Tests and instances of the theorems on a MIG GPU: an A100 with one device in use.
use walkai_nos.Base.{
  ◌≡◌, refl, ◌⊎◌, true, false, none, some, [], ◌∷◌, ℤ, pos, arith, String_eq, ◌+ℤ◌, ◌-ℤ◌,
}
use walkai_nos.GoMap.Quantities.{Nonneg-of_All}
use walkai_nos.Mig.Update.Choice.{gains}
use walkai_nos.Mig.Update.Gain.{extra, gains-eq-extra}
use walkai_nos.Mig.Gpu.Outcome.{Applies, Outcomes, apply_geometry-Outcomes, apply_geometry_accepted}
use walkai_nos.Mig.Devices.Release.{Released, Covered, release_profiles_outcomes}
use walkai_nos.GoMap.{GoMap, Distinct, get?, put, delete, amount, add_at, sub_at}
use walkai_nos.Geometry.{ProfileName, Slice, mig_profile, Slice_eq, Geometry}
use walkai_nos.Geometry.Compare.{MapCompare, lookup_compare, both_agree, agree_on}
use walkai_nos.Mig.Gpu.{
  Gpu, ok, not_enough_free_devices, add_profiles, get_geometry, apply_geometry, can_apply_geometry,
  allows_geometry, allowed_in, deletes_used, replace_free, set_free, drop_absent,
}
use walkai_nos.Mig.Gpu.Valid.{IsValid}
use walkai_nos.Mig.Update.{
  update_geometry_for, choose, consider, provided_from, gain, is_busy_sensitive_3211_geometry,
  is_idle, none_positive, agrees_with,
}
use walkai_nos.Mig.Update.Outcome.{IsWellFormed, UpdateOutcomes, update_geometry_for_outcomes}
use walkai_nos.Mig.Devices.{add_pod, take_devices, release_profiles}
use walkai_nos.Mig.Devices.Pods.{Fits, Taken, add_pod_outcomes, add_pod_keeps}
use walkai_nos.Mig.KnownConfigs.{a100_sxm4_40gb_geometries, gpu_model_a100_sxm4_40gb}

abbrev compare_slices : MapCompare Slice
compare_slices = lookup_compare

abbrev a100 : Gpu
a100 = record {
  index = pos 0;
  model = gpu_model_a100_sxm4_40gb;
  allowed_mig_geometries = a100_sxm4_40gb_geometries;
  used_mig_devices = ("1g.5gb", pos 1) ∷ [];
  free_mig_devices = [];
}

abbrev two_3g : GoMap Slice ℤ
two_3g = (mig_profile "3g.20gb", pos 1) ∷ []

-- The update takes the first geometry that keeps the used device and has the most 3g.20gb.
update_a100 :
    (update_geometry_for compare_slices a100 two_3g).0.free_mig_devices
    ≡ ("3g.20gb", pos 1) ∷ ("2g.10gb", pos 1) ∷ ("1g.5gb", pos 0) ∷ []
unfolding update_geometry_for choose consider can_apply_geometry allows_geometry allowed_in
    both_agree agree_on get? put delete amount add_at get_geometry add_profiles deletes_used
    provided_from gain is_busy_sensitive_3211_geometry agrees_with is_idle none_positive
    apply_geometry replace_free set_free drop_absent ◌+ℤ◌ ◌-ℤ◌
update_a100 = refl

-- The same GPU with two allowed geometries.
abbrev mixed_geometry : Geometry
mixed_geometry =
    (mig_profile "3g.20gb", pos 1)
    ∷ (mig_profile "2g.10gb", pos 1)
    ∷ (mig_profile "1g.5gb", pos 1)
    ∷ []

abbrev small_geometry : Geometry
small_geometry = (mig_profile "1g.5gb", pos 7) ∷ []

abbrev pub a100_small : Gpu
a100_small = record a100 { allowed_mig_geometries = small_geometry ∷ mixed_geometry ∷ [] }

pub a100_small-IsValid : IsValid a100_small
unfolding get?
a100_small-IsValid = record {
  used_distinct = (refl, tt);
  free_distinct = tt;
  used_nonneg = Nonneg-of_All (("1g.5gb", pos 1) ∷ []) (omega arith);
  free_nonneg = Nonneg-of_All [] tt;
}

mixed-Distinct : Distinct mixed_geometry
unfolding get?
mixed-Distinct = (refl, (refl, (refl, tt)))

small-Distinct : Distinct small_geometry
unfolding get?
small-Distinct = (refl, tt)

mixed-IsWellFormed : IsWellFormed mixed_geometry
mixed-IsWellFormed = (mixed-Distinct, Nonneg-of_All mixed_geometry (omega arith))

small-IsWellFormed : IsWellFormed small_geometry
small-IsWellFormed = (small-Distinct, Nonneg-of_All small_geometry (omega arith))

update_geometry_for_outcomes_example : UpdateOutcomes compare_slices a100_small two_3g
update_geometry_for_outcomes_example =
    update_geometry_for_outcomes compare_slices a100_small two_3g a100_small-IsValid
      (small-IsWellFormed, (mixed-IsWellFormed, tt))

apply_geometry-Outcomes_example : Outcomes compare_slices a100_small mixed_geometry
apply_geometry-Outcomes_example =
    apply_geometry-Outcomes compare_slices a100_small mixed_geometry a100_small-IsValid
      mixed-Distinct (mixed-IsWellFormed.1)

mixed_accepted : can_apply_geometry compare_slices a100_small mixed_geometry ≡ none
unfolding can_apply_geometry allows_geometry allowed_in both_agree agree_on get? amount deletes_used
mixed_accepted = refl

abbrev mixed_applied :
    (g' : Gpu) × (apply_geometry compare_slices a100_small mixed_geometry ≡ ok g')
    × Applies a100_small mixed_geometry g'
mixed_applied =
    apply_geometry_accepted compare_slices a100_small mixed_geometry a100_small-IsValid
      mixed-Distinct mixed-IsWellFormed.1 mixed_accepted

gains-eq-extra_example :
    gains a100_small two_3g mixed_geometry ≡ extra a100_small mixed_applied.0 two_3g
gains-eq-extra_example =
    gains-eq-extra a100_small mixed_applied.0 mixed_geometry a100_small-IsValid mixed_applied.2
      two_3g

abbrev pod_request : GoMap ProfileName ℤ
pod_request = ("3g.20gb", pos 1) ∷ ("2g.10gb", pos 2) ∷ []

abbrev pub a100_busy : Gpu
a100_busy = record a100_small { free_mig_devices = ("3g.20gb", pos 1) ∷ ("2g.10gb", pos 1) ∷ [] }

pub a100_busy-IsValid : IsValid a100_busy
unfolding get?
a100_busy-IsValid = record {
  used_distinct = (refl, tt);
  free_distinct = (refl, (refl, tt));
  used_nonneg = Nonneg-of_All (("1g.5gb", pos 1) ∷ []) (omega arith);
  free_nonneg = Nonneg-of_All (("3g.20gb", pos 1) ∷ ("2g.10gb", pos 1) ∷ []) (omega arith);
}

add_pod_outcomes_example :
    (Fits pod_request a100_busy
      × ((add_pod pod_request a100_busy).1 ≡ none)
      × Taken pod_request a100_busy (add_pod pod_request a100_busy).0)
    ⊎ (¬ Fits pod_request a100_busy
        × ((add_pod pod_request a100_busy).1 ≡ some not_enough_free_devices))
unfolding get?
add_pod_outcomes_example = add_pod_outcomes pod_request a100_busy (refl, (refl, tt))

add_pod_keeps_example : IsValid (add_pod pod_request a100_busy).0
add_pod_keeps_example = (add_pod_keeps pod_request a100_busy a100_busy-IsValid (omega arith)).0

-- A second profile that does not fit leaves the first one taken.
partly_added :
    add_pod pod_request a100_busy
    ≡ (take_devices "3g.20gb" (pos 1) a100_busy, some not_enough_free_devices)
unfolding add_pod amount get? take_devices sub_at put
partly_added = refl

release_profiles_outcomes_example :
    (Covered (("1g.5gb", pos 1) ∷ []) a100_busy
      × ((release_profiles (("1g.5gb", pos 1) ∷ []) a100_busy).1 ≡ true)
      × Released
          (("1g.5gb", pos 1) ∷ [])
          a100_busy
          (release_profiles (("1g.5gb", pos 1) ∷ []) a100_busy).0
      × IsValid (release_profiles (("1g.5gb", pos 1) ∷ []) a100_busy).0)
    ⊎ (¬ Covered (("1g.5gb", pos 1) ∷ []) a100_busy
        × (release_profiles (("1g.5gb", pos 1) ∷ []) a100_busy ≡ (a100_busy, false)))
unfolding get?
release_profiles_outcomes_example =
    release_profiles_outcomes (("1g.5gb", pos 1) ∷ []) a100_busy a100_busy-IsValid (refl, tt)
      (omega arith)
