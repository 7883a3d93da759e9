-- ===== src/Mig/Node.antt =====
-- pkg/gpu/mig/node.go: the GPUs of a node. Of the scheduler's node info only the scalar resources are
-- modelled. The Go loops range over copies of the GPUs, which share the maps, so that what an
-- operation does to a copy stays in the node.
pub mod Pods
pub mod Totals
pub mod Release
pub mod ReleaseAll
pub mod Build
pub mod Extracted
pub mod Contents
pub mod Built
pub mod Missed
use walkai_nos.Base.{
  Bool, true, false, ◌||◌, not, Option, none, some, List, [], ◌∷◌, String, String_eq, ℤ, pos, ◌-ℤ◌,
  lt_ℤ, le_ℤ, eq_ℤ, min_ℤ, if◌then◌else◌, nat_eq, length,
}
use walkai_nos.GoMap.{GoMap, get?, put, delete, amount, add_at, sub_at}
use walkai_nos.Geometry.{Slice, as_mig, Geometry, ProfileName, mig_profile, Slice_eq}
use walkai_nos.Geometry.Compare.{MapCompare}
use walkai_nos.Mig.Profile.{ResourceName, is_nvidia_mig_device, as_resource_name}
use walkai_nos.Mig.Gpu.{Gpu, Error, not_enough_free_devices, get_geometry, allows_geometry}
use walkai_nos.Mig.Update.{update_geometry_for}
use walkai_nos.Mig.Devices.{add_pod, has_free_mig_devices, release_profiles}

pub record Node : Type 0 where
  pub name : String
  pub scalar_resources : GoMap ResourceName ℤ
  pub gpus : List Gpu

-- for p, q := range m { res[p] += q }
unfoldable pub add_geometry : Geometry → Geometry → Geometry
add_geometry [] res = res
add_geometry ((p, q) ∷ rest) res = add_geometry rest (add_at p q res)

unfoldable pub sum_geometries : List Gpu → Geometry → Geometry
unfolding add_geometry
sum_geometries [] res = res
sum_geometries (g ∷ rest) res = sum_geometries rest (add_geometry (get_geometry g) res)

abbrev pub node_geometry : Node → Geometry
node_geometry n = sum_geometries n.gpus []

unfoldable pub add_free : GoMap ProfileName ℤ → Geometry → Geometry
add_free [] res = res
add_free ((p, q) ∷ rest) res = add_free rest (add_at (mig_profile p) q res)

unfoldable pub free_geometry : List Gpu → Geometry → Geometry
unfolding add_free
free_geometry [] res = res
free_geometry (g ∷ rest) res = free_geometry rest (add_free g.free_mig_devices res)

-- What is still required when the free devices of a GPU are taken off.
unfoldable pub less_free : GoMap ProfileName ℤ → GoMap Slice ℤ → GoMap Slice ℤ
less_free [] required = required
less_free ((p, q) ∷ rest) required =
    let less = sub_at (mig_profile p) q required in
    less_free rest
      (if le_ℤ (amount (mig_profile p) less) (pos 0) then delete (mig_profile p) less else less)

-- The entries that are no MIG resource.
unfoldable pub other_resources : GoMap ResourceName ℤ → GoMap ResourceName ℤ
unfolding is_nvidia_mig_device
other_resources [] = []
other_resources ((r, v) ∷ rest) =
    if not (is_nvidia_mig_device r) then (r, v) ∷ other_resources rest else other_resources rest

-- The geometry of a MIG GPU has MIG profiles only, which is what the Go code asserts of its keys.
unfoldable pub put_profiles : Geometry → GoMap ResourceName ℤ → GoMap ResourceName ℤ
unfolding as_resource_name
put_profiles [] res = res
put_profiles ((s, v) ∷ rest) res =
    put_profiles rest (elim (as_mig s) [ none ↦ res | some p ↦ put (as_resource_name p) v res ])

abbrev pub compute_scalar_resources : Node → GoMap ResourceName ℤ
compute_scalar_resources n = put_profiles (node_geometry n) (other_resources n.scalar_resources)

-- The node's error for a pod that no GPU takes is the GPU's, under its own text.
unfoldable pub add_pod_to_first : GoMap ProfileName ℤ → List Gpu → List Gpu × Option Error
unfolding add_pod
add_pod_to_first requested [] = ([], some not_enough_free_devices)
add_pod_to_first requested (g ∷ rest) =
    let (taken, error) = add_pod requested g in
    let (others, result) = add_pod_to_first requested rest in
    elim error [ none ↦ (taken ∷ rest, none) | some _ ↦ (taken ∷ others, result) ]

-- The inner loop of ReleaseProfiles: the GPUs, what remains to be released, and whether to go on.
unfoldable pub release_from : ProfileName → ℤ → List Gpu → List Gpu × ℤ × Bool
unfolding release_profiles
release_from profile remaining [] = ([], remaining, true)
release_from profile remaining (g ∷ rest) =
    let available = amount profile g.used_mig_devices in
    let to_release = min_ℤ available remaining in
    let (released, done) = release_profiles ((profile, to_release) ∷ []) g in
    let left = remaining -ℤ to_release in
    let (skipped, skipped_left, skipped_done) = release_from profile remaining rest in
    let (others, others_left, others_done) = release_from profile left rest in
    if eq_ℤ available (pos 0)
    then (g ∷ skipped, skipped_left, skipped_done)
    else if not done
    then (released ∷ rest, remaining, false)
    else if eq_ℤ left (pos 0)
    then (released ∷ rest, left, true)
    else (released ∷ others, others_left, others_done)

unfoldable pub release_all : GoMap ProfileName ℤ → List Gpu → List Gpu × Bool
unfolding release_from
release_all [] gpus = (gpus, true)
release_all ((profile, quantity) ∷ rest) gpus =
    let (released, remaining, done) = release_from profile quantity gpus in
    let more = release_all rest released in
    if not done
    then (released, false)
    else if lt_ℤ (pos 0) remaining
    then (released, false)
    else more

module _ (cmp : MapCompare Slice) where
  unfoldable pub any_free_capacity : List Gpu → Bool
  unfolding allows_geometry
  any_free_capacity [] = false
  any_free_capacity (g ∷ rest) =
      if has_free_mig_devices g
      then true
      else if not (allows_geometry cmp g (get_geometry g))
      then true
      else any_free_capacity rest

  unfoldable pub update_gpus : GoMap Slice ℤ → List Gpu → List Gpu × Bool
  unfolding update_geometry_for less_free
  update_gpus required [] = ([], false)
  update_gpus required (g ∷ rest) =
      let (updated, changed) = update_geometry_for cmp g required in
      let (others, any) = update_gpus (less_free updated.free_mig_devices required) rest in
      (updated ∷ others, changed || any)

  unfoldable pub node_update_geometry_for : Node → GoMap Slice ℤ → Node × Bool
  unfolding update_gpus
  node_update_geometry_for n slices =
      let (gpus, changed) = update_gpus slices n.gpus in
      let updated = record n { gpus = gpus } in
      if nat_eq (length n.gpus) 0
      then (n, false)
      else if nat_eq (length slices) 0
      then (n, false)
      else (record updated { scalar_resources = compute_scalar_resources updated }, changed)
