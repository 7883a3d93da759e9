-- ===== src/Slicing/Gpu.antt =====
-- pkg/gpu/slicing/gpu.go: a GPU that is shared by slices of its memory. A method returns the new GPU.
pub mod Bound
pub mod Valid
pub mod Update
use walkai_nos.Base.{
  Bool, true, false, ◌||◌, not, Option, none, some, List, [], ◌∷◌, map, ℕ, zero, suc, ◌+◌, ◌-◌, ◌%◌,
  ◌^◌, leb, negsuc, String, String_eq, ℤ, pos, pos_part, ◌+ℤ◌, ◌-ℤ◌, ◌*ℤ◌, lt_ℤ, le_ℤ, ltb, nat_eq,
  length, if◌then◌else◌,
}
use walkai_nos.GoMap.{GoMap, delete, amount, add_at, sub_at, put}
use walkai_nos.Geometry.{ProfileName, Slice, slicing_profile, Slice_eq, Geometry}
use walkai_nos.Mig.Gpu.{Model}
use walkai_nos.Partitioner.Order.{sort_stable}
use walkai_nos.Text.Decimal.{max_int}
use walkai_nos.Slicing.Profile.{get_memory_size_gb, new_profile}

abbrev pub min_slice_memory_gb : ℤ
min_slice_memory_gb = pos 1

pub record SlicingGpu : Type 0 where
  pub model : Model
  pub index : ℤ
  pub memory_gb : ℤ
  pub used_profiles : GoMap ProfileName ℤ
  pub free_profiles : GoMap ProfileName ℤ

abbrev pub new_full_gpu : Model → ℤ → ℤ → SlicingGpu
new_full_gpu model index memory_gb = record {
  model = model;
  index = index;
  memory_gb = memory_gb;
  used_profiles = [];
  free_profiles = [];
}

-- Go's int has 64 bits, and wraps.
unfoldable pub wrap_int64 : ℤ → ℤ
wrap_int64 (pos n) =
    let r = n % 2 ^ 64 in if leb r max_int then pos r else negsuc (max_int + max_int + 1 - r)
wrap_int64 (negsuc n) =
    let r = n % 2 ^ 64 in if leb r max_int then negsuc r else pos (max_int + max_int + 1 - r)

-- A loop of Validate: the memory of the profiles behind the total so far, or an error.
unfoldable pub checked_memory : GoMap ProfileName ℤ → ℤ → Option ℤ
unfolding wrap_int64
checked_memory [] total = some total
checked_memory ((p, q) ∷ rest) total =
    let later =
      checked_memory rest (wrap_int64 (total +ℤ wrap_int64 (get_memory_size_gb p *ℤ q))) in
    if lt_ℤ (get_memory_size_gb p) min_slice_memory_gb then none else later

-- Whether there is no error.
unfoldable pub validate : SlicingGpu → Bool
unfolding checked_memory
validate g = elim (checked_memory g.used_profiles (pos 0)) [
  | none ↦ false
  | some used ↦ elim (checked_memory g.free_profiles used) [
    | none ↦ false
    | some total ↦ not (lt_ℤ g.memory_gb total)
  ]
]

-- NewGPU; `none` is the error.
unfoldable pub new_slicing_gpu :
    Model → ℤ → ℤ → GoMap ProfileName ℤ → GoMap ProfileName ℤ → Option SlicingGpu
unfolding validate
new_slicing_gpu model index memory_gb used free =
    let g : SlicingGpu = record {
      model = model;
      index = index;
      memory_gb = memory_gb;
      used_profiles = used;
      free_profiles = free;
    } in
    if validate g then some g else none

-- for p, q := range profiles { geometry[p] += q }
unfoldable pub add_slices : GoMap ProfileName ℤ → Geometry → Geometry
add_slices [] res = res
add_slices ((p, q) ∷ rest) res = add_slices rest (add_at (slicing_profile p) q res)

unfoldable pub slicing_geometry : SlicingGpu → Geometry
unfolding add_slices
slicing_geometry g = add_slices g.free_profiles (add_slices g.used_profiles [])

-- The memory of a map of profiles.
unfoldable pub slices_memory : GoMap ProfileName ℤ → ℤ
slices_memory [] = pos 0
slices_memory ((p, q) ∷ rest) = get_memory_size_gb p *ℤ q +ℤ slices_memory rest

unfoldable pub get_tot_slices_memory : SlicingGpu → ℤ
unfolding slices_memory
get_tot_slices_memory g = slices_memory g.used_profiles +ℤ slices_memory g.free_profiles

unfoldable pub can_create_more_slices : SlicingGpu → Bool
unfolding get_tot_slices_memory
can_create_more_slices g = le_ℤ min_slice_memory_gb (g.memory_gb -ℤ get_tot_slices_memory g)

unfoldable pub slicing_has_free_capacity : SlicingGpu → Bool
unfolding can_create_more_slices
slicing_has_free_capacity g =
    if ltb 0 (length g.free_profiles) then true else can_create_more_slices g

abbrev pub take_slices : ProfileName → ℤ → SlicingGpu → SlicingGpu
take_slices r q g = record g {
  free_profiles = sub_at r q g.free_profiles;
  used_profiles = add_at r q g.used_profiles;
}

-- AddPod for the slices that the pod requests: whether there is no error. What was moved before an
-- error stays moved.
unfoldable pub add_slicing_pod : GoMap ProfileName ℤ → SlicingGpu → SlicingGpu × Bool
add_slicing_pod [] g = (g, true)
add_slicing_pod ((r, q) ∷ rest) g =
    let moved = add_slicing_pod rest (take_slices r q g) in
    if lt_ℤ (amount r g.free_profiles) q then (g, false) else moved

-- `none` is the error.
unfoldable pub create_slices : ℤ → ℤ → SlicingGpu → Option SlicingGpu
unfolding get_tot_slices_memory new_profile
create_slices size_gb num g =
    if lt_ℤ (g.memory_gb -ℤ get_tot_slices_memory g) (size_gb *ℤ num)
    then none
    else some (record g { free_profiles = add_at (new_profile size_gb) num g.free_profiles })

abbrev pub create_slice : ℤ → SlicingGpu → Option SlicingGpu
create_slice size_gb g = create_slices size_gb (pos 1) g

-- The slices that are required beyond the free ones. The required slices are slicing profiles: the Go
-- code asserts it of its keys.
unfoldable pub get_missing_slices : GoMap ProfileName ℤ → SlicingGpu → GoMap ProfileName ℤ
get_missing_slices [] g = []
get_missing_slices ((p, q) ∷ rest) g =
    let diff = q -ℤ amount p g.free_profiles in
    let later = get_missing_slices rest g in if lt_ℤ (pos 0) diff then put p diff later else later

abbrev pub smaller_first : ProfileName × ℤ → ProfileName × ℤ → Bool
smaller_first a b = lt_ℤ (get_memory_size_gb a.0) (get_memory_size_gb b.0)

-- The first inner loop, over the rounds left: the GPU and the number of slices that are created.
unfoldable pub create_spare : ℕ → ℤ → SlicingGpu → SlicingGpu × ℕ
create_spare zero size g = (g, 0)
create_spare (suc rounds) size g = elim (create_slice size g) [
  | none ↦ (g, 0)
  | some h ↦ let (created, n) = create_spare rounds size h in (created, n + 1)
]

-- The second one, which asks for spare memory in each round.
unfoldable pub create_freed : ℕ → ℤ → SlicingGpu → SlicingGpu × ℕ
create_freed zero size g = (g, 0)
create_freed (suc rounds) size g = elim (can_create_more_slices g) [
  | false ↦ (g, 0)
  | true ↦ elim (create_slice size g) [
    | none ↦ (g, 0)
    | some h ↦ let (created, n) = create_freed rounds size h in (created, n + 1)
  ]
]

-- for k := range originalFreeProfiles { delete(g.FreeProfiles, k) }
unfoldable pub delete_all : GoMap ProfileName ℤ → GoMap ProfileName ℤ → GoMap ProfileName ℤ
delete_all [] m = m
delete_all ((k, v) ∷ rest) m = delete_all rest (delete k m)

unfoldable pub restore : GoMap ProfileName ℤ → SlicingGpu → SlicingGpu
restore [] g = g
restore ((k, v) ∷ rest) g =
    restore rest (elim (create_slices (get_memory_size_gb k) v g) [ none ↦ g | some h ↦ h ])

-- The slices of one missing profile.
unfoldable pub update_for_slice :
    GoMap ProfileName ℤ → ProfileName → ℤ → SlicingGpu → SlicingGpu × Bool
unfolding create_spare create_freed delete_all restore can_create_more_slices
update_for_slice original p missing g =
    let size = get_memory_size_gb p in
    let (spared, n) : SlicingGpu × ℕ =
      if can_create_more_slices g then create_spare (pos_part missing) size g else (g, 0) in
    let deleted = record spared { free_profiles = delete_all original spared.free_profiles } in
    let (freed, k) = create_freed (pos_part missing - n) size deleted in
    (restore original freed, ltb 0 n || ltb 0 k)

unfoldable pub update_for_slices :
    GoMap ProfileName ℤ → List (ProfileName × ℤ) → SlicingGpu → SlicingGpu × Bool
unfolding update_for_slice
update_for_slices original [] g = (g, false)
update_for_slices original ((p, q) ∷ rest) g =
    let (updated, any) = update_for_slice original p q g in
    let (last, more) = update_for_slices original rest updated in (last, any || more)

unfoldable pub update_slices_for : GoMap ProfileName ℤ → SlicingGpu → SlicingGpu × Bool
unfolding update_for_slices get_missing_slices sort_stable
update_slices_for slices g =
    let missing = get_missing_slices slices g in
    if nat_eq (length missing) 0
    then (g, false)
    else update_for_slices g.free_profiles (sort_stable smaller_first missing) g
