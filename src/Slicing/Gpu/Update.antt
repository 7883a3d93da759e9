-- ===== src/Slicing/Gpu/Update.antt =====
-- UpdateGeometryFor of pkg/gpu/slicing/gpu.go: the whole update keeps the used slices and the memory.
use walkai_nos.Base.{
  sym, subst, ◌<ℤ◌, lt_ℤ→lt, All-map, List, [], ◌∷◌, ◌-◌, String_eq, ℤ, pos, pos_part, ◌-ℤ◌, ◌≤ℤ◌,
  lt_ℤ, nat_eq, length, if◌then◌else◌, All, Bool-cases, inl, inr,
}
use walkai_nos.GoMap.{GoMap, amount, put}
use walkai_nos.Geometry.{ProfileName}
use walkai_nos.Partitioner.Order.{sort_stable}
use walkai_nos.Partitioner.Order.Sorted.{sort_stable-All}
use walkai_nos.Slicing.Profile.{get_memory_size_gb}
use walkai_nos.Slicing.Gpu.{
  SlicingGpu, can_create_more_slices, create_spare, create_freed, delete_all, get_missing_slices,
  update_for_slice, update_for_slices, update_slices_for, smaller_first,
}
use walkai_nos.Slicing.Gpu.Bound.{
  IsProper, WithinMemory, StaysWithin, unchanged, create_spare-StaysWithin,
  create_freed-StaysWithin, restore-StaysWithin, deleted-StaysWithin,
}

-- No profile has a negative size.
abbrev pub HasSize : ProfileName → Type 0
HasSize p = pos 0 ≤ℤ get_memory_size_gb p

abbrev pub IsSized : GoMap ProfileName ℤ → Type 0
IsSized = All (λ e. HasSize e.0)

-- What holds of the required profiles holds of the missing ones, which are missing in a positive number.
pub put-All :
    (P : ProfileName × ℤ → Type 0) (p : ProfileName) (q : ℤ) (m : GoMap ProfileName ℤ)
    → P (p, q)
    → All P m
    → All P (put p q m)
unfolding put
put-All P p q [] ok h = (ok, tt)
put-All P p q ((j, w) ∷ m) ok h = elim (Bool-cases (String_eq.same j p)) [
  | inl hit ↦ rw hit (subst (λ k. P (k, q)) (sym ((String_eq.same_iff j p).0 hit)) ok, h.1)
  | inr miss ↦ rw miss (h.0, put-All P p q m ok h.1)
]

abbrev pub IsMissing : (ProfileName → Type 0) → ProfileName × ℤ → Type 0
IsMissing P e = P e.0 × (pos 0 <ℤ e.1)

pub get_missing_slices-All :
    (P : ProfileName → Type 0) (required : GoMap ProfileName ℤ) (g : SlicingGpu)
    → All (λ e. P e.0) required
    → All (IsMissing P) (get_missing_slices required g)
unfolding get_missing_slices
get_missing_slices-All P [] g h = tt
get_missing_slices-All P ((p, q) ∷ rest) g h =
    let diff = q -ℤ amount p g.free_profiles in
    elim (Bool-cases (lt_ℤ (pos 0) diff)) [
      | inl more ↦ rw more (
          put-All (IsMissing P) p diff (get_missing_slices rest g) (h.0, lt_ℤ→lt (pos 0) diff more)
            (get_missing_slices-All P rest g h.1))
      | inr enough ↦ rw enough (get_missing_slices-All P rest g h.1)
    ]

update_for_slice-StaysWithin :
    (original : GoMap ProfileName ℤ) (p : ProfileName) (missing : ℤ) (g h : SlicingGpu)
    → IsProper original
    → pos 0 ≤ℤ get_memory_size_gb p
    → StaysWithin g h
    → StaysWithin g (update_for_slice original p missing h).0
unfolding update_for_slice
update_for_slice-StaysWithin original p missing g h light ok s =
    let size = get_memory_size_gb p in
    let spared =
      if can_create_more_slices h then create_spare (pos_part missing) size h else (h, 0) in
    let first : StaysWithin g spared.0 = elim (Bool-cases (can_create_more_slices h)) [
      | inl room ↦ rw room (create_spare-StaysWithin (pos_part missing) g h p ok s)
      | inr full ↦ rw full s
    ] in
    let deleted = record spared.0 { free_profiles = delete_all original spared.0.free_profiles } in
    let freed : StaysWithin g (create_freed (pos_part missing - spared.1) size deleted).0 =
      create_freed-StaysWithin (pos_part missing - spared.1) g deleted p ok
        (deleted-StaysWithin original g spared.0 first) in
    restore-StaysWithin original g (create_freed (pos_part missing - spared.1) size deleted).0 light
      freed

update_for_slices-StaysWithin :
    (original : GoMap ProfileName ℤ) (missing : List (ProfileName × ℤ)) (g h : SlicingGpu)
    → IsProper original
    → IsSized missing
    → StaysWithin g h
    → StaysWithin g (update_for_slices original missing h).0
unfolding update_for_slices
update_for_slices-StaysWithin original [] g h light sized s = s
update_for_slices-StaysWithin original ((p, q) ∷ rest) g h light sized s =
    update_for_slices-StaysWithin original rest g (update_for_slice original p q h).0 light sized.1
      (update_for_slice-StaysWithin original p q g h light sized.0 s)

-- A GPU whose slices fit into its memory, and whose free slices have no negative size or number, is
-- updated for slices of no negative size. Then its model, index, memory and used slices are the same,
-- its slices still fit into its memory, and its free slices have no negative size or number.
pub update_slices_for-StaysWithin :
    (required : GoMap ProfileName ℤ) (g : SlicingGpu)
    → IsSized required
    → WithinMemory g
    → IsProper g.free_profiles
    → StaysWithin g (update_slices_for required g).0
unfolding update_slices_for
update_slices_for-StaysWithin required g sized within light =
    let missing = get_missing_slices required g in
    let start = unchanged g within light in
    elim (Bool-cases (nat_eq (length missing) 0)) [
      | inl nothing ↦ rw nothing start
      | inr some_missing ↦ rw some_missing (
          update_for_slices-StaysWithin g.free_profiles (sort_stable smaller_first missing) g g
            light
            (sort_stable-All smaller_first (λ e. pos 0 ≤ℤ get_memory_size_gb e.0) missing
              (All-map (λ e (found : IsMissing HasSize e). found.0) missing
                (get_missing_slices-All HasSize required g sized)))
            start)
    ]
