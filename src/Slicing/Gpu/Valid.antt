-- ===== src/Slicing/Gpu/Valid.antt =====
-- Validate of pkg/gpu/slicing/gpu.go accepts the GPUs whose slices fit into the memory.
use walkai_nos.Base.{
  ◌≡◌, refl, sym, ap, not, ◌∙◌, ◌↔◌, ◌⊎◌, true, false, none, some, [], ◌∷◌, String_eq, ℤ, pos, ◌+ℤ◌,
  ◌*ℤ◌, ◌≤ℤ◌, lt_ℤ, lt_ℤ→ge, All, Bool-cases, inl, inr, arith, int_laws, +ℤ_assoc, ◌%◌, ◌^◌, leb,
  negsuc,
}
use native.Mathlib.Nat.{mod-eq_of_lt}
use walkai_nos.Text.Decimal.{max_int, IsInt64}
use walkai_nos.GoMap.{GoMap}
use walkai_nos.Geometry.{ProfileName}
use walkai_nos.Slicing.Profile.{get_memory_size_gb}
use walkai_nos.Slicing.Gpu.{
  SlicingGpu, min_slice_memory_gb, checked_memory, wrap_int64, validate, slices_memory,
  get_tot_slices_memory,
}
use walkai_nos.Slicing.Gpu.Bound.{WithinMemory}

-- Every profile has the least size or more.
abbrev pub IsLargeEnough : GoMap ProfileName ℤ → Type 0
IsLargeEnough = All (λ e. min_slice_memory_gb ≤ℤ get_memory_size_gb e.0)

wrap-in_range : (z : ℤ) → IsInt64 z → wrap_int64 z ≡ z
unfolding wrap_int64
wrap-in_range (pos n) h =
    let same : n % 2 ^ 64 ≡ n = mod-eq_of_lt (omega (arith, h)) in
    let low : leb n max_int ≡ true = ground (arith, h) in rw (same, low) refl
wrap-in_range (negsuc n) h =
    let same : n % 2 ^ 64 ≡ n = mod-eq_of_lt (omega (arith, h)) in
    let low : leb n max_int ≡ true = ground (arith, h) in rw (same, low) refl

-- The memory of each profile, and each total on the way, are numbers of 64 bits.
abbrev pub NoneWraps : GoMap ProfileName ℤ → ℤ → Type 0
NoneWraps [] total = Unit
NoneWraps ((p, q) ∷ rest) total =
    IsInt64 (get_memory_size_gb p *ℤ q)
    × IsInt64 (total +ℤ get_memory_size_gb p *ℤ q)
    × NoneWraps rest (total +ℤ get_memory_size_gb p *ℤ q)

-- So they are for the used profiles, and behind these for the free ones.
abbrev pub HasInt64Totals : GoMap ProfileName ℤ → GoMap ProfileName ℤ → Type 0
HasInt64Totals used free = NoneWraps used (pos 0) × NoneWraps free (pos 0 +ℤ slices_memory used)

-- The memory of the profiles if they are large enough, and an error otherwise.
checked_memory_outcomes :
    (m : GoMap ProfileName ℤ) (total : ℤ)
    → NoneWraps m total
    → (IsLargeEnough m × (checked_memory m total ≡ some (total +ℤ slices_memory m)))
      ⊎ ((¬ IsLargeEnough m) × (checked_memory m total ≡ none))
unfolding checked_memory slices_memory
checked_memory_outcomes [] total n =
    let same : total ≡ total +ℤ pos 0 = omega int_laws in inl (tt, ap some same)
checked_memory_outcomes ((p, q) ∷ rest) total n =
    let size = get_memory_size_gb p in
    let next = total +ℤ size *ℤ q in
    let exact : wrap_int64 (total +ℤ wrap_int64 (size *ℤ q)) ≡ next =
      ap (λ t. wrap_int64 (total +ℤ t)) (wrap-in_range (size *ℤ q) n.0) ∙ wrap-in_range next n.1 in
    elim (Bool-cases (lt_ℤ size min_slice_memory_gb)) [
      | inl small ↦ inr (λ (h : IsLargeEnough ((p, q) ∷ rest)). ground (arith, h.0), rw small refl)
      | inr large ↦ elim (checked_memory_outcomes rest next n.2) [
        | inl (ok, e) ↦ inl (
          (lt_ℤ→ge size min_slice_memory_gb large, ok),
          rw (large, exact, e, +ℤ_assoc total (size *ℤ q) (slices_memory rest)) refl,
        )
        | inr (bad, e) ↦
            inr (λ (h : IsLargeEnough ((p, q) ∷ rest)). bad h.1, rw (large, exact, e) refl)
      ]
    ]

fits_iff : (total memory : ℤ) → (not (lt_ℤ memory total) ≡ true) ↔ (total ≤ℤ memory)
fits_iff total memory = ground arith

-- Where no memory of a profile and no total on the way leaves the 64 bits, a GPU is valid exactly if each of its used and free profiles has a size of 1 GB or more and its
-- slices fit into its memory.
pub validate_iff :
    (g : SlicingGpu)
    → HasInt64Totals g.used_profiles g.free_profiles
    → (validate g ≡ true)
      ↔ (IsLargeEnough g.used_profiles × IsLargeEnough g.free_profiles × WithinMemory g)
unfolding validate get_tot_slices_memory
validate_iff g n =
    let used = slices_memory g.used_profiles in
    let free = slices_memory g.free_profiles in
    elim (checked_memory_outcomes g.used_profiles (pos 0) n.0) [
      | inr (bad, e) ↦
          let refused : validate g ≡ false = rw (validate, e) refl in
          (λ h. absurd (cc (h, refused)), λ h. absurd (bad h.0))
      | inl (ok, e) ↦ elim (checked_memory_outcomes g.free_profiles (pos 0 +ℤ used) n.1) [
        | inr (bad, f) ↦
            let refused : validate g ≡ false = rw (validate, e, f) refl in
            (λ h. absurd (cc (h, refused)), λ h. absurd (bad h.1))
        | inl (fine, f) ↦
            let same : pos 0 +ℤ used +ℤ free ≡ used +ℤ free = omega int_laws in
            let decided : validate g ≡ not (lt_ℤ g.memory_gb (used +ℤ free)) =
              rw (validate, e, f, same) refl in
            let (fits, accepted) = fits_iff (used +ℤ free) g.memory_gb in
            (λ h. (ok, fine, fits (sym decided ∙ h)), λ h. decided ∙ accepted h.2)
      ]
    ]
