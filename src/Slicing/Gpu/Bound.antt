-- ===== src/Slicing/Gpu/Bound.antt =====
-- The memory of the slices of a GPU: what an update of its geometry keeps.
use walkai_nos.Base.{
  ◌≡◌, refl, ap, subst, Option, none, some, [], ◌∷◌, ℕ, zero, suc, String_eq, ℤ, pos, ◌+ℤ◌, ◌-ℤ◌,
  ◌*ℤ◌, ◌≤ℤ◌, lt_ℤ, if◌then◌else◌, All, Bool-cases, Option-cases, inl, inr, arith, int_laws,
  lt_ℤ→ge, *ℤ-+ℤ, *ℤ_nonneg, ◌==◌,
}
use walkai_nos.GoMap.{GoMap, delete, amount, add_at, put}
use walkai_nos.GoMap.Quantities.{amount-nil, amount-cons}
use walkai_nos.Geometry.{ProfileName}
use walkai_nos.Slicing.Profile.{get_memory_size_gb, new_profile}
use walkai_nos.Slicing.Profile.Memory.{memory_of_new_profile}
use walkai_nos.Slicing.Gpu.{
  SlicingGpu, slices_memory, get_tot_slices_memory, create_slices, create_slice,
  can_create_more_slices, create_spare, create_freed, delete_all, restore,
}

-- m[k] += q, as one pass.
unfoldable add_one : ProfileName → ℤ → GoMap ProfileName ℤ → GoMap ProfileName ℤ
add_one k q [] = (k, pos 0 +ℤ q) ∷ []
add_one k q ((j, w) ∷ m) = if j == k then (j, w +ℤ q) ∷ m else (j, w) ∷ add_one k q m

put-add_one :
    (k : ProfileName) (q a : ℤ) (m : GoMap ProfileName ℤ)
    → a ≡ amount k m
    → put k (a +ℤ q) m ≡ add_one k q m
unfolding put add_one
put-add_one k q a [] e = rw (e, amount-nil k) refl
put-add_one k q a ((j, w) ∷ m) e = elim (Bool-cases (j == k)) [
  | inl hit ↦ let value : a ≡ w = ground (arith, amount-cons j k w m) in rw (hit, value) refl
  | inr miss ↦
      let value : a ≡ amount k m = ground (arith, amount-cons j k w m) in
      rw miss (ap (λ t. (j, w) ∷ t) (put-add_one k q a m value))
]

add_at-add_one : (k : ProfileName) (q : ℤ) (m : GoMap ProfileName ℤ) → add_at k q m ≡ add_one k q m
unfolding add_at
add_at-add_one k q m = put-add_one k q (amount k m) m refl

slices_memory-add_one :
    (k : ProfileName) (q : ℤ) (m : GoMap ProfileName ℤ)
    → slices_memory (add_one k q m) ≡ slices_memory m +ℤ get_memory_size_gb k *ℤ q
unfolding add_one slices_memory
slices_memory-add_one k q [] =
    let zero_first : pos 0 +ℤ q ≡ q = omega int_laws in rw zero_first (omega int_laws)
slices_memory-add_one k q ((j, w) ∷ m) = elim (Bool-cases (j == k)) [
  | inl hit ↦
      rw
        (
          hit,
          ← ap get_memory_size_gb ((String_eq.same_iff j k).0 hit),
          *ℤ-+ℤ (get_memory_size_gb j) w q,
        )
        (omega int_laws)
  | inr miss ↦ rw (miss, slices_memory-add_one k q m) (omega int_laws)
]

-- Neither the size nor the number is negative.
abbrev pub NotNegative : ProfileName → ℤ → Type 0
NotNegative p q = (pos 0 ≤ℤ get_memory_size_gb p) × (pos 0 ≤ℤ q)

abbrev pub IsProper : GoMap ProfileName ℤ → Type 0
IsProper = All (λ e. NotNegative e.0 e.1)

IsProper-add_one :
    (k : ProfileName) (q : ℤ) (m : GoMap ProfileName ℤ)
    → NotNegative k q
    → IsProper m
    → IsProper (add_one k q m)
unfolding add_one
IsProper-add_one k q [] ok h =
    let zero_first : pos 0 +ℤ q ≡ q = omega int_laws in ((ok.0, rw zero_first ok.1), tt)
IsProper-add_one k q ((j, w) ∷ m) ok h = elim (Bool-cases (j == k)) [
  | inl hit ↦ rw hit ((h.0.0, omega (int_laws, ok, h.0)), h.1)
  | inr miss ↦ rw miss (h.0, IsProper-add_one k q m ok h.1)
]

IsProper-delete : (k : ProfileName) (m : GoMap ProfileName ℤ) → IsProper m → IsProper (delete k m)
unfolding delete
IsProper-delete k [] h = tt
IsProper-delete k ((j, w) ∷ m) h = elim (Bool-cases (j == k)) [
  | inl hit ↦ rw hit (IsProper-delete k m h.1)
  | inr miss ↦ rw miss (h.0, IsProper-delete k m h.1)
]

slices_memory-delete :
    (k : ProfileName) (m : GoMap ProfileName ℤ)
    → IsProper m
    → slices_memory (delete k m) ≤ℤ slices_memory m
unfolding delete slices_memory
slices_memory-delete k [] h = omega arith
slices_memory-delete k ((j, w) ∷ m) h = elim (Bool-cases (j == k)) [
  | inl hit ↦ rw hit (
      omega
        (int_laws, slices_memory-delete k m h.1, *ℤ_nonneg (get_memory_size_gb j) w h.0.0 h.0.1))
  | inr miss ↦ rw miss (omega (int_laws, slices_memory-delete k m h.1))
]

-- The slices of the GPU fit into its memory.
abbrev pub WithinMemory : SlicingGpu → Type 0
WithinMemory g = get_tot_slices_memory g ≤ℤ g.memory_gb

-- `h` is a later state of `g`: the GPU and its used slices are the same, and its slices fit.
pub record StaysWithin (g h : SlicingGpu) : Type 0 where
  pub same_model : h.model ≡ g.model
  pub same_index : h.index ≡ g.index
  pub same_memory : h.memory_gb ≡ g.memory_gb
  pub same_used : h.used_profiles ≡ g.used_profiles
  pub fits : WithinMemory h
  pub light : IsProper h.free_profiles

pub unchanged : (g : SlicingGpu) → WithinMemory g → IsProper g.free_profiles → StaysWithin g g
unchanged g w l = record {
  same_model = refl;
  same_index = refl;
  same_memory = refl;
  same_used = refl;
  fits = w;
  light = l;
}

with_free :
    (g h : SlicingGpu) (free : GoMap ProfileName ℤ)
    → StaysWithin g h
    → slices_memory h.used_profiles +ℤ slices_memory free ≤ℤ h.memory_gb
    → IsProper free
    → StaysWithin g (record h { free_profiles = free })
unfolding get_tot_slices_memory
with_free g h free s w l = record {
  same_model = s.same_model;
  same_index = s.same_index;
  same_memory = s.same_memory;
  same_used = s.same_used;
  fits = w;
  light = l;
}

abbrev Later : SlicingGpu → Option SlicingGpu → Type 0
Later g none = Unit
Later g (some h) = StaysWithin g h

added :
    (used free more memory : ℤ)
    → more ≤ℤ memory -ℤ (used +ℤ free)
    → used +ℤ (free +ℤ more) ≤ℤ memory
added used free more memory h = omega (int_laws, h)

-- Slices of the size of a profile are created only where they fit.
create_slices-Later :
    (g h : SlicingGpu) (p : ProfileName) (num : ℤ)
    → NotNegative p num
    → StaysWithin g h
    → Later g (create_slices (get_memory_size_gb p) num h)
unfolding create_slices
create_slices-Later g h p num ok s =
    let size = get_memory_size_gb p in
    let spare = h.memory_gb -ℤ get_tot_slices_memory h in
    elim (Bool-cases (lt_ℤ spare (size *ℤ num))) [
      | inl refused ↦ rw (create_slices, refused) tt
      | inr accepted ↦
          let room : size *ℤ num ≤ℤ spare = lt_ℤ→ge spare (size *ℤ num) accepted in
          let same = add_at-add_one (new_profile size) num h.free_profiles in
          let memory = memory_of_new_profile p in
          let ok_new : NotNegative (new_profile size) num = (rw memory ok.0, ok.1) in
          let total : slices_memory h.used_profiles
                +ℤ slices_memory (add_one (new_profile size) num h.free_profiles)
              ≤ℤ h.memory_gb =
            rw (slices_memory-add_one (new_profile size) num h.free_profiles, memory)
              (added (slices_memory h.used_profiles) (slices_memory h.free_profiles) (size *ℤ num)
                h.memory_gb room) in
          rw (create_slices, accepted, same)
            (with_free g h (add_one (new_profile size) num h.free_profiles) s total
              (IsProper-add_one (new_profile size) num h.free_profiles ok_new s.light))
    ]

create_slice-Later :
    (g h : SlicingGpu) (p : ProfileName)
    → pos 0 ≤ℤ get_memory_size_gb p
    → StaysWithin g h
    → Later g (create_slice (get_memory_size_gb p) h)
create_slice-Later g h p ok s = create_slices-Later g h p (pos 1) (ok, omega arith) s

pub create_spare-StaysWithin :
    (rounds : ℕ) (g h : SlicingGpu) (p : ProfileName)
    → pos 0 ≤ℤ get_memory_size_gb p
    → StaysWithin g h
    → StaysWithin g (create_spare rounds (get_memory_size_gb p) h).0
unfolding create_spare
create_spare-StaysWithin zero g h p ok s = s
create_spare-StaysWithin (suc rounds) g h p ok s =
    let later = create_slice-Later g h p ok s in
    elim (Option-cases (create_slice (get_memory_size_gb p) h)) [
      | inl failed ↦ rw (create_spare, failed) s
      | inr (k, made) ↦
          let next : StaysWithin g k = subst (Later g) made later in
          rw (create_spare, made) (create_spare-StaysWithin rounds g k p ok next)
    ]

pub create_freed-StaysWithin :
    (rounds : ℕ) (g h : SlicingGpu) (p : ProfileName)
    → pos 0 ≤ℤ get_memory_size_gb p
    → StaysWithin g h
    → StaysWithin g (create_freed rounds (get_memory_size_gb p) h).0
unfolding create_freed
create_freed-StaysWithin zero g h p ok s = s
create_freed-StaysWithin (suc rounds) g h p ok s =
    let later = create_slice-Later g h p ok s in
    elim (Bool-cases (can_create_more_slices h)) [
      | inr full ↦ rw (create_freed, full) s
      | inl room ↦ elim (Option-cases (create_slice (get_memory_size_gb p) h)) [
        | inl failed ↦ rw (create_freed, room, failed) s
        | inr (k, made) ↦
            let next : StaysWithin g k = subst (Later g) made later in
            rw (create_freed, room, made) (create_freed-StaysWithin rounds g k p ok next)
      ]
    ]

pub restore-StaysWithin :
    (original : GoMap ProfileName ℤ) (g h : SlicingGpu)
    → IsProper original
    → StaysWithin g h
    → StaysWithin g (restore original h)
unfolding restore
restore-StaysWithin [] g h l s = s
restore-StaysWithin ((k, v) ∷ rest) g h l s =
    let later = create_slices-Later g h k v l.0 s in
    elim (Option-cases (create_slices (get_memory_size_gb k) v h)) [
      | inl failed ↦ rw failed (restore-StaysWithin rest g h l.1 s)
      | inr (made, e) ↦ rw e (restore-StaysWithin rest g made l.1 (subst (Later g) e later))
    ]

delete_all_light :
    (original m : GoMap ProfileName ℤ)
    → IsProper m
    → IsProper (delete_all original m) × (slices_memory (delete_all original m) ≤ℤ slices_memory m)
unfolding delete_all
delete_all_light [] m l = (l, omega arith)
delete_all_light ((k, v) ∷ rest) m l =
    let (light, less) = delete_all_light rest (delete k m) (IsProper-delete k m l) in
    (light, omega (arith, less, slices_memory-delete k m l))

pub deleted-StaysWithin :
    (original : GoMap ProfileName ℤ) (g h : SlicingGpu)
    → StaysWithin g h
    → StaysWithin g (record h { free_profiles = delete_all original h.free_profiles })
unfolding get_tot_slices_memory
deleted-StaysWithin original g h s =
    let (light, less) = delete_all_light original h.free_profiles s.light in
    with_free g h (delete_all original h.free_profiles) s (omega (int_laws, s.fits, less)) light
