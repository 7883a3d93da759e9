-- ===== src/Geometry.antt =====
-- pkg/gpu/partitioning.go: slices and geometries.
pub mod Compare
use walkai_nos.Base.{
  ◌≡◌, refl, ◌↔◌, Bool, true, false, Option, none, some, List, [], ◌∷◌, String, ℤ, arith,
  Comparable, ◌==◌, String_eq, length, ltb, if◌then◌else◌,
}
use walkai_nos.GoMap.{GoMap}

-- `ProfileName` of pkg/gpu/mig and of pkg/gpu/slicing implement the interface `Slice`.
abbrev pub ProfileName : Type 0
ProfileName = String

pub data Slice : Type 0 where
  mig_profile : ProfileName → Slice
  slicing_profile : ProfileName → Slice

abbrev pub slice_beq : Slice → Slice → Bool
slice_beq (mig_profile p) (mig_profile q) = p == q
slice_beq (slicing_profile p) (slicing_profile q) = p == q
slice_beq (mig_profile p) (slicing_profile q) = false
slice_beq (slicing_profile p) (mig_profile q) = false

pub slice_beq_iff : (a b : Slice) → (slice_beq a b ≡ true) ↔ (a ≡ b)
slice_beq_iff (mig_profile p) (mig_profile q) = ground (arith, String_eq.same_iff p q)
slice_beq_iff (slicing_profile p) (slicing_profile q) = ground (arith, String_eq.same_iff p q)
slice_beq_iff (mig_profile p) (slicing_profile q) = ground arith
slice_beq_iff (slicing_profile p) (mig_profile q) = ground arith

instance abbrev pub Slice_eq : Comparable Slice
Slice_eq = record { same = slice_beq; same_iff = slice_beq_iff }

-- s.(ProfileName) in pkg/gpu/mig
abbrev pub as_mig : Slice → Option ProfileName
as_mig (mig_profile p) = some p
as_mig (slicing_profile p) = none

abbrev pub Geometry : Type 0
Geometry = GoMap Slice ℤ

abbrev fewer_slices : Option Geometry → Geometry → Option Geometry
fewer_slices none geometry = some geometry
fewer_slices (some least) geometry =
    if ltb (length geometry) (length least) then some geometry else some least

fewest_from : Option Geometry → List Geometry → Option Geometry
fewest_from least [] = least
fewest_from least (geometry ∷ rest) = fewest_from (fewer_slices least geometry) rest

-- The result is nil, `none`, for an empty list only.
unfoldable pub get_fewest_slices_geometry : List Geometry → Option Geometry
unfolding fewest_from
get_fewest_slices_geometry geometries = fewest_from none geometries
