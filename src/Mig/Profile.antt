-- ===== src/Mig/Profile.antt =====
-- pkg/gpu/mig/profile.go and the names of pkg/gpu/mig/util.go: MIG profiles and the resources that
-- stand for them.
use walkai_nos.Base.{
  ◌≡◌, refl, ◌↔◌, Bool, true, ◌&&◌, Option, none, some, String, String_eq, ℤ, eq_ℤ, eq_ℤ_iff,
  Comparable, ◌==◌, arith, if◌then◌else◌, int_eq,
}
use walkai_nos.Geometry.{ProfileName}
use walkai_nos.Text.{join, match_string, trim_prefix, profile_at_start, resource_at_start}

abbrev pub ResourceName : Type 0
ResourceName = String

unfoldable pub is_valid : ProfileName → Bool
unfolding match_string profile_at_start
is_valid p = match_string profile_at_start p

abbrev pub nvidia_mig_resource_prefix : String
nvidia_mig_resource_prefix = "nvidia.com/mig-"

unfoldable pub as_resource_name : ProfileName → ResourceName
unfolding join
as_resource_name p = join nvidia_mig_resource_prefix p

unfoldable pub is_nvidia_mig_device : ResourceName → Bool
unfolding match_string resource_at_start
is_nvidia_mig_device name = match_string resource_at_start name

-- `none` is the error.
unfoldable pub extract_profile_name : ResourceName → Option ProfileName
unfolding is_nvidia_mig_device trim_prefix
extract_profile_name name =
    if is_nvidia_mig_device name then some (trim_prefix name "nvidia.com/mig-") else none

pub record Profile : Type 0 where
  pub gpu_index : ℤ
  pub name : ProfileName

abbrev pub same_profile : Profile → Profile → Bool
same_profile a b = eq_ℤ a.gpu_index b.gpu_index && (a.name == b.name)

pub same_profile_iff : (a b : Profile) → (same_profile a b ≡ true) ↔ (a ≡ b)
same_profile_iff a b =
    ground (arith, eq_ℤ_iff a.gpu_index b.gpu_index, String_eq.same_iff a.name b.name)

instance abbrev pub Profile_eq : Comparable Profile
Profile_eq = record { same = same_profile; same_iff = same_profile_iff }

extract_small : extract_profile_name "nvidia.com/mig-1g.10gb" ≡ some "1g.10gb"
unfolding extract_profile_name
extract_small = refl

extract_other : extract_profile_name "nvidia.com/gpu" ≡ none
unfolding extract_profile_name
extract_other = refl

-- The expressions are not anchored: more text may stand on both sides of a match.
valid_unanchored : is_valid "x1g.5gby" ≡ true
unfolding is_valid
valid_unanchored = refl
