-- ===== src/Slicing/Profile.antt =====
-- profile.go and util.go of pkg/gpu/slicing: the names of slices and the memory that they stand for.
pub mod Memory
use walkai_nos.Base.{
  Bool, true, false, Option, none, some, List, [], ◌∷◌, String, String_eq, ℕ, ℤ, pos, lt_ℤ, ◌==◌,
  if◌then◌else◌,
}
use walkai_nos.GoMap.{GoMap, add_at}
use walkai_nos.Text.{join, strip, trim_prefix, digits, match_string}
use walkai_nos.Text.Decimal.{atoi, itoa}
use walkai_nos.Kube.{ResourceList, Pod}
use walkai_nos.Pods.{Quota, compute_pod_request}
use walkai_nos.Geometry.{ProfileName}
use walkai_nos.Mig.Profile.{ResourceName}

-- strings.TrimSuffix: the first place at which the rest is the suffix is where it is cut off.
unfoldable pub trim_suffix : String → String → String
trim_suffix String.[] suffix = String.[]
trim_suffix (String.◌∷◌ c s) suffix =
    let rest = trim_suffix s suffix in
    if String.◌∷◌ c s == suffix then String.[] else String.◌∷◌ c rest

abbrev pub profile_name_prefix : String
profile_name_prefix = "nvidia.com/gpu-"

-- A match of `nvidia\.com/gpu-\d+gb` at the start.
unfoldable pub slice_at_start : String → Option String
unfolding digits strip
slice_at_start s = elim (strip "nvidia.com/gpu-" s) [
  | none ↦ none
  | some rest ↦ elim (digits rest) [ none ↦ none | some unit ↦ strip "gb" unit ]
]

unfoldable pub is_gpu_slice : ResourceName → Bool
unfolding slice_at_start match_string
is_gpu_slice r = match_string slice_at_start r

unfoldable pub extract_slice_profile : ResourceName → Option ProfileName
unfolding is_gpu_slice trim_prefix
extract_slice_profile r = if is_gpu_slice r then some (trim_prefix r profile_name_prefix) else none

unfoldable pub new_profile : ℤ → ProfileName
unfolding itoa join
new_profile size_gb = join (itoa size_gb) "gb"

unfoldable pub get_memory_size_gb : ProfileName → ℤ
unfolding atoi trim_prefix trim_suffix
get_memory_size_gb p = elim (atoi (trim_suffix (trim_prefix p profile_name_prefix) "gb")) [
  | none ↦ pos 0
  | some i ↦ i
]

-- Of two slicing profiles; a profile of another kind is not larger.
abbrev pub slice_smaller_than : ProfileName → ProfileName → Bool
slice_smaller_than p other = lt_ℤ (get_memory_size_gb p) (get_memory_size_gb other)

unfoldable pub slice_resource_name : ProfileName → ResourceName
unfolding join
slice_resource_name p = join profile_name_prefix p

unfoldable pub add_slices_of : ResourceList → GoMap ProfileName ℤ → GoMap ProfileName ℤ
unfolding extract_slice_profile
add_slices_of [] res = res
add_slices_of ((r, quantity) ∷ rest) res =
    add_slices_of rest
      (elim (extract_slice_profile r) [ none ↦ res | some p ↦ add_at p quantity res ])

unfoldable pub get_requested_slices : Quota → Pod → GoMap ProfileName ℤ
unfolding add_slices_of
get_requested_slices quota p = add_slices_of (compute_pod_request quota p) []

-- What stands before the first separator, or the whole text: ExtractGpuId.
unfoldable pub extract_gpu_id : String → String
unfolding strip
extract_gpu_id String.[] = String.[]
extract_gpu_id (String.◌∷◌ c s) =
    let rest = extract_gpu_id s in
    elim (strip "::" (String.◌∷◌ c s)) [ none ↦ String.◌∷◌ c rest | some _ ↦ String.[] ]
