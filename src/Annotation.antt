-- ===== src/Annotation.antt =====
-- pkg/gpu/annotation.go and pkg/gpu/mig/annotation.go: the desired and the reported devices of a node.
pub mod AnyOrder
pub mod Format
pub mod RoundTrip
pub mod Write
pub mod Report
pub mod Statuses
use walkai_nos.Base.{List, ℤ, int_eq, Bool}
use walkai_nos.GoMap.{GoMap}
use walkai_nos.GoMap.Groups.{group_by}
use walkai_nos.Geometry.{ProfileName}
use walkai_nos.Mig.Profile.{Profile, Profile_eq}
use walkai_nos.Device.{Status, used, free, same_status}

pub record SpecAnnotation : Type 0 where
  pub profile_name : ProfileName
  pub index : ℤ
  pub quantity : ℤ

pub record StatusAnnotation : Type 0 where
  pub profile_name : ProfileName
  pub index : ℤ
  pub status : Status
  pub quantity : ℤ

abbrev pub is_used : StatusAnnotation → Bool
is_used a = same_status a.status used

abbrev pub is_free : StatusAnnotation → Bool
is_free a = same_status a.status free

unfoldable pub group_spec_by_gpu_index : List SpecAnnotation → GoMap ℤ (List SpecAnnotation)
unfolding group_by
group_spec_by_gpu_index l = group_by (λ r. r.index) l

unfoldable pub group_status_by_gpu_index : List StatusAnnotation → GoMap ℤ (List StatusAnnotation)
unfolding group_by
group_status_by_gpu_index l = group_by (λ r. r.index) l

abbrev pub spec_profile : SpecAnnotation → Profile
spec_profile a = record { gpu_index = a.index; name = a.profile_name }

-- GroupSpecAnnotationsByMigProfile of pkg/gpu/mig/annotation.go
unfoldable pub group_spec_annotations_by_mig_profile :
    List SpecAnnotation → GoMap Profile (List SpecAnnotation)
unfolding group_by
group_spec_annotations_by_mig_profile l = group_by spec_profile l
