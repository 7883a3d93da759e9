-- ===== src/Annotation/Report.antt =====
-- AsStatusAnnotation, GroupByResourceName and GroupByStatus of pkg/gpu/device.go: the annotations that
-- report the devices of a node.
use walkai_nos.Base.{
  ◌≡◌, refl, true, Option, none, some, List, [], ◌∷◌, ◌++◌, String_eq, ℤ, pos, length, Comparable,
  ◌↔◌,
}
use walkai_nos.GoMap.{GoMap}
use walkai_nos.GoMap.Groups.{group_by}
use walkai_nos.Geometry.{ProfileName}
use walkai_nos.Mig.Profile.{ResourceName}
use walkai_nos.Device.{Status, used, free, unknown, same_status, Device, group_by_gpu_index}
use walkai_nos.Annotation.{StatusAnnotation}

pub same_status_iff : (a b : Status) → (same_status a b ≡ true) ↔ (a ≡ b)
same_status_iff used used = (λ _. refl, λ _. refl)
same_status_iff free free = (λ _. refl, λ _. refl)
same_status_iff unknown unknown = (λ _. refl, λ _. refl)
same_status_iff used free = (λ h. cc (h), λ h. cc (h))
same_status_iff used unknown = (λ h. cc (h), λ h. cc (h))
same_status_iff free used = (λ h. cc (h), λ h. cc (h))
same_status_iff free unknown = (λ h. cc (h), λ h. cc (h))
same_status_iff unknown used = (λ h. cc (h), λ h. cc (h))
same_status_iff unknown free = (λ h. cc (h), λ h. cc (h))

instance abbrev pub Status_eq : Comparable Status
Status_eq = record { same = same_status; same_iff = same_status_iff }

abbrev pub group_by_resource_name : List Device → GoMap ResourceName (List Device)
group_by_resource_name l = group_by (λ r. r.resource_name) l

abbrev pub group_by_status : List Device → GoMap Status (List Device)
group_by_status l = group_by (λ r. r.status) l

-- The groups of one resource of one GPU.
unfoldable pub report_statuses :
    ℤ → ProfileName → GoMap Status (List Device) → List StatusAnnotation
report_statuses index profile [] = []
report_statuses index profile ((status, devices) ∷ rest) =
    record {
      profile_name = profile;
      index = index;
      status = status;
      quantity = pos (length devices);
    }
    ∷ report_statuses index profile rest

-- A resource without a profile is left out.
unfoldable pub report_resources :
    (ResourceName → Option ProfileName)
    → ℤ
    → GoMap ResourceName (List Device)
    → List StatusAnnotation
report_resources get_profile index [] = []
report_resources get_profile index ((name, devices) ∷ rest) =
    let later = report_resources get_profile index rest in
    elim (get_profile name) [
      | none ↦ later
      | some profile ↦ report_statuses index profile (group_by_status devices) ++ later
    ]

unfoldable pub report_gpus :
    (ResourceName → Option ProfileName) → GoMap ℤ (List Device) → List StatusAnnotation
report_gpus get_profile [] = []
report_gpus get_profile ((index, devices) ∷ rest) =
    report_resources get_profile index (group_by_resource_name devices)
    ++ report_gpus get_profile rest

abbrev pub as_status_annotation :
    (ResourceName → Option ProfileName) → List Device → List StatusAnnotation
as_status_annotation get_profile l = report_gpus get_profile (group_by_gpu_index l)
