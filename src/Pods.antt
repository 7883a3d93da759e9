-- ===== src/Pods.antt =====
-- pkg/util/pod/pod.go, ComputePodRequest of pkg/resource/resource.go and GetRequestedProfiles of
-- pkg/gpu/mig/util.go: what the program asks of a pod.
use walkai_nos.Base.{
  Bool, true, false, ◌&&◌, not, none, some, List, [], ◌∷◌, String, String_eq, ℤ, pos, lt_ℤ, ◌==◌,
  if◌then◌else◌,
}
use walkai_nos.GoMap.{GoMap, add_at}
use walkai_nos.Geometry.{ProfileName}
use walkai_nos.Mig.Profile.{extract_profile_name}
use walkai_nos.Kube.{ResourceList, Condition, Owner, Pod}

abbrev pub is_pending : Pod → Bool
is_pending p = p.phase == "Pending"

abbrev pub is_scheduled : Pod → Bool
is_scheduled p = not (p.node_name == "")

abbrev pub is_preempting : Pod → Bool
is_preempting p = not (p.nominated_node_name == "")

unfoldable pub has_unschedulable : List Condition → Bool
has_unschedulable [] = false
has_unschedulable (c ∷ rest) =
    if (c.kind == "PodScheduled") && (c.reason == "Unschedulable")
    then true
    else has_unschedulable rest

abbrev pub is_unschedulable : Pod → Bool
is_unschedulable p = has_unschedulable p.conditions

unfoldable pub is_owned_by : String → String → List Owner → Bool
is_owned_by api_version kind [] = false
is_owned_by api_version kind (o ∷ rest) =
    if (o.api_version == api_version) && (o.kind == kind)
    then true
    else is_owned_by api_version kind rest

abbrev pub is_owned_by_daemon_set : Pod → Bool
is_owned_by_daemon_set p = is_owned_by "apps/v1" "DaemonSet" p.owners

abbrev pub is_owned_by_node : Pod → Bool
is_owned_by_node p = is_owned_by "v1" "Node" p.owners

abbrev pub extra_resources_could_help_scheduling : Pod → Bool
extra_resources_could_help_scheduling p =
    not (is_scheduled p)
    && is_pending p
    && is_unschedulable p
    && not (is_preempting p)
    && not (is_owned_by_daemon_set p)
    && not (is_owned_by_node p)

-- corev1.PodPriority is not code of the repository.
abbrev pub is_more_important : (Pod → ℤ) → Pod → Pod → Bool
is_more_important pod_priority p q = lt_ℤ (pod_priority q) (pod_priority p)

abbrev pub default_priority_class_value : ℤ
default_priority_class_value = pos 1000

-- podPriorityOrDefault of the partitioner
abbrev pub pod_priority_or_default : Pod → ℤ
pod_priority_or_default p = elim p.priority [ none ↦ default_priority_class_value | some v ↦ v ]

-- Add and Max of k8s.io/apiserver/pkg/quota/v1, which are not code of the repository.
pub record Quota : Type 0 where
  pub add : ResourceList → ResourceList → ResourceList
  pub max : ResourceList → ResourceList → ResourceList

unfoldable pub combine :
    (ResourceList → ResourceList → ResourceList) → List ResourceList → ResourceList → ResourceList
combine op [] res = res
combine op (c ∷ rest) res = combine op rest (op res c)

-- The code computes the sum with the overhead and drops it, so that the overhead does not count.
abbrev pub compute_pod_request : Quota → Pod → ResourceList
compute_pod_request quota p =
    quota.max (combine quota.add p.containers []) (combine quota.max p.init_containers [])

unfoldable pub add_profiles_of : ResourceList → GoMap ProfileName ℤ → GoMap ProfileName ℤ
unfolding extract_profile_name
add_profiles_of [] res = res
add_profiles_of ((r, quantity) ∷ rest) res =
    add_profiles_of rest
      (elim (extract_profile_name r) [ none ↦ res | some p ↦ add_at p quantity res ])

unfoldable pub get_requested_profiles : Quota → Pod → GoMap ProfileName ℤ
unfolding add_profiles_of
get_requested_profiles quota p = add_profiles_of (compute_pod_request quota p) []
