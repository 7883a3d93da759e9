-- ===== src/Cluster/Summaries.antt =====
-- collector.go: the summaries of the pods that ask for MIG devices.
use walkai_nos.Base.{
  Bool, not, Option, none, some, List, [], ◌∷◌, String, String_eq, ℤ, pos, lt_ℤ, length, nat_eq,
  ◌==◌, if◌then◌else◌,
}
use walkai_nos.GoMap.{GoMap, get?}
use walkai_nos.Text.{join}
use walkai_nos.Text.Decimal.{itoa}
use walkai_nos.Geometry.{ProfileName}
use walkai_nos.Pods.{Quota, get_requested_profiles}
use walkai_nos.Partitioner.Order.{sort_stable}
use walkai_nos.Cluster.Times.{
  ContainerStatus, Terminated, ClusterPod, pod_start_time, pod_finish_time,
}
use walkai_nos.Cluster.Totals.{text_before}

pub record PodSummary : Type 0 where
  pub name : String
  pub namespace : String
  pub status : String
  pub gpu : String
  pub start_time : Option ℤ
  pub finish_time : Option ℤ

abbrev pub text_or_empty : Option String → String
text_or_empty none = ""
text_or_empty (some text) = text

abbrev pub terminated_reason : Option Terminated → String
terminated_reason none = ""
terminated_reason (some t) = t.reason

-- The first state with a reason, or of a running container.
unfoldable pub container_statuses_reason : List ContainerStatus → String
container_statuses_reason [] = ""
container_statuses_reason (s ∷ rest) =
    let later = container_statuses_reason rest in
    if not (text_or_empty s.state.waiting == "")
    then text_or_empty s.state.waiting
    else if not (terminated_reason s.state.terminated == "")
    then terminated_reason s.state.terminated
    else if s.state.running
    then "Running"
    else later

unfoldable pub pod_status : ClusterPod → String
unfolding container_statuses_reason
pod_status p =
    let containers = container_statuses_reason p.container_statuses in
    let init = container_statuses_reason p.init_container_statuses in
    if p.pod.is_deleted
    then "Terminating"
    else if not (containers == "")
    then containers
    else if not (init == "")
    then init
    else if not (p.pod.phase == "")
    then p.pod.phase
    else "Unknown"

-- The keys of the map.
unfoldable pub names_of : GoMap ProfileName ℤ → List String
names_of [] = []
names_of ((profile, q) ∷ rest) = profile ∷ names_of rest

abbrev pub label_of : String → ℤ → String
label_of key qty = if lt_ℤ (pos 1) qty then join key (join " x" (itoa qty)) else key

unfoldable pub labels_of : GoMap ProfileName ℤ → List String → List String
unfolding join itoa
labels_of profiles [] = []
labels_of profiles (key ∷ rest) =
    let later = labels_of profiles rest in
    elim (get? key profiles) [ none ↦ later | some qty ↦ label_of key qty ∷ later ]

-- strings.Join(parts, ", ")
unfoldable pub join_all : List String → String
unfolding join
join_all [] = ""
join_all (part ∷ []) = part
join_all (part ∷ next ∷ rest) = join part (join ", " (join_all (next ∷ rest)))

unfoldable pub format_profiles : GoMap ProfileName ℤ → String
unfolding names_of labels_of join_all sort_stable
format_profiles profiles =
    if nat_eq (length profiles) 0
    then ""
    else join_all (labels_of profiles (sort_stable text_before (names_of profiles)))

unfoldable pub pod_summaries : Quota → List ClusterPod → List PodSummary
unfolding get_requested_profiles pod_status format_profiles
pod_summaries quota [] = []
pod_summaries quota (p ∷ rest) =
    let profiles = get_requested_profiles quota p.pod in
    let later = pod_summaries quota rest in
    if nat_eq (length profiles) 0
    then later
    else record {
      name = p.pod.name;
      namespace = p.pod.namespace;
      status = pod_status p;
      gpu = format_profiles profiles;
      start_time = pod_start_time p;
      finish_time = pod_finish_time p;
    }
      ∷ later

abbrev pub summary_before : PodSummary → PodSummary → Bool
summary_before a b =
    if a.namespace == b.namespace
    then text_before a.name b.name
    else text_before a.namespace b.namespace

-- Two pods have different names or namespaces, so that there is one order.
unfoldable pub build_pod_summaries : Quota → List ClusterPod → List PodSummary
unfolding pod_summaries sort_stable
build_pod_summaries quota pods = sort_stable summary_before (pod_summaries quota pods)
