-- ===== src/Cluster/Times.antt =====
-- collector.go: the states of the containers of a pod, and the times at which a pod started and finished.
pub mod Latest
use walkai_nos.Base.{
  Bool, true, false, ◌||◌, not, Option, none, some, List, [], ◌∷◌, String, String_eq, ℤ, ◌-ℤ◌, lt_ℤ,
  ◌==◌, if◌then◌else◌,
}
use walkai_nos.Kube.{Pod}

-- Times are in nanoseconds; `none` is no time, or the zero time.
pub record Terminated : Type 0 where
  pub reason : String
  pub finished_at : Option ℤ

-- v1.ContainerState, by its fields that the code reads: the reason of `waiting`, and whether it is running.
pub record ContainerState : Type 0 where
  pub waiting : Option String
  pub running : Bool
  pub terminated : Option Terminated

pub record ContainerStatus : Type 0 where
  pub state : ContainerState
  pub last_termination_state : ContainerState

pub record ClusterPod : Type 0 where
  pub pod : Pod
  pub start_time : Option ℤ
  pub container_statuses : List ContainerStatus
  pub init_container_statuses : List ContainerStatus
  pub ephemeral_container_statuses : List ContainerStatus

abbrev pub finished_at : ContainerState → Option ℤ
finished_at s = elim s.terminated [ none ↦ none | some t ↦ t.finished_at ]

-- if latest == nil || t.After(*latest) { latest = &t }
abbrev pub later_of : Option ℤ → Option ℤ → Option ℤ
later_of latest none = latest
later_of none (some t) = some t
later_of (some latest) (some t) = if lt_ℤ latest t then some t else some latest

-- Behind the latest time so far.
unfoldable pub latest_finished_from : List ContainerStatus → Option ℤ → Option ℤ
latest_finished_from [] latest = latest
latest_finished_from (s ∷ rest) latest =
    latest_finished_from rest
      (later_of (later_of latest (finished_at s.state)) (finished_at s.last_termination_state))

unfoldable pub latest_finished_at : List ContainerStatus → Option ℤ
unfolding latest_finished_from
latest_finished_at statuses = latest_finished_from statuses none

unfoldable pub max_time : Option ℤ → Option ℤ → Option ℤ
max_time current none = current
max_time none (some candidate) = some candidate
max_time (some current) (some candidate) =
    if lt_ℤ current candidate then some candidate else some current

unfoldable pub pod_finish_time : ClusterPod → Option ℤ
unfolding latest_finished_at max_time
pod_finish_time p =
    let init = latest_finished_at p.init_container_statuses in
    let containers = max_time init (latest_finished_at p.container_statuses) in
    if not (p.pod.phase == "Succeeded" || p.pod.phase == "Failed")
    then none
    else max_time containers (latest_finished_at p.ephemeral_container_statuses)

abbrev pub pod_start_time : ClusterPod → Option ℤ
pod_start_time p = p.start_time

abbrev pub is_before : Option ℤ → ℤ → Bool
is_before none cutoff = false
is_before (some t) cutoff = lt_ℤ t cutoff

unfoldable pub keep_recent : List ClusterPod → ℤ → List ClusterPod
unfolding pod_finish_time
keep_recent [] cutoff = []
keep_recent (p ∷ rest) cutoff =
    let later = keep_recent rest cutoff in
    if is_before (pod_finish_time p) cutoff then later else p ∷ later

unfoldable pub filter_completed_pods : List ClusterPod → ℤ → ℤ → List ClusterPod
unfolding keep_recent
filter_completed_pods pods now retention = keep_recent pods (now -ℤ retention)
