-- ===== src/Cluster.antt =====
-- pkg/clusterinfo/types.go and the composition of collector.go: what the cluster's GPUs and the pods that
-- use them are reported as. The API server and the clock are parameters.
pub mod Times
pub mod Totals
pub mod Summaries
mod Examples
use walkai_nos.Base.{Option, none, some, List, String, ℤ}
use walkai_nos.Pods.{Quota}
use walkai_nos.Cluster.Times.{ClusterPod, filter_completed_pods}
use walkai_nos.Cluster.Totals.{ClusterNode, GpuInventory, build_gpu_inventory}
use walkai_nos.Cluster.Summaries.{PodSummary, build_pod_summaries}

pub record Snapshot : Type 0 where
  pub timestamp : ℤ
  pub gpus : List GpuInventory
  pub pods : List PodSummary

-- 5 minutes, in nanoseconds
abbrev pub completed_pod_retention : ℤ
completed_pod_retention = ℤ.pos 300000000000

-- The nodes and the pods that the API server lists; `none` is an error. So is `none` of the result.
unfoldable pub collect :
    Quota → Option (List ClusterNode) → Option (List ClusterPod) → ℤ → Option Snapshot
unfolding filter_completed_pods build_gpu_inventory build_pod_summaries
collect quota nodes pods now = elim nodes [
  | none ↦ none
  | some ns ↦ elim pods [
    | none ↦ none
    | some ps ↦
        let filtered = filter_completed_pods ps now completed_pod_retention in
        some (record {
          timestamp = now;
          gpus = build_gpu_inventory quota ns filtered;
          pods = build_pod_summaries quota filtered;
        })
  ]
]
