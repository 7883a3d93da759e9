-- ===== src/Partitioner/Api.antt =====
-- The Kubernetes API, which is not code of the repository, as the partitioner calls it. Each call is
-- recorded with the calls before it; an answer depends on these, and on nothing else.
use walkai_nos.Base.{Bool, Option, List, String}
use walkai_nos.GoMap.{GoMap}
use walkai_nos.Kube.{Pod, Taint, KubeNode}

-- A patch sends what is changed: the annotations before and after, or the taints.
pub data Request : Type 0 where
  list_nodes : Request
  list_pods : Request
  get_node : String → Request
  patch_annotations : String → GoMap String String → GoMap String String → Request
  patch_taints : String → List Taint → Request
  evict : Pod → Request

abbrev pub Requests : Type 0
Requests = List Request

-- The answers to a call behind the given calls; `none` and `false` are errors.
pub record Api : Type 0 where
  pub mig_nodes : Requests → Option (List KubeNode)
  pub pods : Requests → Option (List Pod)
  pub node : Requests → String → Option KubeNode
  pub annotations_patched : Requests → String → GoMap String String → Bool
  pub taints_patched : Requests → String → List Taint → Bool
  pub evicted : Requests → Pod → Bool
  -- planIDSource, the time of the clock
  pub plan_id : Requests → String

-- What a function of the controller returns, `none` for an error, and the calls up to then.
abbrev pub Outcome : Type 0 → Type 0
Outcome A = Option A × Requests
