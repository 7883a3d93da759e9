-- ===== src/Kube.antt =====
-- The fields of the Kubernetes API objects (k8s.io/api/core/v1) that the program reads and writes.
use walkai_nos.Base.{List, String, ℤ, ℕ, Option, Bool}
use walkai_nos.GoMap.{GoMap}
use walkai_nos.Mig.Profile.{ResourceName}

-- v1.ResourceList, with the integer value of each quantity.
abbrev pub ResourceList : Type 0
ResourceList = GoMap ResourceName ℤ

pub record Condition : Type 0 where
  pub kind : String
  pub reason : String

pub record Owner : Type 0 where
  pub api_version : String
  pub kind : String

pub record Pod : Type 0 where
  pub namespace : String
  pub name : String
  pub creation_timestamp : ℕ
  pub is_deleted : Bool
  pub owners : List Owner
  pub node_name : String
  pub priority : Option ℤ
  pub containers : List ResourceList
  pub init_containers : List ResourceList
  pub phase : String
  pub nominated_node_name : String
  pub conditions : List Condition

pub record Taint : Type 0 where
  pub key : String
  pub value : String
  pub effect : String

pub record KubeNode : Type 0 where
  pub name : String
  pub labels : GoMap String String
  pub annotations : GoMap String String
  pub taints : List Taint
  pub scalar_resources : ResourceList
