-- ===== src/Partitioner/Examples.antt =====
-- Tests of the partitioner, on a node with one GPU of which a device is used.
use walkai_nos.Base.{
  ◌≡◌, refl, Bool, true, false, some, List, [], ◌∷◌, String, String_eq, ℤ, pos, arith, All,
}
use walkai_nos.GoMap.{GoMap}
use walkai_nos.Geometry.{Slice_eq, mig_profile, Geometry, ProfileName}
use walkai_nos.Geometry.Compare.{lookup_compare}
use walkai_nos.GoMap.Groups.{count}
use walkai_nos.Kube.{KubeNode, Pod}
use walkai_nos.Pods.{Quota}
use walkai_nos.Annotation.{SpecAnnotation}
use walkai_nos.Annotation.Format.{parse_node_annotations}
use walkai_nos.Annotation.Write.{IsWritable}
use walkai_nos.Mig.Gpu.{Model}
use walkai_nos.Partitioner.Api.{Api}
use walkai_nos.Partitioner.Plan.{planned_annotations}
use mathlib.Core.List.Perm
use walkai_nos.Annotation.AnyOrder.{SameParsed}
use walkai_nos.Partitioner.Plan.Written.{parse-planned_annotations}
use walkai_nos.Partitioner.Order.{sort_pods_by_priority_and_age}
use walkai_nos.Partitioner.Order.Sorted.{Descending, sort_pods_outcomes}
use walkai_nos.Partitioner.Capacity.{build_requested_profiles_plan}
use walkai_nos.Partitioner.Capacity.Prefix.{IsLongest, build_plan-IsLongest}
use walkai_nos.Partitioner.Preemption.{find_victims, victims_of}
use walkai_nos.Partitioner.Preemption.Victims.{IsEvictable, IsListed, find_victims-All}
use walkai_nos.Partitioner.Reconcile.{reconcile}
use walkai_nos.Partitioner.Reconcile.Safety.{Permitted}
use walkai_nos.Partitioner.Reconcile.Reconciled.{reconcile_requests, IsVictim, IsPatch, considered}

abbrev small : ProfileName
small = "1g.10gb"

abbrev large : ProfileName
large = "7g.80gb"

abbrev known : GoMap Model (List Geometry)
known = ("A100", ((mig_profile small, pos 7) ∷ []) ∷ ((mig_profile large, pos 1) ∷ []) ∷ []) ∷ []

-- The sums and maxima of the containers' resources are the one container's.
abbrev first_of : List (String × ℤ) → List (String × ℤ) → List (String × ℤ)
first_of [] b = b
first_of (x ∷ a) b = x ∷ a

abbrev quota : Quota
quota = record { add = first_of; max = first_of }

abbrev node : KubeNode
node = record {
  name = "n1";
  labels = ("nvidia.com/gpu.product", "A100") ∷ ("nvidia.com/gpu.count", "1") ∷ [];
  annotations = ("nos.nebuly.com/status-gpu-0-7g.80gb-used", "1") ∷ [];
  taints = [];
  scalar_resources = [];
}

abbrev running : Pod
running = record {
  namespace = "default";
  name = "low";
  creation_timestamp = 5;
  is_deleted = false;
  owners = [];
  node_name = "n1";
  priority = some (pos 1);
  containers = (("nvidia.com/mig-7g.80gb", pos 1) ∷ []) ∷ [];
  init_containers = [];
  phase = "Running";
  nominated_node_name = "";
  conditions = [];
}

abbrev waiting : Pod
waiting = record {
  namespace = "default";
  name = "high";
  creation_timestamp = 9;
  is_deleted = false;
  owners = [];
  node_name = "";
  priority = some (pos 10);
  containers = (("nvidia.com/mig-1g.10gb", pos 2) ∷ []) ∷ [];
  init_containers = [];
  phase = "Pending";
  nominated_node_name = "";
  conditions = record { kind = "PodScheduled"; reason = "Unschedulable" } ∷ [];
}

abbrev api : Api
api = record {
  mig_nodes = λ t. some (node ∷ []);
  pods = λ t. some (running ∷ waiting ∷ []);
  node = λ t name. some node;
  annotations_patched = λ t name after. true;
  taints_patched = λ t name taints. true;
  evicted = λ t p. true;
  plan_id = λ t. "1";
}

sort_pods_outcomes_example :
    Descending (sort_pods_by_priority_and_age (running ∷ waiting ∷ []))
    × ((test : Pod → Bool)
        → count test (sort_pods_by_priority_and_age (running ∷ waiting ∷ []))
          ≡ count test (running ∷ waiting ∷ []))
sort_pods_outcomes_example = sort_pods_outcomes (running ∷ waiting ∷ [])

build_plan-IsLongest_example :
    IsLongest known lookup_compare quota (node ∷ []) [] (waiting ∷ running ∷ []) (
      build_requested_profiles_plan known lookup_compare quota (node ∷ []) (waiting ∷ running ∷ []))
build_plan-IsLongest_example =
    build_plan-IsLongest known lookup_compare quota (node ∷ []) (waiting ∷ running ∷ [])

find_victims-All_example :
    All
      (λ p. IsEvictable quota "n1" (pos 10) p × IsListed quota api [] p)
      (victims_of quota known lookup_compare
        (find_victims quota known lookup_compare api node waiting []).0)
find_victims-All_example = find_victims-All quota known lookup_compare api node waiting []

reconcile_requests_example :
    All
      (Permitted
        (IsVictim quota known lookup_compare api true (considered quota known lookup_compare api))
        (IsPatch quota known lookup_compare api
          (node ∷ [])
          (considered quota known lookup_compare api)))
      (reconcile quota known lookup_compare api true []).1
reconcile_requests_example = reconcile_requests quota known lookup_compare api true

abbrev one_spec : SpecAnnotation
one_spec = record { profile_name = small; index = pos 0; quantity = pos 7 }

one_spec-IsWritable : IsWritable one_spec
one_spec-IsWritable = record {
  key = (omega arith, omega arith, (refl, (refl, (refl, (refl, (refl, (refl, (refl, tt))))))));
  value = omega arith;
}

parse-planned_annotations_example :
    SameParsed
      (parse_node_annotations (planned_annotations (one_spec ∷ []) "1" node.annotations))
      ((parse_node_annotations node.annotations).0, one_spec ∷ [])
parse-planned_annotations_example =
    parse-planned_annotations (one_spec ∷ []) "1" node.annotations
      (planned_annotations (one_spec ∷ []) "1" node.annotations) (one_spec-IsWritable, tt) (tt, tt)
      (Perm.refl (planned_annotations (one_spec ∷ []) "1" node.annotations))
