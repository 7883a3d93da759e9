-- ===== src/Partitioner/NodeExamples.antt =====
-- An instance of the theorem on the node controller: a node with two GPUs that is initialized.
use walkai_nos.Base.{◌≡◌, refl, true, some, List, [], ◌∷◌, String_eq, int_eq, ℤ, pos, arith}
use walkai_nos.GoMap.{get?}
use walkai_nos.Geometry.{Slice_eq}
use walkai_nos.Geometry.Compare.{lookup_compare}
use walkai_nos.Kube.{KubeNode}
use walkai_nos.Text.{
  strip, trim_prefix, match_string, profile_at_start, resource_at_start, digits, drop_digits,
}
use walkai_nos.Text.Decimal.{atoi, unsigned, parse_digits}
use walkai_nos.Annotation.{SpecAnnotation}
use walkai_nos.Annotation.Write.{IsWritable}
use walkai_nos.Mig.Profile.{extract_profile_name, is_nvidia_mig_device}
use walkai_nos.Mig.Node.Build.{get_count}
use walkai_nos.Partitioner.Api.{Api}
use walkai_nos.Partitioner.Plan.{
  GpuPartitioning, NodePartitioning, annotations_of, get_gpu_spec_annotation_list,
  planned_annotations,
}
use walkai_nos.Partitioner.Nodes.{reconcile_node}
use walkai_nos.Partitioner.Nodes.Once.{reconcile_node-once}

abbrev node : KubeNode
node = record {
  name = "n1";
  labels =
      ("nvidia.com/gpu.product", "A100")
      ∷ ("nvidia.com/gpu.count", "2")
      ∷ ("nos.nebuly.com/gpu-partitioning", "mig")
      ∷ [];
  annotations = [];
  taints = [];
  scalar_resources = [];
}

abbrev api : Api
api = record {
  mig_nodes = λ t. some (node ∷ []);
  pods = λ t. some [];
  node = λ t name. some node;
  annotations_patched = λ t name after. true;
  taints_patched = λ t name taints. true;
  evicted = λ t p. true;
  plan_id = λ t. "1";
}

abbrev whole : ℤ → GpuPartitioning
whole index = record { gpu_index = index; resources = ("nvidia.com/mig-7g.40gb", pos 1) ∷ [] }

abbrev whole_spec : ℤ → SpecAnnotation
whole_spec index = record { profile_name = "7g.40gb"; index = index; quantity = pos 1 }

abbrev gpus : NodePartitioning
gpus = whole (pos 0) ∷ whole (pos 1) ∷ []

abbrev specs : List SpecAnnotation
specs = whole_spec (pos 0) ∷ whole_spec (pos 1) ∷ []

first-IsWritable : IsWritable (whole_spec (pos 0))
first-IsWritable = record {
  key = (omega arith, omega arith, (refl, (refl, (refl, (refl, (refl, (refl, (refl, tt))))))));
  value = omega arith;
}

second-IsWritable : IsWritable (whole_spec (pos 1))
second-IsWritable = record {
  key = (omega arith, omega arith, (refl, (refl, (refl, (refl, (refl, (refl, (refl, tt))))))));
  value = omega arith;
}

reconcile_node-once_example :
    reconcile_node lookup_compare [] api
      (record node { annotations = planned_annotations specs "1" node.annotations })
      []
    ≡ (some tt, [])
unfolding get_count atoi unsigned parse_digits get? get_gpu_spec_annotation_list annotations_of
    extract_profile_name is_nvidia_mig_device match_string resource_at_start profile_at_start digits
    drop_digits trim_prefix strip
reconcile_node-once_example =
    reconcile_node-once lookup_compare [] api node gpus specs "1" [] refl ((refl, tt), (tt, tt))
      (omega arith, (omega arith, tt)) refl (first-IsWritable, (second-IsWritable, tt))
      ((λ h. cc (h.0), tt), (tt, tt))
