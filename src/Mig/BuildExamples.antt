-- ===== src/Mig/BuildExamples.antt =====
-- The theorems on NewNode and on configurations at a node of three GPUs.
use walkai_nos.Base.{
  ◌≡◌, ◌≢◌, ◌↔◌, refl, none, some, List, [], ◌∷◌, ◌++◌, ℤ, pos, pos_part, ◌-ℤ◌, All, String_eq,
  int_eq, length, true, ℕ_eq, ℕ,
}
use walkai_nos.GoMap.{GoMap, get?, put}
use walkai_nos.GoMap.Groups.{list_at}
use walkai_nos.Util.{unordered_equal}
use walkai_nos.Util.Unordered.{SameElements, unordered_equal_iff}
use walkai_nos.Geometry.{Geometry, mig_profile}
use walkai_nos.Kube.{KubeNode}
use walkai_nos.Device.{used}
use walkai_nos.Annotation.{StatusAnnotation}
use walkai_nos.Annotation.Format.{
  parse_node_annotations, parse_spec_annotation, parse_status_annotation,
}
use walkai_nos.Mig.Gpu.{Model, Gpu}
use walkai_nos.Mig.Node.{Node}
use walkai_nos.Mig.Node.Build.{get_model, get_count, new_node}
use walkai_nos.Mig.Node.Extracted.{indices, keys, range_from}
use walkai_nos.Mig.Node.Built.{status_groups, IsEmpty, contents-new_node}
use walkai_nos.Mig.Node.Contents.{HasContents}
use walkai_nos.Mig.Node.Missed.{new_node_misses}
use walkai_nos.Mig.Configs.{validate_configs, IsConfigs, validate_configs_iff}

abbrev known : GoMap Model (List Geometry)
known = ("A100", ((mig_profile "1g.5gb", pos 7) ∷ []) ∷ []) ∷ []

abbrev three_gpus : KubeNode
three_gpus = record {
  name = "n1";
  labels = ("nvidia.com/gpu.product", "A100") ∷ ("nvidia.com/gpu.count", "3") ∷ [];
  annotations = ("nos.nebuly.com/status-gpu-1-1g.5gb-used", "2") ∷ [];
  taints = [];
  scalar_resources = [];
}

abbrev status : StatusAnnotation
status = record { profile_name = "1g.5gb"; index = pos 1; status = used; quantity = pos 2 }

abbrev gpu_of : ℤ → GoMap Model ℤ → Gpu
gpu_of index devices = record {
  index = index;
  model = "A100";
  allowed_mig_geometries = ((mig_profile "1g.5gb", pos 7) ∷ []) ∷ [];
  used_mig_devices = devices;
  free_mig_devices = [];
}

abbrev built : Node
built = record {
  name = "n1";
  scalar_resources = [];
  gpus = gpu_of (pos 1) (("1g.5gb", pos 2) ∷ []) ∷ gpu_of (pos 1) [] ∷ gpu_of (pos 2) [] ∷ [];
}

model_eq : get_model three_gpus ≡ some "A100"
unfolding get?
model_eq = refl

count_eq : get_count three_gpus ≡ some (pos 3)
unfolding get_count get?
count_eq = refl

parsed_eq : (parse_node_annotations three_gpus.annotations).0 ≡ status ∷ []
unfolding parse_node_annotations parse_spec_annotation parse_status_annotation
parsed_eq = refl

built_eq : new_node known three_gpus ≡ some built
unfolding new_node parse_node_annotations parse_spec_annotation parse_status_annotation get? put
    ◌-ℤ◌ list_at
built_eq = refl

contents-new_node_example :
    (named missing : List Gpu) × (built.gpus ≡ named ++ missing)
    × (indices named ≡ keys (status_groups three_gpus))
    × All (HasContents (parse_node_annotations three_gpus.annotations).0) named
    × (indices missing
        ≡ range_from
            (length (status_groups three_gpus))
            (pos_part (pos 3 -ℤ pos (length (status_groups three_gpus)))))
    × All IsEmpty missing
contents-new_node_example =
    contents-new_node known three_gpus "A100" (pos 3) built model_eq count_eq built_eq

new_node_misses_example : indices built.gpus ≡ pos 1 ∷ pos 1 ∷ range_from 2 1
new_node_misses_example =
    new_node_misses known three_gpus "A100" 1 built status [] model_eq count_eq built_eq parsed_eq
      (refl, tt)

validate_configs_iff_example : (validate_configs known ≡ none) ↔ ((known ≢ []) × IsConfigs known)
validate_configs_iff_example = validate_configs_iff known

abbrev one_two : List ℕ
one_two = 1 ∷ 2 ∷ []

abbrev two_one : List ℕ
two_one = 2 ∷ 1 ∷ []

unordered_equal_iff_example :
    (unordered_equal one_two two_one ≡ true) ↔ SameElements one_two two_one
unordered_equal_iff_example = unordered_equal_iff one_two two_one
