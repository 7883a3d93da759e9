-- ===== src/Slicing/Examples.antt =====
-- Tests and instances of the theorems on sliced GPUs: a GPU of 40 GB with a slice in use.
use walkai_nos.Base.{
  ◌≡◌, refl, true, some, none, List, [], ◌∷◌, ℤ, pos, arith, String, String_eq, ◌+ℤ◌, ◌-ℤ◌, ◌*ℤ◌,
  ◌↔◌, All, Comparable, Bool, ◌&&◌, ◌==◌, eq_ℤ, eq_ℤ_iff, if◌then◌else◌,
}
use walkai_nos.GoMap.{GoMap, get?, put, delete, amount, add_at}
use walkai_nos.GoMap.Groups.{group_by, group_into, list_at, filter}
use walkai_nos.Text.{join, strip, trim_prefix, has_prefix, match_string, digits, drop_digits}
use walkai_nos.Text.Decimal.{atoi, itoa, unsigned, parse_digits, print_ℕ, digits_before}
use walkai_nos.Text.Split.{split, lower_is}
use walkai_nos.Geometry.{ProfileName}
use walkai_nos.Kube.{KubeNode}
use walkai_nos.Device.{Device, used, free, unknown, same_status, group_by_gpu_index}
use walkai_nos.Annotation.Report.{report_gpus, report_resources, report_statuses, same_status_iff}
use walkai_nos.Annotation.Write.{delete_with_prefix, write_statuses}
use walkai_nos.Agent.State.{in_slice}
use walkai_nos.Agent.Client.{
  Clients, Resource, found, error, not_found, get_node, compute_free_devices_and_update_status,
}
use walkai_nos.Annotation.{StatusAnnotation, group_status_by_gpu_index}
use walkai_nos.Annotation.Format.{
  parse_node_annotations, parse_spec_annotation, parse_status_annotation, parse_status, status_key,
}
use walkai_nos.Mig.Node.Build.{get_count, used_devices, free_devices}
use walkai_nos.Partitioner.Order.{sort_stable, insert_stable}
use walkai_nos.Slicing.Reporter.{
  report_slices, get_gpus, get_used_gpus, get_allocatable_gpus, to_gpu_device_list,
}
use mathlib.Core.List.Perm
use walkai_nos.Slicing.Reporter.Stable.{statuses_of, report_slices-settled}
use walkai_nos.Slicing.Profile.{
  extract_gpu_id, extract_slice_profile, is_gpu_slice, slice_at_start, get_memory_size_gb,
  new_profile, trim_suffix,
}
use walkai_nos.Slicing.Gpu.{
  SlicingGpu, checked_memory, wrap_int64, validate, new_slicing_gpu, slices_memory,
  get_tot_slices_memory, can_create_more_slices, create_slices, get_missing_slices, create_spare,
  create_freed, delete_all, restore, update_for_slice, update_for_slices, update_slices_for,
}
use walkai_nos.Slicing.Gpu.Bound.{WithinMemory, StaysWithin}
use walkai_nos.Slicing.Gpu.Valid.{IsLargeEnough, validate_iff}
use walkai_nos.Slicing.Gpu.Update.{update_slices_for-StaysWithin}
use walkai_nos.Slicing.Node.{
  SlicingNode, get_memory_gb, new_slicing_node, extract_slicing_gpus, annotated_slicing_gpus,
  missing_slicing_gpus, slicing_node_update_geometry_for,
}
use walkai_nos.Slicing.Node.Memory.{FitsInto, new_slicing_node-FitsInto}
use walkai_nos.Slicing.Node.Update.{AllStayWithin, node_update-StaysWithin}

abbrev shared_gpu : SlicingGpu
shared_gpu = record {
  model = "NVIDIA-A100-40GB-PCIe";
  index = pos 0;
  memory_gb = pos 40;
  used_profiles = ("10gb", pos 1) ∷ [];
  free_profiles = ("5gb", pos 2) ∷ [];
}

abbrev one_20gb : GoMap ProfileName ℤ
one_20gb = ("20gb", pos 1) ∷ []

-- The slice is made of spare memory, and the free slices are deleted and made again.
update_shared :
    (update_slices_for one_20gb shared_gpu).0.free_profiles ≡ ("20gb", pos 1) ∷ ("5gb", pos 2) ∷ []
unfolding update_slices_for update_for_slices update_for_slice create_spare create_freed delete_all
    restore create_slices can_create_more_slices get_tot_slices_memory slices_memory
    get_missing_slices get_memory_size_gb new_profile trim_suffix trim_prefix strip join atoi itoa
    unsigned parse_digits print_ℕ digits_before sort_stable insert_stable get? put delete amount
    add_at ◌+ℤ◌ ◌-ℤ◌ ◌*ℤ◌
update_shared = refl

-- Four slices of a profile with two free ones: the two that are made are deleted with the free ones, and
-- the update reports a change of a GPU that is as before.
update_lost : update_slices_for (("5gb", pos 4) ∷ []) shared_gpu ≡ (shared_gpu, true)
unfolding update_slices_for update_for_slices update_for_slice create_spare create_freed delete_all
    restore create_slices can_create_more_slices get_tot_slices_memory slices_memory
    get_missing_slices get_memory_size_gb new_profile trim_suffix trim_prefix strip join atoi itoa
    unsigned parse_digits print_ℕ digits_before sort_stable insert_stable get? put delete amount
    add_at ◌+ℤ◌ ◌-ℤ◌ ◌*ℤ◌
update_lost = refl

shared_gpu-WithinMemory : WithinMemory shared_gpu
unfolding get_tot_slices_memory slices_memory get_memory_size_gb trim_suffix trim_prefix strip join
    atoi unsigned parse_digits ◌+ℤ◌ ◌*ℤ◌
shared_gpu-WithinMemory = omega arith

update_slices_for-StaysWithin_example :
    StaysWithin shared_gpu (update_slices_for one_20gb shared_gpu).0
unfolding get_memory_size_gb trim_suffix trim_prefix strip join atoi unsigned parse_digits
update_slices_for-StaysWithin_example =
    update_slices_for-StaysWithin one_20gb shared_gpu (omega arith, tt) shared_gpu-WithinMemory
      ((omega arith, omega arith), tt)

validate_iff_example : (validate shared_gpu ≡ true) ↔ (
    IsLargeEnough shared_gpu.used_profiles
    × IsLargeEnough shared_gpu.free_profiles
    × WithinMemory shared_gpu)
unfolding slices_memory get_memory_size_gb trim_suffix trim_prefix strip join atoi unsigned
    parse_digits ◌+ℤ◌ ◌*ℤ◌
validate_iff_example =
    validate_iff shared_gpu ((omega arith, omega arith, tt), (omega arith, omega arith, tt))

abbrev two_gpus : SlicingNode
two_gpus = record {
  name = "node";
  scalar_resources = ("nvidia.com/gpu-10gb", pos 1) ∷ [];
  gpus = shared_gpu ∷ record shared_gpu { index = pos 1; used_profiles = [] } ∷ [];
}

node_update-StaysWithin_example :
    AllStayWithin two_gpus.gpus (slicing_node_update_geometry_for two_gpus one_20gb).0.gpus
unfolding get_tot_slices_memory slices_memory get_memory_size_gb trim_suffix trim_prefix strip join
    atoi unsigned parse_digits ◌+ℤ◌ ◌*ℤ◌
node_update-StaysWithin_example =
    node_update-StaysWithin two_gpus one_20gb (omega arith, tt)
      (
        (omega arith, ((omega arith, omega arith), tt)),
        ((omega arith, ((omega arith, omega arith), tt)), tt),
      )

abbrev labelled : KubeNode
labelled = record {
  name = "node";
  labels =
      ("nvidia.com/gpu.product", "NVIDIA-A100-40GB-PCIe")
      ∷ ("nvidia.com/gpu.count", "2")
      ∷ ("nvidia.com/gpu.memory", "40960")
      ∷ [];
  annotations =
      ("nos.nebuly.com/status-gpu-0-10gb-used", "1")
      ∷ ("nos.nebuly.com/status-gpu-0-5gb-free", "2")
      ∷ [];
  taints = [];
  scalar_resources = [];
}

abbrev built : SlicingNode
built = record {
  name = "node";
  scalar_resources = [];
  gpus =
      record shared_gpu { memory_gb = pos 41 }
      ∷ record {
        model = "NVIDIA-A100-40GB-PCIe";
        index = pos 1;
        memory_gb = pos 41;
        used_profiles = [];
        free_profiles = [];
      }
      ∷ [];
}

new_slicing_node-FitsInto_example : All (FitsInto (pos 41)) built.gpus
unfolding get_memory_gb new_slicing_node extract_slicing_gpus annotated_slicing_gpus
    missing_slicing_gpus get_count used_devices free_devices new_slicing_gpu validate checked_memory
    wrap_int64 slices_memory group_status_by_gpu_index group_by group_into list_at
    parse_node_annotations parse_spec_annotation parse_status_annotation parse_status split lower_is
    has_prefix get_memory_size_gb trim_suffix trim_prefix strip join atoi unsigned parse_digits get?
    put ◌+ℤ◌ ◌-ℤ◌ ◌*ℤ◌
new_slicing_node-FitsInto_example =
    new_slicing_node-FitsInto labelled (pos 41) built refl (omega arith)
      (((omega arith, omega arith, tt), (omega arith, omega arith, tt)), tt) refl

abbrev same_annotation : StatusAnnotation → StatusAnnotation → Bool
same_annotation a b =
    (a.profile_name == b.profile_name)
    && eq_ℤ a.index b.index
    && same_status a.status b.status
    && eq_ℤ a.quantity b.quantity

same_annotation_iff : (a b : StatusAnnotation) → (same_annotation a b ≡ true) ↔ (a ≡ b)
same_annotation_iff a b = ground (
  arith,
  String_eq.same_iff a.profile_name b.profile_name,
  eq_ℤ_iff a.index b.index,
  same_status_iff a.status b.status,
  eq_ℤ_iff a.quantity b.quantity,
)

instance abbrev StatusAnnotation_eq : Comparable StatusAnnotation
StatusAnnotation_eq = record { same = same_annotation; same_iff = same_annotation_iff }

abbrev slice_in_use : Resource
slice_in_use = record {
  resource_name = "nvidia.com/gpu-10gb";
  device_id = "GPU-a::0";
  status = used;
}

abbrev slice_left : Resource
slice_left = record {
  resource_name = "nvidia.com/gpu-10gb";
  device_id = "GPU-a::1";
  status = unknown;
}

abbrev reported_before : GoMap String String
reported_before =
    ("nos.nebuly.com/status-gpu-0-10gb-used", "1")
    ∷ ("nos.nebuly.com/status-gpu-0-10gb-free", "1")
    ∷ []

abbrev clients : Clients
clients = record {
  used_devices = λ t. some (slice_in_use ∷ []);
  allocatable_devices = λ t. some (slice_in_use ∷ slice_left ∷ []);
  gpu_index = λ t id. if id == "GPU-a" then found (pos 0) else error not_found;
  deleted = λ t id. none;
  created = λ t index names. true;
  restarted = λ t. true;
  node = λ t. some (record labelled { annotations = reported_before });
  annotations_patched = λ t annotations. true;
  taints_patched = λ t taints. true;
}

abbrev devices : List Device
devices =
    record {
      resource_name = "nvidia.com/gpu-10gb";
      device_id = "GPU-a::0";
      status = used;
      gpu_index = pos 0;
    }
    ∷ record {
      resource_name = "nvidia.com/gpu-10gb";
      device_id = "GPU-a::1";
      status = free;
      gpu_index = pos 0;
    }
    ∷ []

report_slices-settled_example :
    report_slices clients [] ≡ (true, (get_gpus clients (get_node ∷ [])).1)
unfolding get_gpus get_used_gpus get_allocatable_gpus to_gpu_device_list extract_gpu_id
    compute_free_devices_and_update_status in_slice filter has_prefix strip write_statuses
    delete_with_prefix status_key join itoa print_ℕ digits_before put group_by group_into list_at
    get? extract_slice_profile is_gpu_slice match_string slice_at_start digits drop_digits
    trim_prefix report_gpus report_resources report_statuses group_by_gpu_index
report_slices-settled_example =
    report_slices-settled clients [] (record labelled { annotations = reported_before }) devices []
      (statuses_of devices) refl refl (Perm.refl (statuses_of devices)) (Perm.refl reported_before)
      (
        record {
          key = (omega arith, omega arith, (refl, (refl, (refl, (refl, tt)))));
          value = omega arith;
        },
        (
          record {
            key = (omega arith, omega arith, (refl, (refl, (refl, (refl, tt)))));
            value = omega arith;
          },
          tt,
        ),
      )
      ((λ h. cc (h.2), tt), (tt, tt))

-- The total of 2^62 slices of 2 GB wraps, so that they are accepted on a GPU of 40 GB.
wrapped_total :
    validate (record shared_gpu { used_profiles = ("2gb", pos 4611686018427387904) ∷ [] }) ≡ true
unfolding validate checked_memory wrap_int64 get_memory_size_gb trim_suffix trim_prefix strip join
    atoi unsigned parse_digits ◌+ℤ◌ ◌*ℤ◌
wrapped_total = refl
