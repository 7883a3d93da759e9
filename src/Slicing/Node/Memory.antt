-- ===== src/Slicing/Node/Memory.antt =====
-- The GPUs of a node that is built from its labels and annotations fit into their memory, and stay so.
use walkai_nos.Base.{
  ◌≡◌, refl, subst, Option, none, some, List, [], ◌∷◌, ℕ, zero, suc, ◌+◌, ◌+ℤ◌, String_eq, ℤ, pos,
  pos_part, ◌-ℤ◌, ◌≤ℤ◌, int_eq, length, All, All-append, Bool-cases, Option-cases, inl, inr,
  int_laws,
}
use walkai_nos.GoMap.{GoMap}
use walkai_nos.Geometry.{ProfileName}
use walkai_nos.Kube.{KubeNode}
use walkai_nos.Annotation.{StatusAnnotation, group_status_by_gpu_index}
use walkai_nos.Annotation.Format.{parse_node_annotations}
use walkai_nos.Mig.Gpu.{Model}
use walkai_nos.Mig.Node.Build.{get_model, get_count, used_devices, free_devices}
use walkai_nos.Slicing.Gpu.{
  SlicingGpu, validate, new_slicing_gpu, get_tot_slices_memory, slices_memory,
}
use walkai_nos.Slicing.Gpu.Bound.{WithinMemory}
use walkai_nos.Slicing.Gpu.Valid.{HasInt64Totals, validate_iff}
use walkai_nos.Slicing.Node.{
  SlicingNode, get_memory_gb, annotated_slicing_gpus, missing_slicing_gpus, extract_slicing_gpus,
  new_slicing_node,
}

-- A GPU of this memory, whose slices fit into it.
abbrev pub FitsInto : ℤ → SlicingGpu → Type 0
FitsInto memory g = (g.memory_gb ≡ memory) × WithinMemory g

abbrev AllSome {ℓ κ} : {A : Type ℓ} → (A → Type κ) → Option A → Type κ
AllSome P none = Unit
AllSome P (some a) = P a

new_slicing_gpu-FitsInto :
    (model : Model) (index memory : ℤ) (used free : GoMap ProfileName ℤ)
    → HasInt64Totals used free
    → AllSome (FitsInto memory) (new_slicing_gpu model index memory used free)
unfolding new_slicing_gpu
new_slicing_gpu-FitsInto model index memory used free n =
    let g : SlicingGpu = record {
      model = model;
      index = index;
      memory_gb = memory;
      used_profiles = used;
      free_profiles = free;
    } in
    elim (Bool-cases (validate g)) [
      | inl accepted ↦ rw accepted (refl, ((validate_iff g n).0 accepted).2)
      | inr refused ↦ rw refused tt
    ]

-- The memory of the slices that the annotations of a GPU name is in 64 bits, for each GPU.
abbrev pub NoGroupWraps : GoMap ℤ (List StatusAnnotation) → Type 0
NoGroupWraps = All (λ e. HasInt64Totals (used_devices e.1 []) (free_devices e.1 []))

annotated-FitsInto :
    (model : Model) (memory : ℤ) (groups : GoMap ℤ (List StatusAnnotation))
    → NoGroupWraps groups
    → AllSome (All (FitsInto memory)) (annotated_slicing_gpus model memory groups)
unfolding annotated_slicing_gpus
annotated-FitsInto model memory [] w = tt
annotated-FitsInto model memory ((index, l) ∷ rest) w =
    let made = new_slicing_gpu model index memory (used_devices l []) (free_devices l []) in
    let later = annotated_slicing_gpus model memory rest in
    elim (Option-cases made) [
      | inl refused ↦ rw (annotated_slicing_gpus, refused) tt
      | inr (g, e) ↦ elim (Option-cases later) [
        | inl failed ↦ rw (annotated_slicing_gpus, e, failed) tt
        | inr (gpus, f) ↦
            let first : FitsInto memory g = subst (AllSome (FitsInto memory)) e (
              new_slicing_gpu-FitsInto model index memory (used_devices l []) (free_devices l [])
                w.0) in
            let others : All (FitsInto memory) gpus =
              subst (AllSome (All (FitsInto memory))) f
                (annotated-FitsInto model memory rest w.1) in
            rw (annotated_slicing_gpus, e, f) (first, others)
      ]
    ]

missing-FitsInto :
    (model : Model) (memory : ℤ) (i rounds : ℕ)
    → pos 0 ≤ℤ memory
    → All (FitsInto memory) (missing_slicing_gpus model memory i rounds)
unfolding missing_slicing_gpus get_tot_slices_memory slices_memory
missing-FitsInto model memory i zero h = tt
missing-FitsInto model memory i (suc rounds) h =
    let nothing : pos 0 +ℤ pos 0 ≤ℤ memory = omega (int_laws, h) in
    ((refl, nothing), missing-FitsInto model memory (i + 1) rounds h)

extracted-FitsInto :
    (node : KubeNode) (memory : ℤ)
    → get_memory_gb node ≡ some memory
    → pos 0 ≤ℤ memory
    → NoGroupWraps (group_status_by_gpu_index (parse_node_annotations node.annotations).0)
    → AllSome (All (FitsInto memory)) (extract_slicing_gpus node)
unfolding extract_slicing_gpus
extracted-FitsInto node memory known h w =
    let groups = group_status_by_gpu_index (parse_node_annotations node.annotations).0 in
    elim (Option-cases (get_model node)) [
      | inl no_model ↦ rw (extract_slicing_gpus, no_model) tt
      | inr (model, e) ↦ elim (Option-cases (get_count node)) [
        | inl no_count ↦ rw (extract_slicing_gpus, e, no_count) tt
        | inr (count, f) ↦ elim (Option-cases (annotated_slicing_gpus model memory groups)) [
          | inl refused ↦ rw (extract_slicing_gpus, e, f, known, refused) tt
          | inr (named, k) ↦
              let first : All (FitsInto memory) named =
                subst (AllSome (All (FitsInto memory))) k
                  (annotated-FitsInto model memory groups w) in
              let rounds = pos_part (count -ℤ pos (length named)) in
              rw (extract_slicing_gpus, e, f, known, k)
                (All-append (FitsInto memory) named
                  (missing_slicing_gpus model memory (length named) rounds) first
                  (missing-FitsInto model memory (length named) rounds h))
        ]
      ]
    ]

of_node :
    (node : KubeNode) (memory : ℤ)
    → get_memory_gb node ≡ some memory
    → pos 0 ≤ℤ memory
    → NoGroupWraps (group_status_by_gpu_index (parse_node_annotations node.annotations).0)
    → AllSome (λ (n : SlicingNode). All (FitsInto memory) n.gpus) (new_slicing_node node)
unfolding new_slicing_node
of_node node memory known h w =
    let all = extracted-FitsInto node memory known h w in
    elim (Option-cases (extract_slicing_gpus node)) [
      | inl failed ↦ rw (new_slicing_node, failed) tt
      | inr (gpus, e) ↦ rw (new_slicing_node, e) (subst (AllSome (All (FitsInto memory))) e all)
    ]

-- A node is built from labels that give its GPUs a memory that is not negative, and no memory or total
-- of the slices that its annotations name for a GPU leaves the 64 bits. Then each of its GPUs has this
-- memory, and the slices of each GPU fit into it.
pub new_slicing_node-FitsInto :
    (node : KubeNode) (memory : ℤ) (n : SlicingNode)
    → get_memory_gb node ≡ some memory
    → pos 0 ≤ℤ memory
    → NoGroupWraps (group_status_by_gpu_index (parse_node_annotations node.annotations).0)
    → new_slicing_node node ≡ some n
    → All (FitsInto memory) n.gpus
new_slicing_node-FitsInto node memory n known h w made =
    subst (AllSome (λ (k : SlicingNode). All (FitsInto memory) k.gpus)) made
      (of_node node memory known h w)
