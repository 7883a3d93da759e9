-- ===== src/Partitioner/Nodes/Once.antt =====
-- A node whose partitioning has been written counts as initialized, and is not written again.
use walkai_nos.Base.{
  ◌≡◌, refl, sym, subst, ap, ◌∙◌, inl, inr, true, false, Option, none, some, List, [], ◌∷◌, ◌++◌, ℕ,
  suc, ◌+◌, ◌<◌, String, String_eq, ℤ, pos, eq_ℤ_iff, int_eq, length, if◌then◌else◌, ◌==◌, ==_refl,
  All, Bool-cases, Option-cases, arith,
}
use walkai_nos.GoMap.{GoMap, get?, put}
use walkai_nos.GoMap.Laws.{get?-put}
use walkai_nos.GoMap.Groups.{group_by, group_into, list_at}
use walkai_nos.Geometry.{Geometry, Slice, Slice_eq}
use walkai_nos.Geometry.Compare.{MapCompare}
use walkai_nos.Kube.{KubeNode}
use walkai_nos.Annotation.{SpecAnnotation, group_spec_by_gpu_index}
use walkai_nos.Annotation.Write.{IsWritable}
use walkai_nos.Mig.Gpu.{Model}
use walkai_nos.Mig.Profile.{ResourceName, extract_profile_name}
use walkai_nos.Mig.Configs.{is_mig_partitioning_enabled}
use walkai_nos.Mig.Node.Build.{get_count}
use walkai_nos.Partitioner.Api.{Api, Requests}
use walkai_nos.Partitioner.Plan.{
  GpuPartitioning, NodePartitioning, annotations_of, get_gpu_spec_annotation_list,
  planned_annotations,
}
use walkai_nos.Partitioner.Plan.Written.{AllDifferent, parse-planned_in_order}
use walkai_nos.Partitioner.Nodes.{is_node_initialized, reconcile_node}

abbrev grouped : GoMap ℤ (List SpecAnnotation) → List SpecAnnotation → GoMap ℤ (List SpecAnnotation)
grouped result l = group_into (λ r. r.index) result l

abbrev OfGpu : ℤ → SpecAnnotation → Type 0
OfGpu i a = a.index ≡ i

group_into-append :
    (l k : List SpecAnnotation) (m : GoMap ℤ (List SpecAnnotation))
    → grouped m (l ++ k) ≡ grouped (grouped m l) k
unfolding group_into
group_into-append [] k m = refl
group_into-append (a ∷ l) k m = group_into-append l k (put a.index (list_at a.index m ++ a ∷ []) m)

-- A key that is not there gets an entry, and one that is gets no other.
length-put_new :
    (i : ℤ) (v : List SpecAnnotation) (m : GoMap ℤ (List SpecAnnotation))
    → get? i m ≡ none
    → length (put i v m) ≡ suc (length m)
unfolding put get?
length-put_new i v [] h = refl
length-put_new i v ((j, w) ∷ m) h = ground (arith, h, length-put_new i v m)

length-put_old :
    (i : ℤ) (v x : List SpecAnnotation) (m : GoMap ℤ (List SpecAnnotation))
    → get? i m ≡ some x
    → length (put i v m) ≡ length m
unfolding put get?
length-put_old i v x [] h = cc (h)
length-put_old i v x ((j, w) ∷ m) h = ground (arith, h, length-put_old i v x m)

get?-put_same :
    (i : ℤ) (v : List SpecAnnotation) (m : GoMap ℤ (List SpecAnnotation))
    → get? i (put i v m) ≡ some v
get?-put_same i v m =
    let chosen : (if i == i then some v else get? i m) ≡ some v = rw (==_refl i) refl in
    get?-put i i v m ∙ chosen

-- More annotations of a GPU that has some already.
length-grouped_old :
    (i : ℤ) (l x : List SpecAnnotation) (m : GoMap ℤ (List SpecAnnotation))
    → All (OfGpu i) l
    → get? i m ≡ some x
    → length (grouped m l) ≡ length m
unfolding group_into
length-grouped_old i [] x m all h = refl
length-grouped_old i (a ∷ l) x m all h =
    let found : get? a.index m ≡ some x = subst (λ j. get? j m ≡ some x) (sym all.0) h in
    let v = list_at a.index m ++ a ∷ [] in
    let again : get? i (put a.index v m) ≡ some v =
      subst (λ j. get? j (put a.index v m) ≡ some v) all.0 (get?-put_same a.index v m) in
    length-grouped_old i l v (put a.index v m) all.1 again ∙ length-put_old a.index v x m found

-- The annotations of a GPU, at least one, are one group.
length-grouped_new :
    (i : ℤ) (l : List SpecAnnotation) (m : GoMap ℤ (List SpecAnnotation))
    → All (OfGpu i) l
    → 0 < length l
    → get? i m ≡ none
    → length (grouped m l) ≡ suc (length m)
unfolding group_into
length-grouped_new i [] m all some_of_them h = absurd (omega arith)
length-grouped_new i (a ∷ l) m all some_of_them h =
    let missing : get? a.index m ≡ none = subst (λ j. get? j m ≡ none) (sym all.0) h in
    let v = list_at a.index m ++ a ∷ [] in
    let found : get? i (put a.index v m) ≡ some v =
      subst (λ j. get? j (put a.index v m) ≡ some v) all.0 (get?-put_same a.index v m) in
    length-grouped_old i l v (put a.index v m) all.1 found ∙ length-put_new a.index v m missing

-- Another GPU has no group after it if it has none before.
get?-grouped :
    (i j : ℤ) (l : List SpecAnnotation) (m : GoMap ℤ (List SpecAnnotation))
    → All (OfGpu i) l
    → (i == j) ≡ false
    → get? j m ≡ none
    → get? j (grouped m l) ≡ none
unfolding group_into
get?-grouped i j [] m all other h = h
get?-grouped i j (a ∷ l) m all other h =
    let v = list_at a.index m ++ a ∷ [] in
    let differs : (a.index == j) ≡ false = subst (λ k. (k == j) ≡ false) (sym all.0) other in
    let chosen : (if a.index == j then some v else get? j m) ≡ get? j m = rw differs refl in
    get?-grouped i j l (put a.index v m) all.1 other (get?-put a.index j v m ∙ chosen ∙ h)

abbrev AllSome : (List SpecAnnotation → Type 0) → Option (List SpecAnnotation) → Type 0
AllSome P none = Unit
AllSome P (some l) = P l

abbrev OfOne : ℤ → ℕ → List SpecAnnotation → Type 0
OfOne i n l = All (OfGpu i) l × (length l ≡ n)

annotations_of-OfOne :
    (i : ℤ) (resources : GoMap ResourceName ℤ)
    → AllSome (OfOne i (length resources)) (annotations_of i resources)
unfolding annotations_of
annotations_of-OfOne i [] = (tt, refl)
annotations_of-OfOne i ((r, q) ∷ rest) =
    let others = annotations_of-OfOne i rest in
    elim (Option-cases (extract_profile_name r)) [
      | inl invalid ↦ rw (annotations_of, invalid) tt
      | inr (profile, e) ↦ elim (Option-cases (annotations_of i rest)) [
        | inl invalid ↦ rw (annotations_of, e, invalid) tt
        | inr (l, f) ↦
            let of_one : OfOne i (length rest) l =
              subst (AllSome (OfOne i (length rest))) f others in
            rw (annotations_of, e, f) ((refl, of_one.0), omega (arith, of_one.1))
      ]
    ]

-- The GPUs have different indices and a resource each.
abbrev pub AllApart : NodePartitioning → Type 0
AllApart [] = Unit
AllApart (g ∷ rest) = All (λ h. (g.gpu_index == h.gpu_index) ≡ false) rest × AllApart rest

abbrev pub HasResource : GpuPartitioning → Type 0
HasResource g = 0 < length g.resources

abbrev MissingIn : GoMap ℤ (List SpecAnnotation) → GpuPartitioning → Type 0
MissingIn m g = get? g.gpu_index m ≡ none

MissingIn-grouped :
    (i : ℤ) (l : List SpecAnnotation) (m : GoMap ℤ (List SpecAnnotation)) (gpus : NodePartitioning)
    → All (OfGpu i) l
    → All (λ h. (i == h.gpu_index) ≡ false) gpus
    → All (MissingIn m) gpus
    → All (MissingIn (grouped m l)) gpus
MissingIn-grouped i l m [] all other h = tt
MissingIn-grouped i l m (g ∷ rest) all other h =
    (get?-grouped i g.gpu_index l m all other.0 h.0, MissingIn-grouped i l m rest all other.1 h.1)

-- The specs of a partitioning are grouped into as many groups as it has GPUs.
length-grouped :
    (gpus : NodePartitioning) (m : GoMap ℤ (List SpecAnnotation))
    → AllApart gpus
    → All HasResource gpus
    → All (MissingIn m) gpus
    → AllSome
        (λ specs. length (grouped m specs) ≡ length m + length gpus)
        (get_gpu_spec_annotation_list gpus)
unfolding get_gpu_spec_annotation_list group_into
length-grouped [] m apart some_of_them missing = omega arith
length-grouped (g ∷ rest) m apart some_of_them missing =
    let first = annotations_of-OfOne g.gpu_index g.resources in
    elim (Option-cases (annotations_of g.gpu_index g.resources)) [
      | inl invalid ↦ rw (get_gpu_spec_annotation_list, invalid) tt
      | inr (l, e) ↦ elim (Option-cases (get_gpu_spec_annotation_list rest)) [
        | inl invalid ↦ rw (get_gpu_spec_annotation_list, e, invalid) tt
        | inr (more, f) ↦
            let of_one : OfOne g.gpu_index (length g.resources) l =
              subst (AllSome (OfOne g.gpu_index (length g.resources))) e first in
            let one =
              length-grouped_new g.gpu_index l m of_one.0 (omega (arith, of_one.1, some_of_them.0))
                missing.0 in
            let others : length (grouped (grouped m l) more) ≡ length (grouped m l) + length rest =
              subst
                (AllSome (λ specs.
                  length (grouped (grouped m l) specs) ≡ length (grouped m l) + length rest))
                f
                (length-grouped rest (grouped m l) apart.1 some_of_them.1
                  (MissingIn-grouped g.gpu_index l m rest of_one.0 apart.0 missing.1)) in
            let all : length (grouped m (l ++ more)) ≡ length m + suc (length rest) =
              ap length (group_into-append l more m) ∙ omega (arith, others, one) in
            rw (get_gpu_spec_annotation_list, e, f) all
      ]
    ]

nothing_missing : (gpus : NodePartitioning) → All (MissingIn []) gpus
unfolding get?
nothing_missing [] = tt
nothing_missing (g ∷ rest) = (refl, nothing_missing rest)

-- The partitioning of a node has as many GPUs as the node's label says, with different indices and at
-- least one resource each, and its specs can be read back: they are of different GPUs or profiles, with
-- an index that is not negative, a profile without dashes, and numbers of 64 bits. When they have been
-- written, the node counts as initialized, so that a Reconcile succeeds without any call.
pub reconcile_node-once :
    (cmp : MapCompare Slice) (known : GoMap Model (List Geometry)) (api : Api) (node : KubeNode)
    (gpus : NodePartitioning) (specs : List SpecAnnotation) (plan_id : String) (t : Requests)
    → get_count node ≡ some (pos (length gpus))
    → AllApart gpus
    → All HasResource gpus
    → get_gpu_spec_annotation_list gpus ≡ some specs
    → All IsWritable specs
    → AllDifferent specs
    → reconcile_node cmp known api
        (record node { annotations = planned_annotations specs plan_id node.annotations })
        t
      ≡ (some tt, t)
unfolding reconcile_node is_node_initialized get_count group_spec_by_gpu_index group_by
reconcile_node-once cmp known api node gpus specs plan_id t counted apart some_of_them listed
      writable different =
    let written = record node {
      annotations = planned_annotations specs plan_id node.annotations;
    } in
    let read = parse-planned_in_order specs plan_id node.annotations writable different in
    let sum : length (grouped [] specs) ≡ 0 + length gpus =
      subst (AllSome (λ l. length (grouped [] l) ≡ 0 + length gpus)) listed
        (length-grouped gpus [] apart some_of_them (nothing_missing gpus)) in
    let groups : length (grouped [] specs) ≡ length gpus = omega (arith, sum) in
    let same_count : get_count written ≡ some (pos (length gpus)) = counted in
    let initialized : is_node_initialized written ≡ true =
      rw (is_node_initialized, same_count, read, groups)
        ((eq_ℤ_iff (pos (length gpus)) (pos (length gpus))).1 refl) in
    elim (Bool-cases (is_mig_partitioning_enabled written)) [
      | inl enabled ↦ rw (reconcile_node, enabled, initialized) refl
      | inr disabled ↦ rw (reconcile_node, disabled) refl
    ]
