-- ===== src/Mig/Node/Missed.antt =====
-- A GPU that NewNode misses: it counts the GPUs that the annotations name, and not which ones.
use walkai_nos.Base.{
  ◌≡◌, refl, ◌∙◌, ap, List, [], ◌∷◌, ◌++◌, ℕ, suc, ℤ, int_eq, pos, pos_part, ◌-ℤ◌, some, All,
  length, arith, ==_refl,
}
use walkai_nos.GoMap.{GoMap, put}
use walkai_nos.GoMap.Groups.{group_into, group_by, list_at}
use walkai_nos.Geometry.{Geometry}
use walkai_nos.Kube.{KubeNode}
use walkai_nos.Annotation.{StatusAnnotation, group_status_by_gpu_index}
use walkai_nos.Annotation.Format.{parse_node_annotations}
use walkai_nos.Mig.Gpu.{Model}
use walkai_nos.Mig.Node.{Node}
use walkai_nos.Mig.Node.Build.{new_node, get_model, get_count}
use walkai_nos.Mig.Node.Built.{indices-new_node, status_groups}
use walkai_nos.Mig.Node.Extracted.{indices, keys, range_from}

put_same : (j i : ℤ) (y x : List StatusAnnotation) → i ≡ j → put i y ((j, x) ∷ []) ≡ (j, y) ∷ []
unfolding put
put_same j i y x h = rw (h, ==_refl j) refl

one_group_more :
    (j : ℤ) (l x : List StatusAnnotation)
    → All (λ a. a.index ≡ j) l
    → keys (group_into (λ a. a.index) ((j, x) ∷ []) l) ≡ j ∷ []
unfolding group_into
one_group_more j [] x h = refl
one_group_more j (a ∷ rest) x h =
    ap (λ m. keys (group_into (λ r. r.index) m rest))
      (put_same j a.index (list_at a.index ((j, x) ∷ []) ++ a ∷ []) x h.0)
    ∙ one_group_more j rest (list_at a.index ((j, x) ∷ []) ++ a ∷ []) h.1

one_group :
    (j : ℤ) (a : StatusAnnotation) (l : List StatusAnnotation)
    → All (λ a. a.index ≡ j) (a ∷ l)
    → keys (group_by (λ a. a.index) (a ∷ l)) ≡ j ∷ []
unfolding group_by group_into put
one_group j a l h =
    ap (λ i. keys (group_into (λ r. r.index) ((i, list_at a.index [] ++ a ∷ []) ∷ []) l)) h.0
    ∙ one_group_more j l (list_at a.index [] ++ a ∷ []) h.1

length-keys : {V : Type 0} (m : GoMap ℤ V) → length m ≡ length (keys m)
length-keys [] = refl
length-keys ((k, v) ∷ m) = ap suc (length-keys m)

rounds : (c : ℕ) → pos_part (pos (suc (suc c)) -ℤ pos 1) ≡ suc c
unfolding ◌-ℤ◌
rounds c = ground arith

-- Where a node has at least two GPUs and its status annotations, of which there are some, all name
-- GPU 1, NewNode makes GPU 1 twice and then the GPUs from 2, so that GPU 0 is missed.
pub new_node_misses :
    (known : GoMap Model (List Geometry)) (node : KubeNode) (model : Model) (c : ℕ) (n : Node)
    (a : StatusAnnotation) (l : List StatusAnnotation)
    → get_model node ≡ some model
    → get_count node ≡ some (pos (suc (suc c)))
    → new_node known node ≡ some n
    → (parse_node_annotations node.annotations).0 ≡ a ∷ l
    → All (λ b. b.index ≡ pos 1) (a ∷ l)
    → indices n.gpus ≡ pos 1 ∷ pos 1 ∷ range_from 2 c
unfolding range_from group_status_by_gpu_index
new_node_misses known node model c n a l hm hc h parsed all =
    let groups : keys (status_groups node) ≡ pos 1 ∷ [] =
      ap (λ x. keys (group_by (λ b. b.index) x)) parsed ∙ one_group (pos 1) a l all in
    let one : length (status_groups node) ≡ 1 =
      length-keys (status_groups node) ∙ ap length groups in
    indices-new_node known node model (pos (suc (suc c))) n hm hc h
    ∙ ap
        (λ k.
          k
          ++ range_from (length (status_groups node))
              (pos_part (pos (suc (suc c)) -ℤ pos (length (status_groups node)))))
        groups
    ∙ ap (λ i. pos 1 ∷ range_from i (pos_part (pos (suc (suc c)) -ℤ pos i))) one
    ∙ ap (λ r. pos 1 ∷ range_from 1 r) (rounds c)
