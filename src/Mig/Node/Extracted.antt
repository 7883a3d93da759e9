-- ===== src/Mig/Node/Extracted.antt =====
-- The two loops of extractGPUs: the indices of the GPUs that they make.
use walkai_nos.Base.{
  ◌≡◌, refl, Option, none, some, List, [], ◌∷◌, ◌++◌, map, ℕ, zero, suc, ◌+◌, String_eq, ℤ, pos,
  pos_part, ◌-ℤ◌, int_eq, length, arith,
}
use walkai_nos.GoMap.{GoMap, get?}
use walkai_nos.Geometry.{Geometry, ProfileName}
use walkai_nos.Kube.{KubeNode}
use walkai_nos.Annotation.{StatusAnnotation, group_status_by_gpu_index}
use walkai_nos.Annotation.Format.{parse_node_annotations}
use walkai_nos.Mig.Gpu.{Model, Gpu, Result, ok, err, unknown_model, new_gpu}
use walkai_nos.Mig.Node.Build.{
  used_devices, free_devices, and_then, both, annotated_gpus, missing_gpus, extract_gpus,
}

abbrev pub index_of : Gpu → ℤ
index_of g = g.index

abbrev pub indices : List Gpu → List ℤ
indices gpus = map index_of gpus

-- from, from + 1, and so on
unfoldable pub range_from : ℕ → ℕ → List ℤ
range_from i zero = []
range_from i (suc rounds) = pos i ∷ range_from (i + 1) rounds

abbrev pub keys {ℓ κ} : {K : Type ℓ} {V : Type κ} → GoMap K V → List K
keys [] = []
keys ((k, v) ∷ m) = k ∷ keys m

-- A step of either loop.
pub and_then-index :
    (known : GoMap Model (List Geometry)) (model : Model) (i : ℤ) (used free : GoMap ProfileName ℤ)
    (rest : Option (List Gpu)) (gpus : List Gpu)
    → and_then (new_gpu known model i used free) rest ≡ some gpus
    → (g : Gpu) × (tail : List Gpu) × (gpus ≡ g ∷ tail)
      × (rest ≡ some tail)
      × (g.index ≡ i)
      × (g.used_mig_devices ≡ used)
      × (g.free_mig_devices ≡ free)
unfolding new_gpu
and_then-index known model i used free rest gpus h = step (get? model known) rest h
  where
    step :
        (o : Option (List Geometry)) (r : Option (List Gpu))
        → and_then
            (elim o as (λ _. Result Gpu) [
              | none ↦ err unknown_model
              | some allowed ↦ ok (record {
                index = i;
                model = model;
                allowed_mig_geometries = allowed;
                used_mig_devices = used;
                free_mig_devices = free;
              })
            ])
            r
          ≡ some gpus
        → (g : Gpu) × (tail : List Gpu) × (gpus ≡ g ∷ tail)
          × (r ≡ some tail)
          × (g.index ≡ i)
          × (g.used_mig_devices ≡ used)
          × (g.free_mig_devices ≡ free)
    step none r e = cc
    step (some allowed) none e = cc
    step (some allowed) (some tail) e = (
      record {
        index = i;
        model = model;
        allowed_mig_geometries = allowed;
        used_mig_devices = used;
        free_mig_devices = free;
      },
      tail,
      cc,
      refl,
      refl,
      refl,
      refl,
    )

module _ (known : GoMap Model (List Geometry)) (model : Model) where
  pub annotated-indices :
      (groups : GoMap ℤ (List StatusAnnotation)) (gpus : List Gpu)
      → annotated_gpus known model groups ≡ some gpus
      → indices gpus ≡ keys groups
  unfolding annotated_gpus
  annotated-indices [] gpus h = ground (arith, h)
  annotated-indices ((i, l) ∷ rest) gpus h =
      let (g, tail, eq, later, index, _, _) =
        and_then-index known model i (used_devices l []) (free_devices l [])
          (annotated_gpus known model rest) gpus h in
      cc (eq, index, annotated-indices rest tail later)

  pub missing-indices :
      (i rounds : ℕ) (gpus : List Gpu)
      → missing_gpus known model i rounds ≡ some gpus
      → indices gpus ≡ range_from i rounds
  unfolding missing_gpus range_from
  missing-indices i zero gpus h = ground (arith, h)
  missing-indices i (suc rounds) gpus h =
      let (g, tail, eq, later, index, _, _) =
        and_then-index known model (pos i) [] [] (missing_gpus known model (i + 1) rounds) gpus h in
      cc (eq, index, missing-indices (i + 1) rounds tail later)

  -- The two lists of GPUs that are put together.
  pub extracted :
      (node : KubeNode) (count : ℤ) (gpus : List Gpu)
      → extract_gpus known node model count ≡ some gpus
      → (named missing : List Gpu) × (gpus ≡ named ++ missing)
        × (annotated_gpus known model
              (group_status_by_gpu_index (parse_node_annotations node.annotations).0)
            ≡ some named)
        × (missing_gpus known model
              (length (group_status_by_gpu_index (parse_node_annotations node.annotations).0))
              (pos_part (
                count
                -ℤ pos (
                    length
                      (group_status_by_gpu_index (parse_node_annotations node.annotations).0))))
            ≡ some missing)
  unfolding extract_gpus
  extracted node count gpus h =
      let groups = group_status_by_gpu_index (parse_node_annotations node.annotations).0 in
      step (annotated_gpus known model groups)
        (missing_gpus known model (length groups) (pos_part (count -ℤ pos (length groups)))) h
    where
      step :
          (a b : Option (List Gpu))
          → both known a b ≡ some gpus
          → (named missing : List Gpu) × (gpus ≡ named ++ missing)
            × (a ≡ some named)
            × (b ≡ some missing)
      step (some named) (some missing) e = (named, missing, cc, refl, refl)
      step (some named) none e = cc
      step none b e = cc
