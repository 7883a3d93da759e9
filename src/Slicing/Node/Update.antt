-- ===== src/Slicing/Node/Update.antt =====
-- UpdateGeometryFor of pkg/gpu/slicing/node.go, over all GPUs of the node.
use walkai_nos.Base.{
  List, [], ◌∷◌, String_eq, ℤ, pos, ◌-ℤ◌, le_ℤ, nat_eq, length, All, Bool-cases, inl, inr,
}
use walkai_nos.GoMap.{GoMap, delete, amount, sub_at}
use walkai_nos.Geometry.{ProfileName}
use walkai_nos.Slicing.Gpu.{SlicingGpu, update_slices_for}
use walkai_nos.Slicing.Gpu.Bound.{WithinMemory, IsProper, StaysWithin, unchanged}
use walkai_nos.Slicing.Gpu.Update.{IsSized, HasSize, put-All, update_slices_for-StaysWithin}
use walkai_nos.Slicing.Node.{
  SlicingNode, less_slices, update_slicing_gpus, slicing_node_update_geometry_for,
}

-- The slices of the GPU fit, and no free ones have a negative size or number.
abbrev pub IsSound : SlicingGpu → Type 0
IsSound g = WithinMemory g × IsProper g.free_profiles

-- One by one, the GPUs are later states of the GPUs before.
abbrev pub AllStayWithin : List SlicingGpu → List SlicingGpu → Type 0
AllStayWithin [] [] = Unit
AllStayWithin (g ∷ gs) (h ∷ hs) = StaysWithin g h × AllStayWithin gs hs
AllStayWithin [] (h ∷ hs) = ⊥
AllStayWithin (g ∷ gs) [] = ⊥

IsSized-delete : (p : ProfileName) (m : GoMap ProfileName ℤ) → IsSized m → IsSized (delete p m)
unfolding delete
IsSized-delete p [] h = tt
IsSized-delete p ((j, w) ∷ m) h = elim (Bool-cases (String_eq.same j p)) [
  | inl hit ↦ rw hit (IsSized-delete p m h.1)
  | inr miss ↦ rw miss (h.0, IsSized-delete p m h.1)
]

IsSized-less :
    (free required : GoMap ProfileName ℤ)
    → IsProper free
    → IsSized required
    → IsSized (less_slices free required)
unfolding less_slices sub_at
IsSized-less [] required h r = r
IsSized-less ((p, q) ∷ rest) required h r =
    let less = sub_at p q required in
    let sized : IsSized less =
      put-All (λ e. HasSize e.0) p (amount p required -ℤ q) required h.0.0 r in
    elim (Bool-cases (le_ℤ (amount p less) (pos 0))) [
      | inl gone ↦ rw gone (IsSized-less rest (delete p less) h.1 (IsSized-delete p less sized))
      | inr left ↦ rw left (IsSized-less rest less h.1 sized)
    ]

update_slicing_gpus-Within :
    (required : GoMap ProfileName ℤ) (gpus : List SlicingGpu)
    → IsSized required
    → All IsSound gpus
    → AllStayWithin gpus (update_slicing_gpus required gpus).0
unfolding update_slicing_gpus
update_slicing_gpus-Within required [] r h = tt
update_slicing_gpus-Within required (g ∷ rest) r h =
    let first = update_slices_for-StaysWithin required g r h.0.0 h.0.1 in
    let updated = (update_slices_for required g).0 in
    (
      first,
      update_slicing_gpus-Within (less_slices updated.free_profiles required) rest
          (IsSized-less updated.free_profiles required first.light r) h.1,
    )

same_gpus : (gpus : List SlicingGpu) → All IsSound gpus → AllStayWithin gpus gpus
same_gpus [] h = tt
same_gpus (g ∷ rest) h = (unchanged g h.0.0 h.0.1, same_gpus rest h.1)

-- A node is updated for slices of no negative size, and on each of its GPUs the slices fit into the
-- memory and no free slices have a negative size or number. Then the node has as many GPUs as before,
-- in the same order, and of each the model, index, memory and used slices are the same, the slices
-- still fit, and no free slices have a negative size or number.
pub node_update-StaysWithin :
    (n : SlicingNode) (required : GoMap ProfileName ℤ)
    → IsSized required
    → All IsSound n.gpus
    → AllStayWithin n.gpus (slicing_node_update_geometry_for n required).0.gpus
unfolding slicing_node_update_geometry_for
node_update-StaysWithin n required r h = elim (Bool-cases (nat_eq (length n.gpus) 0)) [
  | inl no_gpus ↦ rw (slicing_node_update_geometry_for, no_gpus) (same_gpus n.gpus h)
  | inr gpus ↦ elim (Bool-cases (nat_eq (length required) 0)) [
    | inl no_slices ↦ rw (slicing_node_update_geometry_for, gpus, no_slices) (same_gpus n.gpus h)
    | inr slices ↦
        rw (slicing_node_update_geometry_for, gpus, slices)
          (update_slicing_gpus-Within required n.gpus r h)
  ]
]
