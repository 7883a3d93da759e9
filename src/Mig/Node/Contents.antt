-- ===== src/Mig/Node/Contents.antt =====
-- The devices of the GPUs that the two loops of extractGPUs make.
use walkai_nos.Base.{
  ◌≡◌, refl, sym, ap, ◌∙◌, subst, Bool, true, false, ◌&&◌, none, some, List, [], ◌∷◌, ℕ, zero, suc,
  ◌+◌, String_eq, ℤ, pos, int_eq, ◌==◌, if◌then◌else◌, All, All-map, arith, inl, inr, Bool-cases,
}
use walkai_nos.GoMap.{GoMap, get?, put, amount, Distinct}
use walkai_nos.GoMap.Groups.{
  filter, list_at, list_at-cons, group_by, list_at-group_by, group_by-Distinct,
}
use walkai_nos.GoMap.Quantities.{amount-nil, amount-put}
use walkai_nos.Geometry.{Geometry, ProfileName}
use walkai_nos.Annotation.{StatusAnnotation, is_used, is_free, group_status_by_gpu_index}
use walkai_nos.Mig.Gpu.{Model, Gpu}
use walkai_nos.Mig.Node.Build.{used_devices, free_devices, annotated_gpus, missing_gpus}
use walkai_nos.Mig.Node.Extracted.{and_then-index}

-- The quantity of the last annotation of the profile that passes the test, or `quantity` without one.
unfoldable pub last_quantity :
    (StatusAnnotation → Bool) → ProfileName → List StatusAnnotation → ℤ → ℤ
last_quantity test p [] quantity = quantity
last_quantity test p (a ∷ rest) quantity =
    last_quantity test p rest (if test a && (a.profile_name == p) then a.quantity else quantity)

-- A GPU has the devices that the annotations of its index say.
abbrev pub HasContents : List StatusAnnotation → Gpu → Type 0
HasContents statuses g =
    (p : ProfileName)
    → (amount p g.used_mig_devices
        ≡ last_quantity is_used p (filter (λ a. a.index == g.index) statuses) (pos 0))
      × (amount p g.free_mig_devices
          ≡ last_quantity is_free p (filter (λ a. a.index == g.index) statuses) (pos 0))

amount-put_if :
    (b : Bool) (p r : ProfileName) (q : ℤ) (m : GoMap ProfileName ℤ)
    → amount p (if b then put r q m else m) ≡ (if b && (r == p) then q else amount p m)
amount-put_if true p r q m = amount-put r p q m
amount-put_if false p r q m = refl

amount-used_devices :
    (p : ProfileName) (l : List StatusAnnotation) (m : GoMap ProfileName ℤ)
    → amount p (used_devices l m) ≡ last_quantity is_used p l (amount p m)
unfolding used_devices last_quantity
amount-used_devices p [] m = refl
amount-used_devices p (a ∷ rest) m =
    amount-used_devices p rest (if is_used a then put a.profile_name a.quantity m else m)
    ∙ ap (last_quantity is_used p rest) (amount-put_if (is_used a) p a.profile_name a.quantity m)

amount-free_devices :
    (p : ProfileName) (l : List StatusAnnotation) (m : GoMap ProfileName ℤ)
    → amount p (free_devices l m) ≡ last_quantity is_free p l (amount p m)
unfolding free_devices last_quantity
amount-free_devices p [] m = refl
amount-free_devices p (a ∷ rest) m =
    amount-free_devices p rest (if is_free a then put a.profile_name a.quantity m else m)
    ∙ ap (last_quantity is_free p rest) (amount-put_if (is_free a) p a.profile_name a.quantity m)

-- The entry of a key holds what is found at the key.
other_entries :
    (k : ℤ) (l : List StatusAnnotation) (all m : GoMap ℤ (List StatusAnnotation))
    → get? k m ≡ none
    → All (λ e. list_at e.0 all ≡ e.1) m
    → All (λ e. list_at e.0 ((k, l) ∷ all) ≡ e.1) m
unfolding get?
other_entries k l all [] h found = tt
other_entries k l all ((j, x) ∷ m) h found = elim (Bool-cases (j == k)) [
  | inl same ↦ absurd (ground (arith, h, same))
  | inr differs ↦ (
    list_at-cons k j l all
        ∙ ground (arith, differs, found.0, int_eq.same_iff k j, int_eq.same_iff j k),
    other_entries k l all m (ground (arith, h, differs)) found.1,
  )
]

entries_found :
    (m : GoMap ℤ (List StatusAnnotation)) → Distinct m → All (λ e. list_at e.0 m ≡ e.1) m
unfolding list_at get?
entries_found [] d = tt
entries_found ((k, l) ∷ m) d =
    (ground (arith, int_eq.same_iff k k), other_entries k l m m d.0 (entries_found m d.1))

-- A group has the annotations of its index, in their order.
pub groups_filtered :
    (statuses : List StatusAnnotation)
    → All (λ e. e.1 ≡ filter (λ a. a.index == e.0) statuses) (group_status_by_gpu_index statuses)
unfolding group_status_by_gpu_index
groups_filtered statuses =
    let key : StatusAnnotation → ℤ = λ a. a.index in
    All-map (λ e found. sym found ∙ list_at-group_by key e.0 statuses) (group_by key statuses)
      (entries_found (group_by key statuses) (group_by-Distinct key statuses))

module _ (known : GoMap Model (List Geometry)) (model : Model) where
  pub annotated-HasContents :
      (statuses : List StatusAnnotation) (groups : GoMap ℤ (List StatusAnnotation))
      (gpus : List Gpu)
      → annotated_gpus known model groups ≡ some gpus
      → All (λ e. e.1 ≡ filter (λ a. a.index == e.0) statuses) groups
      → All (HasContents statuses) gpus
  unfolding annotated_gpus
  annotated-HasContents statuses [] gpus h own =
      subst (All (HasContents statuses)) (none_of gpus h) tt
    where
      none_of : (l : List Gpu) → some [] ≡ some l → [] ≡ l
      none_of l e = ground (arith, e)
  annotated-HasContents statuses ((i, l) ∷ rest) gpus h own =
      let (g, tail, eq, later, index, used, free) =
        and_then-index known model i (used_devices l []) (free_devices l [])
          (annotated_gpus known model rest) gpus h in
      let mine : l ≡ filter (λ a. a.index == g.index) statuses =
        own.0 ∙ ap (λ (j : ℤ). filter (λ a. a.index == j) statuses) (sym index) in
      subst (All (HasContents statuses)) (sym eq) (
        λ p. (
          ap (amount p) used
              ∙ amount-used_devices p l []
              ∙ ap (last_quantity is_used p l) (amount-nil p)
              ∙ ap (λ x. last_quantity is_used p x (pos 0)) mine,
          ap (amount p) free
              ∙ amount-free_devices p l []
              ∙ ap (last_quantity is_free p l) (amount-nil p)
              ∙ ap (λ x. last_quantity is_free p x (pos 0)) mine,
        ),
        annotated-HasContents statuses rest tail later own.1,
      )

  pub missing-Empty :
      (i rounds : ℕ) (gpus : List Gpu)
      → missing_gpus known model i rounds ≡ some gpus
      → All (λ g. (g.used_mig_devices ≡ []) × (g.free_mig_devices ≡ [])) gpus
  unfolding missing_gpus
  missing-Empty i zero [] h = tt
  missing-Empty i zero (g ∷ gpus) h = absurd (ground (arith, h))
  missing-Empty i (suc rounds) gpus h =
      let (g, tail, eq, later, index, used, free) =
        and_then-index known model (pos i) [] [] (missing_gpus known model (i + 1) rounds) gpus h in
      subst (All (λ g. (g.used_mig_devices ≡ []) × (g.free_mig_devices ≡ []))) (sym eq)
        ((used, free), missing-Empty (i + 1) rounds tail later)
