-- ===== src/Agent/Plan/Net.antt =====
-- What a plan creates of a profile, less what it deletes of it.
use walkai_nos.Base.{
  ◌≡◌, refl, sym, ◌∙◌, ap, Bool, true, false, List, [], ◌∷◌, ◌++◌, ℕ, ◌+◌, ◌≤◌, ◌<◌, arith,
  if◌then◌else◌, ◌==◌, length, All, Bool-cases, inl, inr, ℤ, pos, neg_part, lt_ℤ, lt_ℤ→lt, ◌<ℤ◌,
  Comparable, ◌+ℤ◌, ◌-ℤ◌, ◌≤ℤ◌, int_laws, order_laws,
}
use mathlib.Core.List.{append_assoc, append-nil}
use walkai_nos.GoMap.{GoMap}
use walkai_nos.GoMap.Groups.{count, list_at, IsKeyed}
use walkai_nos.GoMap.Keyed.{count-append, list_at-All}
use walkai_nos.Mig.Profile.{Profile, Profile_eq}
use walkai_nos.Device.{Device, profile_of}
use walkai_nos.Annotation.{SpecAnnotation}
use walkai_nos.Agent.Plan.{
  CreateOperation, DeleteOperation, MigConfigPlan, add_delete_op, add_create_op, resources_of,
  get_resources_to_delete, extract_candidates_for_deletion, total_quantity, plan_profile,
}
use walkai_nos.Agent.Plan.Candidates.{extract-All, extract_outcomes}

-- How many of the devices have the profile `k`.
abbrev pub of_profile : Profile → List Device → ℕ
of_profile k l = count (λ d. profile_of d == k) l

-- How many devices of the profile `k` the operations create.
unfoldable pub created : Profile → List CreateOperation → ℤ
created k [] = pos 0
created k (o ∷ rest) = (if o.mig_profile == k then o.quantity else pos 0) +ℤ created k rest

unfoldable pub net : Profile → MigConfigPlan → ℤ
net k p = created k p.create_operations -ℤ pos (of_profile k (get_resources_to_delete p))

created-append :
    (k : Profile) (xs ys : List CreateOperation)
    → created k (xs ++ ys) ≡ created k xs +ℤ created k ys
unfolding created
created-append k [] ys = omega int_laws
created-append k (o ∷ rest) ys =
    ap (λ z. (if o.mig_profile == k then o.quantity else pos 0) +ℤ z) (created-append k rest ys)
    ∙ omega int_laws

pub resources_of-append :
    (xs ys : List DeleteOperation) → resources_of (xs ++ ys) ≡ resources_of xs ++ resources_of ys
unfolding resources_of
resources_of-append [] ys = refl
resources_of-append (o ∷ rest) ys =
    ap (λ l. o.resources ++ l) (resources_of-append rest ys)
    ∙ sym (append_assoc o.resources (resources_of rest) (resources_of ys))

deleted-add :
    (k : Profile) (l : List Device) (ops : List DeleteOperation)
    → of_profile k (resources_of (ops ++ record { resources = l } ∷ []))
      ≡ of_profile k (resources_of ops) + of_profile k l
unfolding resources_of
deleted-add k l ops =
    ap (of_profile k) (resources_of-append ops (record { resources = l } ∷ []))
    ∙ count-append (λ d. profile_of d == k) (resources_of ops) (l ++ [])
    ∙ ap (λ x. of_profile k (resources_of ops) + of_profile k x) (append-nil l)

pub net-add_delete_op :
    (k : Profile) (l : List Device) (p : MigConfigPlan)
    → net k (add_delete_op l p) ≡ net k p -ℤ pos (of_profile k l)
unfolding net
net-add_delete_op k l p =
    ap (λ n. created k p.create_operations -ℤ pos n) (deleted-add k l p.delete_operations)
    ∙ omega int_laws

pub net-add_create_op :
    (k profile : Profile) (q : ℤ) (p : MigConfigPlan)
    → net k (add_create_op profile q p) ≡ net k p +ℤ (if profile == k then q else pos 0)
unfolding net created
net-add_create_op k profile q p =
    ap (λ z. z -ℤ pos (of_profile k (get_resources_to_delete p)))
      (created-append k p.create_operations (record { mig_profile = profile; quantity = q } ∷ []))
    ∙ omega int_laws

-- Devices that all have one profile.
of_one_key {ℓ κ} :
    {K : Type ℓ} {A : Type κ} ⦃e : Comparable K⦄ (key : A → K) (k j : K) (l : List A)
    → All (λ d. key d ≡ j) l
    → count (λ d. key d == k) l ≡ (if j == k then length l else 0)
unfolding count
of_one_key key k j [] h = ground arith
of_one_key key k j (d ∷ rest) h = rw h.0 (ground (arith, of_one_key key k j rest h.1))

pub of_profile-All :
    (k profile : Profile) (l : List Device)
    → All (λ d. profile_of d ≡ profile) l
    → of_profile k l ≡ (if profile == k then length l else 0)
of_profile-All k profile l h = of_one_key profile_of k profile l h

total_from :
    (l : List SpecAnnotation) (t : ℤ)
    → pos 0 ≤ℤ t
    → All (λ a. pos 0 ≤ℤ a.quantity) l
    → pos 0 ≤ℤ total_quantity l t
unfolding total_quantity
total_from [] t h all = h
total_from (a ∷ rest) t h all = total_from rest (t +ℤ a.quantity) (omega (int_laws, h, all.0)) all.1

-- The change that one profile of one GPU needs.
abbrev pub change : List SpecAnnotation → List Device → ℤ
change annotations actual = total_quantity annotations (pos 0) -ℤ pos (length actual)

negative_parts : (z : ℤ) → z <ℤ pos 0 → (pos 0 -ℤ pos (neg_part z) ≡ z) × (0 < neg_part z)
unfolding ◌-ℤ◌
negative_parts z h = (ground arith, ground arith)

enough_devices : (t : ℤ) (c : ℕ) → pos 0 ≤ℤ t → neg_part (t -ℤ pos c) ≤ c
unfolding ◌-ℤ◌
enough_devices t c h = ground arith

less_if :
    (z v : ℤ) (b : Bool) (c m : ℕ)
    → c ≡ (if b then m else 0)
    → pos 0 -ℤ pos m ≡ v
    → z -ℤ pos c ≡ z +ℤ (if b then v else pos 0)
less_if z v true c m hc hv =
    let moved : z -ℤ pos m ≡ z +ℤ (pos 0 -ℤ pos m) = omega int_laws in
    ap (λ i. z -ℤ pos i) hc ∙ moved ∙ ap (λ i. z +ℤ i) hv
less_if z v false c m hc hv = ap (λ i. z -ℤ pos i) hc ∙ omega int_laws

nothing_if : (z v : ℤ) (b : Bool) → v ≡ pos 0 → z ≡ z +ℤ (if b then v else pos 0)
nothing_if z v true h =
    let same : z ≡ z +ℤ pos 0 = omega int_laws in same ∙ ap (λ i. z +ℤ i) (sym h)
nothing_if z v false h = omega int_laws

-- Deleting candidates of one profile, as many as are too many.
net-too_many :
    (k profile : Profile) (actual : List Device) (t : ℤ) (p : MigConfigPlan)
    → All (λ d. profile_of d ≡ profile) actual
    → pos 0 ≤ℤ t
    → (t -ℤ pos (length actual)) <ℤ pos 0
    → net k (
        add_delete_op
          (extract_candidates_for_deletion actual (neg_part (t -ℤ pos (length actual))))
          p)
      ≡ net k p +ℤ (if profile == k then t -ℤ pos (length actual) else pos 0)
net-too_many k profile actual t p own nonneg less =
    let diff = t -ℤ pos (length actual) in
    let (value, positive) = negative_parts diff less in
    let out = extract_candidates_for_deletion actual (neg_part diff) in
    let size =
      (extract_outcomes actual (neg_part diff) positive
        (enough_devices t (length actual) nonneg)).0 in
    let counted =
      of_profile-All k profile out
        (extract-All (λ d. profile_of d ≡ profile) actual (neg_part diff) own) in
    net-add_delete_op k out p
    ∙ less_if (net k p) diff (profile == k) (of_profile k out) (neg_part diff)
        (counted ∙ ap (λ i. if profile == k then i else 0) size) value

pub net-plan_profile :
    (k profile : Profile) (gpu_state : GoMap Profile (List Device))
    (annotations : List SpecAnnotation) (p : MigConfigPlan) (n : ℕ)
    → IsKeyed profile_of gpu_state
    → All (λ a. pos 0 ≤ℤ a.quantity) annotations
    → net k (plan_profile gpu_state profile annotations (p, n)).0
      ≡ net k p +ℤ (if profile == k then change annotations (list_at profile gpu_state) else pos 0)
unfolding plan_profile
net-plan_profile k profile gpu_state annotations p n keyed nonneg =
    let actual = list_at profile gpu_state in
    let t = total_quantity annotations (pos 0) in
    let diff = t -ℤ pos (length actual) in
    elim (Bool-cases (lt_ℤ (pos 0) diff)) [
      | inl more ↦ rw more (net-add_create_op k profile diff p)
      | inr rest ↦ elim (Bool-cases (lt_ℤ diff (pos 0))) [
        | inl less ↦
            rw (rest, less)
              (net-too_many k profile actual t p (list_at-All profile_of profile gpu_state keyed)
                (total_from annotations (pos 0) (omega arith) nonneg) (lt_ℤ→lt diff (pos 0) less))
        | inr same ↦
            rw (rest, same)
              (nothing_if (net k p) diff (profile == k) (omega (order_laws, rest, same)))
      ]
    ]
