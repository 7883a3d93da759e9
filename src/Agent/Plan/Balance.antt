-- ===== src/Agent/Plan/Balance.antt =====
-- NewMigConfigPlan: what the whole plan creates and deletes of each profile.
use walkai_nos.Base.{
  ◌≡◌, refl, sym, subst, ◌∙◌, ap, true, false, List, [], ◌∷◌, map, none, ℕ, ◌+◌, arith,
  if◌then◌else◌, ◌==◌, All, Bool-cases, inl, inr, ◌⊎◌, ℤ, int_eq, pos, ◌+ℤ◌, ◌-ℤ◌, ◌≤ℤ◌, int_laws,
}
use walkai_nos.GoMap.{GoMap, get?, Distinct}
use walkai_nos.GoMap.Groups.{
  filter, count, list_at, list_at-none, list_at-cons, list_at-group_by, group_by, group_by-Distinct,
  flatten, IsKeyed,
}
use walkai_nos.GoMap.Keyed.{
  group_by-IsKeyed, count-append, count-flatten, length-group_by, filter-filter,
}
use walkai_nos.Mig.Profile.{Profile, Profile_eq}
use walkai_nos.Device.{
  Device, profile_of, insert_by_id, sort_by_device_id, group_by_gpu_index,
  group_devices_by_mig_profile,
}
use walkai_nos.Annotation.{SpecAnnotation, spec_profile, group_spec_by_gpu_index}
use walkai_nos.Agent.State.{MigState, new_mig_state, without_mig_profiles}
use walkai_nos.Agent.Plan.{
  MigConfigPlan, add_delete_op, total_quantity, resources_of, without_spec,
  get_resources_not_included_in_spec, delete_groups, empty_plan, new_mig_config_plan,
}
use walkai_nos.Agent.Plan.Net.{net, created, of_profile, net-add_delete_op}
use walkai_nos.GoMap.Every.{group_by-Every}
use walkai_nos.Agent.Plan.Gpus.{of_spec, no_spec, owed, net-plan_gpus}
use walkai_nos.Agent.Plan.Unwanted.{
  IsState, new_mig_state-IsState, of_profile-new_mig_state, of_profile-grouped, without-IsState,
  of_profile-without, left, of_spec-in_slice,
}

-- The quantity of a profile that the spec asks for.
abbrev pub desired_of : Profile → List SpecAnnotation → ℤ
desired_of k desired = total_quantity (of_spec k desired) (pos 0)

of_profile-without_spec :
    (k : Profile) (l : GoMap ℤ (List SpecAnnotation)) (s : MigState)
    → IsState s
    → Distinct l
    → IsKeyed (λ a. a.index) l
    → of_profile k (flatten (without_spec l s))
      ≡ left (of_spec k (list_at k.gpu_index l)) (of_profile k (flatten s))
unfolding without_spec filter list_at get?
of_profile-without_spec k [] s v d keyed = refl
of_profile-without_spec k ((i, annotations) ∷ rest) s v d keyed =
    let names = map (λ a. a.profile_name) annotations in
    of_profile-without_spec k rest (without_mig_profiles s i names) (without-IsState s i names v)
      d.1 keyed.1
    ∙ ap (left (of_spec k (list_at k.gpu_index rest))) (
        of_profile-without k s i names v
        ∙ sym (of_spec-in_slice k i annotations (of_profile k (flatten s)) keyed.0))
    ∙ step (Bool-cases (i == k.gpu_index))
  where
    n : ℕ
    n = of_profile k (flatten s)

    step :
        ((i == k.gpu_index) ≡ true) ⊎ ((i == k.gpu_index) ≡ false)
        → left (of_spec k (list_at k.gpu_index rest)) (left (of_spec k annotations) n)
          ≡ left (of_spec k (list_at k.gpu_index ((i, annotations) ∷ rest))) n
    step (inl hit) =
        let absent = subst (λ j. get? j rest ≡ none) ((int_eq.same_iff i k.gpu_index).0 hit) d.0 in
        ap (λ l. left (of_spec k l) (left (of_spec k annotations) n))
          (list_at-none k.gpu_index rest absent)
        ∙ ap (λ l. left (of_spec k l) n)
            (sym (
              list_at-cons i k.gpu_index annotations rest
              ∙ ap (λ b. if b then annotations else list_at k.gpu_index rest) hit))
    step (inr miss) =
        ap (λ l. left (of_spec k (list_at k.gpu_index rest)) (left l n))
          (no_spec k i annotations keyed.0 miss)
        ∙ ap (λ l. left (of_spec k l) n)
            (sym (
              list_at-cons i k.gpu_index annotations rest
              ∙ ap (λ b. if b then annotations else list_at k.gpu_index rest) miss))

same_gpu :
    (k : Profile) (a : SpecAnnotation)
    → (spec_profile a == k) ≡ true
    → (a.index == k.gpu_index) ≡ true
same_gpu k a h = ground arith

-- The annotations of a profile stand in the group of its GPU.
of_spec-grouped :
    (k : Profile) (l : List SpecAnnotation)
    → of_spec k (list_at k.gpu_index (group_by (λ a. a.index) l)) ≡ of_spec k l
of_spec-grouped k l =
    ap (of_spec k) (list_at-group_by (λ a. a.index) k.gpu_index l)
    ∙ filter-filter (λ a. spec_profile a == k) (λ a. a.index == k.gpu_index) l (same_gpu k)

of_profile-insert :
    (k : Profile) (d : Device) (l : List Device)
    → of_profile k (insert_by_id d l) ≡ of_profile k (d ∷ l)
unfolding insert_by_id count
of_profile-insert k d [] = refl
of_profile-insert k d (x ∷ xs) = ground (arith, of_profile-insert k d xs)

of_profile-sort :
    (k : Profile) (l : List Device) → of_profile k (sort_by_device_id l) ≡ of_profile k l
unfolding sort_by_device_id count
of_profile-sort k [] = refl
of_profile-sort k (d ∷ rest) =
    of_profile-insert k d (sort_by_device_id rest)
    ∙ ap (λ n. (if profile_of d == k then 1 else 0) + n) (of_profile-sort k rest)

net-delete_groups :
    (k : Profile) (l : GoMap Profile (List Device)) (p : MigConfigPlan)
    → net k (delete_groups l p) ≡ net k p -ℤ pos (of_profile k (flatten l))
unfolding delete_groups flatten count
net-delete_groups k [] p = omega int_laws
net-delete_groups k ((j, resources) ∷ rest) p =
    let rest_n = of_profile k (flatten rest) in
    let split : net k p -ℤ pos (of_profile k resources) -ℤ pos rest_n
        ≡ net k p -ℤ pos (of_profile k resources + rest_n) =
      omega int_laws in
    net-delete_groups k rest (add_delete_op resources p)
    ∙ ap (λ z. z -ℤ pos rest_n) (net-add_delete_op k resources p)
    ∙ split
    ∙ ap (λ n. net k p -ℤ pos n)
        (sym (count-append (λ d. profile_of d == k) resources (flatten rest)))

net-empty_plan : (k : Profile) → net k empty_plan ≡ pos 0
unfolding net created resources_of count
net-empty_plan k = omega int_laws

net-unwanted :
    (k : Profile) (l : List Device)
    → net k (delete_groups (group_by profile_of l) empty_plan) ≡ pos 0 -ℤ pos (of_profile k l)
net-unwanted k l =
    net-delete_groups k (group_by profile_of l) empty_plan
    ∙ ap (λ z. z -ℤ pos (of_profile k (flatten (group_by profile_of l)))) (net-empty_plan k)
    ∙ ap (λ n. pos 0 -ℤ pos n)
        (count-flatten profile_of k (group_by profile_of l) (group_by-Distinct profile_of l)
            (group_by-IsKeyed profile_of l)
          ∙ length-group_by profile_of k l)

balance :
    (l : List SpecAnnotation) (n : ℕ)
    → pos 0 -ℤ pos (left l n) +ℤ owed l n ≡ total_quantity l (pos 0) -ℤ pos n
unfolding total_quantity
balance [] n = omega int_laws
balance (a ∷ rest) n = omega int_laws

-- Of every profile of every GPU, the plan of NewMigConfigPlan creates, less the devices that it
-- deletes, the quantity that the spec asks for, less the devices that there are, if no quantity of
-- the spec is negative.
pub net-new_mig_config_plan :
    (k : Profile) (devices : List Device) (desired : List SpecAnnotation)
    → All (λ a. pos 0 ≤ℤ a.quantity) desired
    → net k (new_mig_config_plan (new_mig_state devices) desired)
      ≡ desired_of k desired -ℤ pos (of_profile k devices)
unfolding new_mig_config_plan get_resources_not_included_in_spec group_spec_by_gpu_index
    group_by_gpu_index group_devices_by_mig_profile
net-new_mig_config_plan k devices desired nonneg =
    let n = of_profile k devices in
    let state = new_mig_state devices in
    let groups = group_by (λ a. a.index) desired in
    let sorted = sort_by_device_id (flatten state) in
    let unwanted = flatten (without_spec groups state) in
    let by_gpu = group_by (λ d. d.gpu_index) sorted in
    let start = delete_groups (group_by profile_of unwanted) empty_plan in
    let existing : of_profile k (list_at k.gpu_index by_gpu) ≡ n =
      of_profile-grouped k sorted
      ∙ of_profile-sort k (flatten state)
      ∙ of_profile-new_mig_state k devices in
    let remaining : of_profile k unwanted ≡ left (of_spec k desired) n =
      of_profile-without_spec k groups state (new_mig_state-IsState devices)
        (group_by-Distinct (λ a. a.index) desired) (group_by-IsKeyed (λ a. a.index) desired)
      ∙ ap (λ l. left l (of_profile k (flatten state))) (of_spec-grouped k desired)
      ∙ ap (left (of_spec k desired)) (of_profile-new_mig_state k devices) in
    net-plan_gpus k by_gpu groups start (group_by-Distinct (λ a. a.index) desired)
      (group_by-IsKeyed (λ a. a.index) desired)
      (group_by-Every (λ a. pos 0 ≤ℤ a.quantity) (λ a. a.index) desired nonneg)
    ∙ ap (λ l. net k start +ℤ owed l (of_profile k (list_at k.gpu_index by_gpu)))
        (of_spec-grouped k desired)
    ∙ ap (λ i. net k start +ℤ owed (of_spec k desired) i) existing
    ∙ ap (λ z. z +ℤ owed (of_spec k desired) n)
        (net-unwanted k unwanted ∙ ap (λ i. pos 0 -ℤ pos i) remaining)
    ∙ balance (of_spec k desired) n
