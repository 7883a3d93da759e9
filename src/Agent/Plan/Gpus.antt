-- ===== src/Agent/Plan/Gpus.antt =====
-- What the loop over the GPUs of the spec changes.
use walkai_nos.Base.{
  ◌≡◌, refl, sym, subst, ◌∙◌, ap, true, false, List, [], ◌∷◌, none, ℕ, arith, if◌then◌else◌, ◌==◌,
  length, All, Bool-cases, inl, inr, ◌⊎◌, ℤ, int_eq, pos, ◌+ℤ◌, ◌-ℤ◌, ◌≤ℤ◌, int_laws,
}
use walkai_nos.GoMap.{GoMap, get?, Distinct}
use walkai_nos.GoMap.Groups.{
  filter, list_at, list_at-none, list_at-cons, group_by, group_by-Distinct, IsKeyed,
}
use walkai_nos.GoMap.Every.{group_by-Every}
use walkai_nos.GoMap.Keyed.{length-group_by, group_by-IsKeyed, get?-group_by, as_group}
use walkai_nos.Mig.Profile.{Profile, Profile_eq}
use walkai_nos.Device.{Device, profile_of, group_devices_by_mig_profile}
use walkai_nos.Annotation.{SpecAnnotation, spec_profile, group_spec_annotations_by_mig_profile}
use walkai_nos.Agent.Plan.{MigConfigPlan, total_quantity, plan_profiles, plan_gpu, plan_gpus}
use walkai_nos.Agent.Plan.Net.{net, of_profile}
use walkai_nos.Agent.Plan.Profiles.{due, net-plan_profiles, net-recreate_free}

-- The annotations of one profile.
abbrev pub of_spec : Profile → List SpecAnnotation → List SpecAnnotation
of_spec k l = filter (λ a. spec_profile a == k) l

-- The change of a profile whose annotations are given, if it has any, for `n` devices.
abbrev pub owed : List SpecAnnotation → ℕ → ℤ
owed [] n = pos 0
owed (a ∷ rest) n = total_quantity (a ∷ rest) (pos 0) -ℤ pos n

due-owed :
    (l : List SpecAnnotation) (actual : List Device)
    → due (as_group l) actual ≡ owed l (length actual)
due-owed [] actual = refl
due-owed (a ∷ rest) actual = refl

pub net-plan_gpu :
    (k : Profile) (resources : List Device) (annotations : List SpecAnnotation) (p : MigConfigPlan)
    → All (λ a. pos 0 ≤ℤ a.quantity) annotations
    → net k (plan_gpu resources annotations p)
      ≡ net k p +ℤ owed (of_spec k annotations) (of_profile k resources)
unfolding plan_gpu group_devices_by_mig_profile group_spec_annotations_by_mig_profile
net-plan_gpu k resources annotations p nonneg =
    let by_profile = group_by profile_of resources in
    let wanted = group_by spec_profile annotations in
    let planned = plan_profiles by_profile wanted (p, 0) in
    net-recreate_free k resources planned.0 planned.1
    ∙ net-plan_profiles k by_profile wanted (p, 0) (group_by-IsKeyed profile_of resources)
        (group_by-Distinct spec_profile annotations)
        (group_by-Every (λ a. pos 0 ≤ℤ a.quantity) spec_profile annotations nonneg)
    ∙ ap (λ o. net k p +ℤ due o (list_at k by_profile)) (get?-group_by spec_profile k annotations)
    ∙ ap (λ i. net k p +ℤ i)
        (due-owed (of_spec k annotations) (list_at k by_profile)
          ∙ ap (owed (of_spec k annotations)) (length-group_by profile_of k resources))

pub no_spec :
    (k : Profile) (i : ℤ) (l : List SpecAnnotation)
    → All (λ a. a.index ≡ i) l
    → (i == k.gpu_index) ≡ false
    → of_spec k l ≡ []
unfolding filter
no_spec k i [] h ne = refl
no_spec k i (a ∷ rest) h ne = ground (arith, h.0, ne, no_spec k i rest h.1 ne)

owed_once :
    (z x w : ℤ) (l : List SpecAnnotation) (n : ℕ) → l ≡ [] → x ≡ w → z +ℤ x +ℤ owed l n ≡ z +ℤ w
owed_once z x w l n none_left same =
    let last : z +ℤ x +ℤ pos 0 ≡ z +ℤ x = omega int_laws in
    ap (λ i. z +ℤ x +ℤ owed i n) none_left ∙ last ∙ ap (λ i. z +ℤ i) same

owed_later : (z v : ℤ) (l : List SpecAnnotation) (n : ℕ) → l ≡ [] → z +ℤ owed l n +ℤ v ≡ z +ℤ v
owed_later z v l n none_here =
    let last : z +ℤ pos 0 +ℤ v ≡ z +ℤ v = omega int_laws in
    ap (λ i. z +ℤ owed i n +ℤ v) none_here ∙ last

-- The GPU of the profile decides, and only its annotations.
pub net-plan_gpus :
    (k : Profile) (by_gpu : GoMap ℤ (List Device)) (l : GoMap ℤ (List SpecAnnotation))
    (p : MigConfigPlan)
    → Distinct l
    → IsKeyed (λ a. a.index) l
    → All (λ e. All (λ a. pos 0 ≤ℤ a.quantity) e.1) l
    → net k (plan_gpus by_gpu l p)
      ≡ net k p
        +ℤ owed (of_spec k (list_at k.gpu_index l)) (of_profile k (list_at k.gpu_index by_gpu))
unfolding plan_gpus filter list_at get?
net-plan_gpus k by_gpu [] p d keyed nonneg = omega int_laws
net-plan_gpus k by_gpu ((i, annotations) ∷ rest) p d keyed nonneg =
    net-plan_gpus k by_gpu rest (plan_gpu (list_at i by_gpu) annotations p) d.1 keyed.1 nonneg.1
    ∙ ap
        (λ z.
          z
          +ℤ owed (of_spec k (list_at k.gpu_index rest))
              (of_profile k (list_at k.gpu_index by_gpu)))
        (net-plan_gpu k (list_at i by_gpu) annotations p nonneg.0)
    ∙ step (Bool-cases (i == k.gpu_index))
  where
    n : ℕ
    n = of_profile k (list_at k.gpu_index by_gpu)

    step :
        ((i == k.gpu_index) ≡ true) ⊎ ((i == k.gpu_index) ≡ false)
        → net k p
            +ℤ owed (of_spec k annotations) (of_profile k (list_at i by_gpu))
            +ℤ owed (of_spec k (list_at k.gpu_index rest)) n
          ≡ net k p +ℤ owed (of_spec k (list_at k.gpu_index ((i, annotations) ∷ rest))) n
    step (inl hit) =
        let same = (int_eq.same_iff i k.gpu_index).0 hit in
        owed_once (net k p) (owed (of_spec k annotations) (of_profile k (list_at i by_gpu)))
          (owed (of_spec k (list_at k.gpu_index ((i, annotations) ∷ rest))) n)
          (of_spec k (list_at k.gpu_index rest)) n
          (ap (of_spec k)
            (list_at-none k.gpu_index rest (subst (λ j. get? j rest ≡ none) same d.0)))
          (ap (λ j. owed (of_spec k annotations) (of_profile k (list_at j by_gpu))) same
            ∙ ap (λ l. owed (of_spec k l) n)
                (sym (
                  list_at-cons i k.gpu_index annotations rest
                  ∙ ap (λ b. if b then annotations else list_at k.gpu_index rest) hit)))
    step (inr miss) =
        owed_later (net k p) (owed (of_spec k (list_at k.gpu_index rest)) n) (of_spec k annotations)
          (of_profile k (list_at i by_gpu)) (no_spec k i annotations keyed.0 miss)
        ∙ ap (λ l. net k p +ℤ owed (of_spec k l) n)
            (sym (
              list_at-cons i k.gpu_index annotations rest
              ∙ ap (λ b. if b then annotations else list_at k.gpu_index rest) miss))
