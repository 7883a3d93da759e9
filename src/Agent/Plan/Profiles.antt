-- ===== src/Agent/Plan/Profiles.antt =====
-- What the plan of one GPU changes: the loop over its profiles, and the re-creation of free devices.
use walkai_nos.Base.{
  ◌≡◌, refl, subst, ◌∙◌, ap, Bool, true, false, List, [], ◌∷◌, Option, none, some, ℕ, if◌then◌else◌,
  ◌==◌, length, All, Bool-cases, inl, inr, ℤ, pos, ◌+ℤ◌, ◌-ℤ◌, ◌≤ℤ◌, int_laws, ltb, nat_eq,
}
use walkai_nos.GoMap.{GoMap, get?, Distinct}
use walkai_nos.GoMap.Groups.{list_at, group_by, group_by-Distinct, IsKeyed}
use walkai_nos.GoMap.Keyed.{length-group_by}
use walkai_nos.Mig.Profile.{Profile, Profile_eq}
use walkai_nos.Device.{Device, profile_of, group_devices_by_mig_profile}
use walkai_nos.Annotation.{SpecAnnotation}
use walkai_nos.Agent.Plan.{
  MigConfigPlan, add_delete_op, add_create_op, plan_profile, plan_profiles, add_recreate_ops,
  recreate_free, extract_resources_to_recreate,
}
use walkai_nos.Agent.Plan.Net.{
  net, change, of_profile, net-plan_profile, net-add_create_op, net-add_delete_op,
}

-- The change of a profile that the annotations ask for; nothing for a profile they do not name.
abbrev pub due : Option (List SpecAnnotation) → List Device → ℤ
due none actual = pos 0
due (some annotations) actual = change annotations actual

profiles_step :
    (z : ℤ) (b : Bool) (v : ℤ) (annotations : List SpecAnnotation)
    (o : Option (List SpecAnnotation)) (actual : List Device)
    → (b ≡ true → (o ≡ none) × (v ≡ change annotations actual))
    → (z +ℤ (if b then v else pos 0)) +ℤ due o actual
      ≡ z +ℤ due (if b then some annotations else o) actual
profiles_step z true v annotations o actual h =
    let (absent, value) = h refl in
    let last : (z +ℤ v) +ℤ pos 0 ≡ z +ℤ v = omega int_laws in
    ap (λ i. (z +ℤ v) +ℤ due i actual) absent ∙ last ∙ ap (λ i. z +ℤ i) value
profiles_step z false v annotations o actual h = omega int_laws

recreate_step :
    (z : ℤ) (b : Bool) (l : List Device) (o : Option (List Device))
    → (b ≡ true → o ≡ none)
    → (z +ℤ (if b then pos (length l) else pos 0))
        +ℤ pos (length (elim o as (λ _. List Device) [ none ↦ [] | some x ↦ x ]))
      ≡ z
        +ℤ pos (
            length
              (elim (if b then some l else o) as (λ _. List Device) [ none ↦ [] | some x ↦ x ]))
recreate_step z true l o h =
    let last : (z +ℤ pos (length l)) +ℤ pos 0 ≡ z +ℤ pos (length l) = omega int_laws in
    ap
      (λ i.
        (z +ℤ pos (length l))
        +ℤ pos (length (elim i as (λ _. List Device) [ none ↦ [] | some x ↦ x ])))
      (h refl)
    ∙ last
recreate_step z false l o h = omega int_laws

pub net-plan_profiles :
    (k : Profile) (gpu_state : GoMap Profile (List Device))
    (l : GoMap Profile (List SpecAnnotation)) (s : MigConfigPlan × ℕ)
    → IsKeyed profile_of gpu_state
    → Distinct l
    → All (λ e. All (λ a. pos 0 ≤ℤ a.quantity) e.1) l
    → net k (plan_profiles gpu_state l s).0 ≡ net k s.0 +ℤ due (get? k l) (list_at k gpu_state)
unfolding plan_profiles get?
net-plan_profiles k gpu_state [] s keyed d nonneg = omega int_laws
net-plan_profiles k gpu_state ((j, annotations) ∷ rest) s keyed d nonneg =
    net-plan_profiles k gpu_state rest (plan_profile gpu_state j annotations s) keyed d.1 nonneg.1
    ∙ ap (λ z. z +ℤ due (get? k rest) (list_at k gpu_state))
        (net-plan_profile k j gpu_state annotations s.0 s.1 keyed nonneg.0)
    ∙ profiles_step (net k s.0) (j == k) (change annotations (list_at j gpu_state)) annotations
        (get? k rest) (list_at k gpu_state)
        (λ hit.
          let same = (Profile_eq.same_iff j k).0 hit in
          (
            subst (λ i. get? i rest ≡ none) same d.0,
            ap (λ i. change annotations (list_at i gpu_state)) same,
          ))

net-add_recreate_ops :
    (k : Profile) (l : GoMap Profile (List Device)) (p : MigConfigPlan)
    → Distinct l
    → net k (add_recreate_ops l p) ≡ net k p +ℤ pos (length (list_at k l))
unfolding add_recreate_ops list_at get?
net-add_recreate_ops k [] p d = omega int_laws
net-add_recreate_ops k ((j, resources) ∷ rest) p d =
    net-add_recreate_ops k rest (add_create_op j (pos (length resources)) p) d.1
    ∙ ap (λ z. z +ℤ pos (length (list_at k rest)))
        (net-add_create_op k j (pos (length resources)) p)
    ∙ recreate_step (net k p) (j == k) resources (get? k rest)
        (λ hit. subst (λ i. get? i rest ≡ none) ((Profile_eq.same_iff j k).0 hit) d.0)

net-again :
    (k : Profile) (again : List Device) (p : MigConfigPlan)
    → net k (add_recreate_ops (group_by profile_of again) (add_delete_op again p)) ≡ net k p
net-again k again p =
    let back : net k p -ℤ pos (of_profile k again) +ℤ pos (of_profile k again) ≡ net k p =
      omega int_laws in
    net-add_recreate_ops k (group_by profile_of again) (add_delete_op again p)
      (group_by-Distinct profile_of again)
    ∙ ap (λ c. net k (add_delete_op again p) +ℤ pos c) (length-group_by profile_of k again)
    ∙ ap (λ z. z +ℤ pos (of_profile k again)) (net-add_delete_op k again p)
    ∙ back

-- Deleting free devices and creating as many again changes no profile.
pub net-recreate_free :
    (k : Profile) (resources : List Device) (p : MigConfigPlan) (n : ℕ)
    → net k (recreate_free resources (p, n)) ≡ net k p
unfolding recreate_free group_devices_by_mig_profile
net-recreate_free k resources p n =
    let again = extract_resources_to_recreate resources p in
    elim (Bool-cases (nat_eq n 0)) [
      | inl idle ↦ rw idle refl
      | inr busy ↦ elim (Bool-cases (ltb 0 (length again))) [
        | inr none_free ↦ rw (busy, none_free) refl
        | inl some_free ↦ rw (busy, some_free) (net-again k again p)
      ]
    ]
