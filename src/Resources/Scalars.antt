-- ===== src/Resources/Scalars.antt =====
-- The loops of pkg/resource/resource.go over the scalar resources.
use walkai_nos.Base.{
  none, some, ◌≡◌, refl, sym, ◌∙◌, List, [], ◌∷◌, ℤ, pos, max_ℤ, String_eq, ◌==◌, if◌then◌else◌,
  arith, ◌⊎◌, inl, inr, Bool-cases, ap, subst,
}
use walkai_nos.GoMap.{GoMap, get?, amount, Distinct}
use walkai_nos.Mig.Profile.{ResourceName}
use walkai_nos.Util.{get_keys}
use walkai_nos.Resources.{Resource, SameFields, ScalarSetter, set_scalars, clip_scalars}
use walkai_nos.Resources.Keys.{Among, get_keys-Among}

SameFields-trans : (a b c : Resource) → SameFields a b → SameFields b c → SameFields a c
SameFields-trans a b c h k = (h.0 ∙ k.0, h.1 ∙ k.1, h.2 ∙ k.2, h.3 ∙ k.3)

same_clip : (w v : ℤ) → some w ≡ some v → max_ℤ (pos 0) w ≡ max_ℤ (pos 0) v
same_clip w v h = ground arith

module _ (s : ScalarSetter) where
  amount-set_scalar :
      (r j : ResourceName) (q : ℤ) (res : Resource)
      → amount j (s.set_scalar r q res).scalar_resources
        ≡ (if r == j then q else amount j res.scalar_resources)
  unfolding amount
  amount-set_scalar r j q res = ground (arith, s.sets r j q res)

  pub set_scalars-SameFields :
      (f : ResourceName → ℤ) (l : List ResourceName) (res : Resource)
      → SameFields (set_scalars s f l res) res
  unfolding set_scalars
  set_scalars-SameFields f [] res = (refl, refl, refl, refl)
  set_scalars-SameFields f (r ∷ rest) res =
      let next = s.set_scalar r (f r) res in
      SameFields-trans (set_scalars s f rest next) next res (set_scalars-SameFields f rest next)
        (s.keeps_fields r (f r) res)

  pub set_scalars-Distinct :
      (f : ResourceName → ℤ) (l : List ResourceName) (res : Resource)
      → Distinct res.scalar_resources
      → Distinct (set_scalars s f l res).scalar_resources
  unfolding set_scalars
  set_scalars-Distinct f [] res d = d
  set_scalars-Distinct f (r ∷ rest) res d =
      set_scalars-Distinct f rest (s.set_scalar r (f r) res) (s.keeps-Distinct r (f r) res d)

  -- A key of the loop, or one with the right amount before it, has the right amount after it.
  amount-set_scalars :
      (f : ResourceName → ℤ) (j : ResourceName) (l : List ResourceName) (res : Resource)
      → Among j l ⊎ (amount j res.scalar_resources ≡ f j)
      → amount j (set_scalars s f l res).scalar_resources ≡ f j
  unfolding set_scalars
  amount-set_scalars f j [] res (inl h) = absurd h
  amount-set_scalars f j [] res (inr h) = h
  amount-set_scalars f j (r ∷ rest) res h =
      amount-set_scalars f j rest (s.set_scalar r (f r) res) (elim (Bool-cases (r == j)) [
        | inl hit ↦
            inr (amount-set_scalar r j (f r) res ∙ rw hit (ap f ((String_eq.same_iff r j).0 hit)))
        | inr miss ↦ elim h [
          | inl (inl now) ↦ absurd (ground (arith, String_eq.same_iff r j))
          | inl (inr later) ↦ inl later
          | inr before ↦ inr (amount-set_scalar r j (f r) res ∙ rw miss before)
        ]
      ])

  -- Over the keys of two maps, from no scalar: every name, also those of neither map.
  pub amount-set_keys :
      (f : ResourceName → ℤ) (a b : GoMap ResourceName ℤ) (j : ResourceName) (res : Resource)
      → res.scalar_resources ≡ []
      → ((get? j a ≡ none) → (get? j b ≡ none) → f j ≡ pos 0)
      → amount j (set_scalars s f (get_keys a b) res).scalar_resources ≡ f j
  unfolding amount get?
  amount-set_keys f a b j res empty h =
      amount-set_scalars f j (get_keys a b) res (elim (get_keys-Among j a b) [
        | inl (none_a, none_b) ↦ inr (rw empty (sym (h none_a none_b)))
        | inr found ↦ inl found
      ])

  pub clip_scalars-SameFields :
      (l : GoMap ResourceName ℤ) (res : Resource) → SameFields (clip_scalars s l res) res
  unfolding clip_scalars
  clip_scalars-SameFields [] res = (refl, refl, refl, refl)
  clip_scalars-SameFields ((r, v) ∷ rest) res =
      let next = s.set_scalar r (max_ℤ (pos 0) v) res in
      SameFields-trans (clip_scalars s rest next) next res (clip_scalars-SameFields rest next)
        (s.keeps_fields r (max_ℤ (pos 0) v) res)

  -- A key that the loop does not meet keeps its amount.
  pub clip_scalars-other :
      (l : GoMap ResourceName ℤ) (j : ResourceName) (res : Resource)
      → get? j l ≡ none
      → amount j (clip_scalars s l res).scalar_resources ≡ amount j res.scalar_resources
  unfolding clip_scalars get?
  clip_scalars-other [] j res h = refl
  clip_scalars-other ((r, v) ∷ rest) j res h = elim (Bool-cases (r == j)) [
    | inl hit ↦ absurd (ground (arith))
    | inr miss ↦
        clip_scalars-other rest j (s.set_scalar r (max_ℤ (pos 0) v) res) (ground arith)
        ∙ amount-set_scalar r j (max_ℤ (pos 0) v) res
        ∙ rw miss refl
  ]

  -- A key of the loop has its own amount, or 0 in place of a negative one.
  pub amount-clip_scalars :
      (l : GoMap ResourceName ℤ) (j : ResourceName) (v : ℤ) (res : Resource)
      → Distinct l
      → get? j l ≡ some v
      → amount j (clip_scalars s l res).scalar_resources ≡ max_ℤ (pos 0) v
  unfolding clip_scalars get?
  amount-clip_scalars [] j v res d h = absurd (ground arith)
  amount-clip_scalars ((r, w) ∷ rest) j v res d h =
      let next = s.set_scalar r (max_ℤ (pos 0) w) res in
      elim (Bool-cases (r == j)) [
        | inl hit ↦
            clip_scalars-other rest j next (ground (arith, d.0, String_eq.same_iff r j))
            ∙ amount-set_scalar r j (max_ℤ (pos 0) w) res
            ∙ rw hit
                (same_clip w v (subst (λ t. (if t then some w else get? j rest) ≡ some v) hit h))
        | inr miss ↦ amount-clip_scalars rest j v next d.1 (ground arith)
      ]
