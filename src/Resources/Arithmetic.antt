-- ===== src/Resources/Arithmetic.antt =====
-- Sum, Subtract and SubtractNonNegative of pkg/resource/resource.go against the arithmetic of every field.
use walkai_nos.Base.{
  ◌≡◌, refl, sym, ap, ◌∙◌, ℤ, pos, ◌-ℤ◌, max_ℤ, String_eq, int_laws, inl, inr, Option-cases,
}
use walkai_nos.GoMap.{get?, amount, Distinct}
use walkai_nos.GoMap.Quantities.{amount-none, amount-some}
use walkai_nos.Mig.Profile.{ResourceName}
use walkai_nos.Util.{get_keys}
use walkai_nos.Resources.{
  Resource, ScalarSetter, clip_scalars, subtract, subtract_non_negative, merge, merge_fields,
  clip_fields,
}
use walkai_nos.Resources.Scalars.{
  set_scalars-SameFields, set_scalars-Distinct, amount-set_keys, clip_scalars-SameFields,
  clip_scalars-other, amount-clip_scalars,
}

-- Every amount of `c` is the operation's result on those of `a` and `b`.
abbrev pub Fieldwise : (ℤ → ℤ → ℤ) → Resource → Resource → Resource → Type 0
Fieldwise op a b c =
    (c.milli_cpu ≡ op a.milli_cpu b.milli_cpu)
    × (c.memory ≡ op a.memory b.memory)
    × (c.ephemeral_storage ≡ op a.ephemeral_storage b.ephemeral_storage)
    × (c.allowed_pod_number ≡ op a.allowed_pod_number b.allowed_pod_number)
    × ((j : ResourceName)
        → amount j c.scalar_resources
          ≡ op (amount j a.scalar_resources) (amount j b.scalar_resources))

abbrev clip : ℤ → ℤ
clip v = max_ℤ (pos 0) v

module _ (s : ScalarSetter) where
  merge-Fieldwise :
      (op : ℤ → ℤ → ℤ)
      → op (pos 0) (pos 0) ≡ pos 0
      → (r1 r2 : Resource) → Fieldwise op r1 r2 (merge s op r1 r2)
  merge-Fieldwise op nothing r1 r2 =
      let f : ResourceName → ℤ =
        λ r. op (amount r r1.scalar_resources) (amount r r2.scalar_resources) in
      let names = get_keys r1.scalar_resources r2.scalar_resources in
      let kept = set_scalars-SameFields s f names (merge_fields op r1 r2) in
      (
        kept.0,
        kept.1,
        kept.2,
        kept.3,
        λ j.
            amount-set_keys s f r1.scalar_resources r2.scalar_resources j (merge_fields op r1 r2)
              refl
              (λ no_a no_b.
                rw (amount-none j r1.scalar_resources no_a, amount-none j r2.scalar_resources no_b)
                  nothing),
      )

  subtract-Fieldwise : (r1 r2 : Resource) → Fieldwise (λ x y. x -ℤ y) r1 r2 (subtract s r1 r2)
  unfolding subtract
  subtract-Fieldwise = merge-Fieldwise (λ x y. x -ℤ y) (omega int_laws)

  subtract-Distinct : (r1 r2 : Resource) → Distinct (subtract s r1 r2).scalar_resources
  unfolding subtract
  subtract-Distinct r1 r2 =
      set_scalars-Distinct s (λ r. amount r r1.scalar_resources -ℤ amount r r2.scalar_resources)
        (get_keys r1.scalar_resources r2.scalar_resources) (merge_fields (λ x y. x -ℤ y) r1 r2) tt

  -- Whether the loop meets the name or not.
  amount-clipped :
      (j : ResourceName) (res start : Resource)
      → start.scalar_resources ≡ res.scalar_resources
      → Distinct res.scalar_resources
      → amount j (clip_scalars s res.scalar_resources start).scalar_resources
        ≡ clip (amount j res.scalar_resources)
  amount-clipped j res start same d = elim (Option-cases (get? j res.scalar_resources)) [
    | inl missing ↦
        let zero_before = amount-none j res.scalar_resources missing in
        clip_scalars-other s res.scalar_resources j start missing
        ∙ ap (amount j) same
        ∙ zero_before
        ∙ ap clip (sym zero_before)
    | inr (v, found) ↦
        amount-clip_scalars s res.scalar_resources j v start d found
        ∙ ap clip (sym (amount-some j v res.scalar_resources found))
  ]

  -- Every field of the non-negative difference, and the amount of every scalar resource, where a
  -- missing one reads as 0, is the difference of the arguments', or 0 where that is negative.
  pub subtract_non_negative-Fieldwise :
      (r1 r2 : Resource)
      → Fieldwise (λ x y. max_ℤ (pos 0) (x -ℤ y)) r1 r2 (subtract_non_negative s r1 r2)
  unfolding subtract_non_negative
  subtract_non_negative-Fieldwise r1 r2 =
      let res = subtract s r1 r2 in
      let kept = clip_scalars-SameFields s res.scalar_resources (clip_fields res) in
      let exact = subtract-Fieldwise r1 r2 in
      (
        kept.0 ∙ ap clip exact.0,
        kept.1 ∙ ap clip exact.1,
        kept.2 ∙ ap clip exact.2,
        kept.3 ∙ ap clip exact.3,
        λ j.
            amount-clipped j res (clip_fields res) refl (subtract-Distinct r1 r2)
            ∙ ap clip (exact.4 j),
      )
