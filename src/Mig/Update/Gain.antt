-- ===== src/Mig/Update/Gain.antt =====
-- What `provided` of UpdateGeometryFor in pkg/gpu/mig/gpu.go counts: the required devices that
-- become free when the candidate is applied.
use walkai_nos.Base.{
  ◌≡◌, refl, ◌∙◌, [], ◌∷◌, ℤ, pos, ◌+ℤ◌, ◌-ℤ◌, le_ℤ, min_ℤ, max_ℤ, arith, String_eq, -ℤ_parts,
  eq_of_parts, int_laws, if◌then◌else◌, ap, pos_part, neg_part,
}
use walkai_nos.GoMap.{GoMap, amount}
use walkai_nos.Geometry.{ProfileName, Slice, mig_profile, slicing_profile, Slice_eq, Geometry}
use walkai_nos.Mig.Gpu.{Gpu, get_geometry}
use walkai_nos.Mig.Gpu.Valid.{IsValid}
use walkai_nos.Mig.Gpu.Counts.{amount-get_geometry}
use walkai_nos.Mig.Gpu.Outcome.{Applies}
use walkai_nos.Mig.Update.{gain, provided_from}
use walkai_nos.Mig.Update.Choice.{gains}

-- How many more of `required` devices are met with `after` free ones than with `before`.
abbrev pub newly_met : ℤ → ℤ → ℤ → ℤ
newly_met required before after = max_ℤ (pos 0) (min_ℤ required after -ℤ min_ℤ required before)

newly_met_cases :
    (required before after additional : ℤ)
    → additional ≡ after -ℤ before
    → (if le_ℤ required before
        then pos 0
        else if le_ℤ additional (pos 0)
        then pos 0
        else min_ℤ additional (required -ℤ before))
      ≡ newly_met required before after
newly_met_cases r a b d e = ground (
  arith,
  ap pos_part e,
  ap neg_part e,
  -ℤ_parts b a,
  -ℤ_parts r a,
  -ℤ_parts r r,
  -ℤ_parts b r,
  eq_of_parts (r -ℤ r) (pos 0),
)

-- The sum over the required profiles, for the free devices of two GPUs.
unfoldable pub extra : Gpu → Gpu → GoMap Slice ℤ → ℤ
extra g g' [] = pos 0
extra g g' ((mig_profile p, q) ∷ rest) =
    newly_met q (amount p g.free_mig_devices) (amount p g'.free_mig_devices) +ℤ extra g g' rest
extra g g' ((slicing_profile p, q) ∷ rest) = extra g g' rest

gain-slicing :
    (g : Gpu) (current candidate : Geometry) (p : ProfileName) (q : ℤ)
    → gain g current candidate (slicing_profile p) q ≡ pos 0
unfolding gain
gain-slicing g current candidate p q = refl

module _ (g g' : Gpu) (candidate : Geometry) (v : IsValid g) (h : Applies g candidate g') where
  additional_free :
      (p : ProfileName)
      → amount (mig_profile p) candidate -ℤ amount (mig_profile p) (get_geometry g)
        ≡ amount p g'.free_mig_devices -ℤ amount p g.free_mig_devices
  additional_free p =
      rw
        (
          ← h.provides p,
          amount-get_geometry g p v.used_distinct v.free_distinct,
          amount-get_geometry g' p h.valid.used_distinct h.valid.free_distinct,
          h.used_kept,
        )
        (omega int_laws)

  gain-newly_met :
      (p : ProfileName) (q : ℤ)
      → gain g (get_geometry g) candidate (mig_profile p) q
        ≡ newly_met q (amount p g.free_mig_devices) (amount p g'.free_mig_devices)
  unfolding gain
  gain-newly_met p q = newly_met_cases q _ _ _ (additional_free p)

  provided_from-extra :
      (required : GoMap Slice ℤ) (acc : ℤ)
      → provided_from g (get_geometry g) candidate required acc ≡ acc +ℤ extra g g' required
  unfolding provided_from extra
  provided_from-extra [] acc = omega int_laws
  provided_from-extra ((mig_profile p, q) ∷ rest) acc =
      rw (gain-newly_met p q) (provided_from-extra rest _ ∙ omega int_laws)
  provided_from-extra ((slicing_profile p, q) ∷ rest) acc =
      rw (gain-slicing g (get_geometry g) candidate p q)
        (provided_from-extra rest (acc +ℤ pos 0) ∙ omega int_laws)

  -- The count by which candidates are compared is the number of required devices that applying the
  -- candidate newly makes free, summed over the required MIG profiles; it ignores other slices.
  pub gains-eq-extra : (required : GoMap Slice ℤ) → gains g required candidate ≡ extra g g' required
  gains-eq-extra required = provided_from-extra required (pos 0) ∙ omega int_laws
