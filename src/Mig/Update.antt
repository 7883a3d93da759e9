-- ===== src/Mig/Update.antt =====
-- UpdateGeometryFor of pkg/gpu/mig/gpu.go: the choice of the allowed geometry that provides most of
-- the required profiles.
pub mod Choice
pub mod Gain
pub mod Outcome
use walkai_nos.Base.{
  Bool, true, false, ◌&&◌, ◌||◌, not, Option, none, some, List, [], ◌∷◌, ℤ, pos, lt_ℤ, le_ℤ, eq_ℤ,
  min_ℤ, ◌+ℤ◌, ◌-ℤ◌, nat_eq, length, if◌then◌else◌, String_eq,
}
use walkai_nos.GoMap.{GoMap, amount}
use walkai_nos.Geometry.{ProfileName, Slice, mig_profile, as_mig, Slice_eq, Geometry}
use walkai_nos.Geometry.Compare.{MapCompare}
use walkai_nos.Mig.Gpu.{
  Gpu, Result, ok, err, get_geometry, get_allowed_geometries, can_apply_geometry, apply_geometry,
}

unfoldable pub none_positive : GoMap ProfileName ℤ → Bool
none_positive [] = true
none_positive ((profile, quantity) ∷ rest) =
    if lt_ℤ (pos 0) quantity then false else none_positive rest

unfoldable pub is_idle : Gpu → Bool
is_idle g = none_positive g.used_mig_devices && none_positive g.free_mig_devices

abbrev geometry_3211_40gb : Geometry
geometry_3211_40gb =
    (mig_profile "3g.20gb", pos 1)
    ∷ (mig_profile "2g.10gb", pos 1)
    ∷ (mig_profile "1g.5gb", pos 2)
    ∷ []

abbrev geometry_3211_80gb : Geometry
geometry_3211_80gb =
    (mig_profile "3g.40gb", pos 1)
    ∷ (mig_profile "2g.20gb", pos 1)
    ∷ (mig_profile "1g.10gb", pos 2)
    ∷ []

unfoldable pub agrees_with : Geometry → Geometry → Bool
agrees_with candidate [] = true
agrees_with candidate ((p, q) ∷ rest) = eq_ℤ (amount p candidate) q && agrees_with candidate rest

unfoldable pub is_busy_sensitive_3211_geometry : Geometry → Bool
unfolding agrees_with
is_busy_sensitive_3211_geometry candidate =
    (nat_eq (length candidate) 3 && agrees_with candidate geometry_3211_40gb)
    || (nat_eq (length candidate) 3 && agrees_with candidate geometry_3211_80gb)

-- What one required profile adds to `provided` in UpdateGeometryFor.
unfoldable pub gain : Gpu → Geometry → Geometry → Slice → ℤ → ℤ
gain g current candidate slice required = elim (as_mig slice) [
  | none ↦ pos 0
  | some profile ↦
      let free = amount profile g.free_mig_devices in
      let additional = amount slice candidate -ℤ amount slice current in
      if le_ℤ required free
      then pos 0
      else if le_ℤ additional (pos 0)
      then pos 0
      else min_ℤ additional (required -ℤ free)
]

unfoldable pub provided_from : Gpu → Geometry → Geometry → GoMap Slice ℤ → ℤ → ℤ
provided_from g current candidate [] provided = provided
provided_from g current candidate ((slice, required) ∷ rest) provided =
    provided_from g current candidate rest (provided +ℤ gain g current candidate slice required)

-- The best candidate so far, and what it provides.
abbrev pub Best : Type 0
Best = Option (Geometry × ℤ)

abbrev pub improve : Geometry → ℤ → Best → Best
improve candidate provided none = some (candidate, provided)
improve candidate provided (some (best, most)) =
    if lt_ℤ most provided then some (candidate, provided) else some (best, most)

module _ (cmp : MapCompare Slice) where
  -- The body of the loop over the candidates.
  unfoldable pub consider : Gpu → GoMap Slice ℤ → Geometry → Best → Best
  consider g required candidate best =
      if is_busy_sensitive_3211_geometry candidate && not (is_idle g)
      then best
      else elim (can_apply_geometry cmp g candidate) [
        | some _ ↦ best
        | none ↦
            let provided = provided_from g (get_geometry g) candidate required (pos 0) in
            if le_ℤ provided (pos 0) then best else improve candidate provided best
      ]

  unfoldable pub choose : Gpu → GoMap Slice ℤ → List Geometry → Best → Best
  choose g required [] best = best
  choose g required (candidate ∷ rest) best =
      choose g required rest (consider g required candidate best)

  abbrev or_unchanged : Gpu → Result Gpu → Gpu
  or_unchanged g (ok g') = g'
  or_unchanged g (err _) = g

  unfoldable pub update_geometry_for : Gpu → GoMap Slice ℤ → Gpu × Bool
  update_geometry_for g required = elim (choose g required (get_allowed_geometries g) none) [
    | none ↦ (g, false)
    | some (best, _) ↦
        if cmp.equal best (get_geometry g)
        then (g, false)
        else (or_unchanged g (apply_geometry cmp g best), true)
  ]
