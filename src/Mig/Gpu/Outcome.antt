-- ===== src/Mig/Gpu/Outcome.antt =====
-- ApplyGeometry and CanApplyGeometry of pkg/gpu/mig/gpu.go, seen from outside: when they accept a
-- geometry, and what the GPU provides afterwards.
use walkai_nos.Base.{
  ◌≡◌, refl, ◌∙◌, ◌↔◌, true, false, none, some, [], ◌∷◌, List, ℤ, pos, ◌≤ℤ◌, ◌-ℤ◌, arith, ◌⊎◌,
  String_eq, eq_of_parts, -ℤ_parts, int_laws, inl, inr, Option-cases, Bool-cases, Any,
}
use walkai_nos.GoMap.{get?, amount, Distinct}
use walkai_nos.GoMap.Quantities.{Nonneg, amount_by_cases, amount-none, amount-some}
use walkai_nos.Geometry.{ProfileName, Slice, mig_profile, Slice_eq, Geometry}
use walkai_nos.Geometry.Compare.{MapCompare, SameEntries}
use walkai_nos.Mig.Gpu.{
  Gpu, geometry_not_allowed, deletes_used_devices, ok, err, get_geometry, deletes_used,
  replace_free, can_apply_geometry, allows_geometry, allowed_in, apply_geometry,
}
use walkai_nos.Mig.Gpu.Valid.{IsValid}
use walkai_nos.Mig.Gpu.Counts.{amount-get_geometry}
use walkai_nos.Mig.Gpu.Apply.{
  get?-replace_free, deletes_used_sound, deletes_used_complete, replace_free-Distinct,
}

-- The used devices fit in the geometry.
abbrev pub KeepsUsed : Gpu → Geometry → Type 0
KeepsUsed g geometry =
    (p : ProfileName) → amount p g.used_mig_devices ≤ℤ amount (mig_profile p) geometry

deletes_used-KeepsUsed :
    (g : Gpu) (geometry : Geometry)
    → Nonneg geometry
    → deletes_used geometry g.used_mig_devices ≡ false
    → KeepsUsed g geometry
deletes_used-KeepsUsed g geometry nonneg h p = elim (Option-cases (get? p g.used_mig_devices)) [
  | inl absent ↦ rw (amount-none p g.used_mig_devices absent) (nonneg (mig_profile p))
  | inr (q, found) ↦
      rw (amount-some p q g.used_mig_devices found)
        (deletes_used_sound geometry g.used_mig_devices p q h found)
]

KeepsUsed-deletes_used :
    (g : Gpu) (geometry : Geometry)
    → Distinct g.used_mig_devices
    → KeepsUsed g geometry
    → deletes_used geometry g.used_mig_devices ≡ false
KeepsUsed-deletes_used g geometry d h =
    deletes_used_complete geometry g.used_mig_devices d (λ p q found. fits p q found)
  where
    fits :
        (p : ProfileName) (q : ℤ)
        → get? p g.used_mig_devices ≡ some q
        → q ≤ℤ amount (mig_profile p) geometry
    fits p q found = ground (arith, h p, amount-some p q g.used_mig_devices found)

amount-replace_free :
    (g : Gpu) (geometry : Geometry) (p : ProfileName)
    → Distinct geometry
    → Nonneg g.used_mig_devices
    → KeepsUsed g geometry
    → amount p (replace_free g geometry)
      ≡ amount (mig_profile p) geometry -ℤ amount p g.used_mig_devices
amount-replace_free g geometry p d nonneg keeps = ground (
  arith,
  get?-replace_free g geometry p d,
  amount_by_cases p (replace_free g geometry),
  amount_by_cases (mig_profile p) geometry,
  keeps p,
  nonneg p,
  -ℤ_parts (pos 0) (amount p g.used_mig_devices),
  eq_of_parts (pos 0) (pos 0 -ℤ amount p g.used_mig_devices),
)

-- What ApplyGeometry promises on success.
pub record Applies (g : Gpu) (geometry : Geometry) (g' : Gpu) : Type 0 where
  pub provides :
      (p : ProfileName) → amount (mig_profile p) (get_geometry g') ≡ amount (mig_profile p) geometry
  pub used_kept : g'.used_mig_devices ≡ g.used_mig_devices
  pub allowed_kept : g'.allowed_mig_geometries ≡ g.allowed_mig_geometries
  pub valid : IsValid g'

replaced-IsValid :
    (g : Gpu) (geometry : Geometry)
    → IsValid g
    → Distinct geometry
    → KeepsUsed g geometry
    → IsValid (record g { free_mig_devices = replace_free g geometry })
replaced-IsValid g geometry v d keeps = record {
  used_distinct = v.used_distinct;
  free_distinct = replace_free-Distinct g geometry v.free_distinct;
  used_nonneg = v.used_nonneg;
  free_nonneg = λ p. rw (amount-replace_free g geometry p d v.used_nonneg keeps) (
      ground
        (arith, keeps p, -ℤ_parts (amount (mig_profile p) geometry) (amount p g.used_mig_devices)));
}

replaced_provides :
    (g : Gpu) (geometry : Geometry) (p : ProfileName)
    → IsValid g
    → Distinct geometry
    → KeepsUsed g geometry
    → amount
        (mig_profile p)
        (get_geometry (record g { free_mig_devices = replace_free g geometry }))
      ≡ amount (mig_profile p) geometry
replaced_provides g geometry p v d keeps =
    amount-get_geometry (record g { free_mig_devices = replace_free g geometry }) p v.used_distinct
      (replace_free-Distinct g geometry v.free_distinct)
    ∙ rw (amount-replace_free g geometry p d v.used_nonneg keeps) (omega int_laws)

module _ (cmp : MapCompare Slice) where
  allowed_in_sound :
      (geometry : Geometry) (allowed : List Geometry)
      → allowed_in cmp geometry allowed ≡ true
      → Any (SameEntries geometry) allowed
  unfolding allowed_in
  allowed_in_sound geometry [] h = cc
  allowed_in_sound geometry (a ∷ rest) h = elim (Bool-cases (cmp.equal geometry a)) [
    | inl same ↦ inl (cmp.equal_sound geometry a same)
    | inr other ↦ inr (allowed_in_sound geometry rest (ground arith))
  ]

  allowed_in_complete :
      (geometry : Geometry) (allowed : List Geometry)
      → Any (SameEntries geometry) allowed
      → allowed_in cmp geometry allowed ≡ true
  unfolding allowed_in
  allowed_in_complete geometry [] h = elim h [ ]
  allowed_in_complete geometry (a ∷ rest) (inl same) = rw (cmp.equal_complete geometry a same)
  allowed_in_complete geometry (a ∷ rest) (inr later) =
      ground (arith, allowed_in_complete geometry rest later)

  -- CanApplyGeometry accepts exactly the geometries that have the entries of an allowed one and
  -- keep every used device, on a valid GPU and for a geometry with no negative quantity.
  pub can_apply_geometry_iff :
      (g : Gpu) (geometry : Geometry)
      → IsValid g
      → Nonneg geometry
      → (can_apply_geometry cmp g geometry ≡ none)
        ↔ (Any (SameEntries geometry) g.allowed_mig_geometries × KeepsUsed g geometry)
  unfolding can_apply_geometry allows_geometry
  can_apply_geometry_iff g geometry v nonneg = (accepted, accepts)
    where
      accepted :
          can_apply_geometry cmp g geometry ≡ none
          → Any (SameEntries geometry) g.allowed_mig_geometries × KeepsUsed g geometry
      accepted h = (
        allowed_in_sound geometry g.allowed_mig_geometries (ground arith),
        deletes_used-KeepsUsed g geometry nonneg (ground arith),
      )

      accepts :
          Any (SameEntries geometry) g.allowed_mig_geometries × KeepsUsed g geometry
          → can_apply_geometry cmp g geometry ≡ none
      accepts h = ground (
        arith,
        allowed_in_complete geometry g.allowed_mig_geometries h.0,
        KeepsUsed-deletes_used g geometry v.used_distinct h.1,
      )

  pub apply_geometry_accepted :
      (g : Gpu) (geometry : Geometry)
      → IsValid g
      → Distinct geometry
      → Nonneg geometry
      → can_apply_geometry cmp g geometry ≡ none
      → (g' : Gpu) × (apply_geometry cmp g geometry ≡ ok g') × Applies g geometry g'
  unfolding apply_geometry
  apply_geometry_accepted g geometry v d nonneg h =
      let keeps = ((can_apply_geometry_iff g geometry v nonneg).0 h).1 in
      (
        record g { free_mig_devices = replace_free g geometry },
        ground arith,
        record {
          provides = λ p. replaced_provides g geometry p v d keeps;
          used_kept = refl;
          allowed_kept = refl;
          valid = replaced-IsValid g geometry v d keeps;
        },
      )

  -- ApplyGeometry has three outcomes on a valid GPU: it makes the GPU provide an allowed geometry
  -- that keeps the used devices, it refuses a geometry that is not allowed, and it refuses one that
  -- has too few of a profile in use.
  abbrev pub Outcomes : Gpu → Geometry → Type 0
  Outcomes g geometry =
      (Any (SameEntries geometry) g.allowed_mig_geometries
        × KeepsUsed g geometry
        × ((g' : Gpu) × (apply_geometry cmp g geometry ≡ ok g') × Applies g geometry g'))
      ⊎ (¬ Any (SameEntries geometry) g.allowed_mig_geometries
          × (apply_geometry cmp g geometry ≡ err geometry_not_allowed))
      ⊎ (Any (SameEntries geometry) g.allowed_mig_geometries
          × ¬ KeepsUsed g geometry
          × (apply_geometry cmp g geometry ≡ err deletes_used_devices))

  pub apply_geometry-Outcomes :
      (g : Gpu) (geometry : Geometry)
      → IsValid g
      → Distinct geometry
      → Nonneg geometry
      → Outcomes g geometry
  unfolding apply_geometry can_apply_geometry allows_geometry
  apply_geometry-Outcomes g geometry v d nonneg =
      cases (Bool-cases (allowed_in cmp geometry g.allowed_mig_geometries))
        (Bool-cases (deletes_used geometry g.used_mig_devices))
    where
      cases :
          (allowed_in cmp geometry g.allowed_mig_geometries ≡ true)
            ⊎ (allowed_in cmp geometry g.allowed_mig_geometries ≡ false)
          → (deletes_used geometry g.used_mig_devices ≡ true)
            ⊎ (deletes_used geometry g.used_mig_devices ≡ false)
          → Outcomes g geometry
      cases (inr refused) _ = inr (
          inl (
            λ any. cc (refused, allowed_in_complete geometry g.allowed_mig_geometries any),
            ground arith,
          ))
      cases (inl allowed) (inl deletes) = inr (
          inr (
            allowed_in_sound geometry g.allowed_mig_geometries allowed,
            λ keeps. cc (deletes, KeepsUsed-deletes_used g geometry v.used_distinct keeps),
            ground arith,
          ))
      cases (inl allowed) (inr keeps) = inl (
        allowed_in_sound geometry g.allowed_mig_geometries allowed,
        deletes_used-KeepsUsed g geometry nonneg keeps,
        apply_geometry_accepted g geometry v d nonneg (ground arith),
      )
