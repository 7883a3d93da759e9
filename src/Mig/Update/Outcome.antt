-- ===== src/Mig/Update/Outcome.antt =====
-- UpdateGeometryFor of pkg/gpu/mig/gpu.go, seen from outside.
use walkai_nos.Base.{
  ◌≡◌, refl, ◌⊎◌, inl, inr, true, false, none, some, List, [], ◌∷◌, ℤ, pos, ◌≤ℤ◌, ◌<ℤ◌, arith, All,
  Any, Bool-cases, subst, sym, ◌∙◌, String_eq,
}
use walkai_nos.GoMap.{GoMap, Distinct}
use walkai_nos.GoMap.Quantities.{Nonneg}
use walkai_nos.Geometry.{Slice, Slice_eq, Geometry}
use walkai_nos.Geometry.Compare.{MapCompare, SameEntries}
use walkai_nos.Mig.Gpu.{Gpu, get_geometry}
use walkai_nos.Mig.Gpu.Valid.{IsValid}
use walkai_nos.Mig.Gpu.Outcome.{Applies, apply_geometry_accepted}
use walkai_nos.Mig.Update.{Best, choose, update_geometry_for}
use walkai_nos.Mig.Update.Choice.{gains, Eligible, Chosen, choose-Chosen}

-- A geometry as known_configs.go accepts them: each slice once, with no negative quantity.
abbrev pub IsWellFormed : Geometry → Type 0
IsWellFormed geometry = Distinct geometry × Nonneg geometry

IsWellFormed-of_Any :
    (allowed : List Geometry) (best : Geometry)
    → All IsWellFormed allowed
    → Any (λ c. c ≡ best) allowed
    → IsWellFormed best
IsWellFormed-of_Any [] best h any = absurd any
IsWellFormed-of_Any (c ∷ rest) best h (inl here) = subst IsWellFormed here h.0
IsWellFormed-of_Any (c ∷ rest) best h (inr later) = IsWellFormed-of_Any rest best h.1 later

module _ (cmp : MapCompare Slice) (g : Gpu) (required : GoMap Slice ℤ) where
  -- The geometry that the update takes, and the GPU after it.
  pub record Updated (g' : Gpu) : Type 0 where
    pub best : Geometry
    pub is_allowed : Any (λ c. c ≡ best) g.allowed_mig_geometries
    pub eligible : Eligible cmp g best
    pub useful : pos 0 <ℤ gains g required best
    pub most :
        All
          (λ c. Eligible cmp g c → gains g required c ≤ℤ gains g required best)
          g.allowed_mig_geometries
    pub differs : ¬ SameEntries best (get_geometry g)
    pub applied : Applies g best g'

  abbrev pub UpdateOutcomes : Type 0
  UpdateOutcomes =
      ((update_geometry_for cmp g required ≡ (g, false))
        × (All (λ c. Eligible cmp g c → gains g required c ≤ℤ pos 0) g.allowed_mig_geometries
            ⊎ Any (λ c. SameEntries c (get_geometry g)) g.allowed_mig_geometries))
      ⊎ ((g' : Gpu) × (update_geometry_for cmp g required ≡ (g', true)) × Updated g')

  Any-same :
      (best : Geometry) (allowed : List Geometry)
      → SameEntries best (get_geometry g)
      → Any (λ c. c ≡ best) allowed
      → Any (λ c. SameEntries c (get_geometry g)) allowed
  Any-same best [] same any = any
  Any-same best (c ∷ rest) same (inl here) =
      inl (subst (λ x. SameEntries x (get_geometry g)) (sym here) same)
  Any-same best (c ∷ rest) same (inr later) = inr (Any-same best rest same later)

  settle :
      IsValid g
      → All IsWellFormed g.allowed_mig_geometries
      → (best : Geometry)
      → choose cmp g required g.allowed_mig_geometries none ≡ some (best, gains g required best)
      → Chosen cmp g required g.allowed_mig_geometries none (some (best, gains g required best))
      → Any (λ c. c ≡ best) g.allowed_mig_geometries
      → Eligible cmp g best
      → pos 0 <ℤ gains g required best
      → UpdateOutcomes
  unfolding update_geometry_for
  settle v wf best e c any el useful = elim (Bool-cases (cmp.equal best (get_geometry g))) [
    | inl same ↦
        inl (
          ground arith,
          inr (Any-same best g.allowed_mig_geometries (cmp.equal_sound _ _ same) any),
        )
    | inr other ↦
        let fine = IsWellFormed-of_Any g.allowed_mig_geometries best wf any in
        let (g', done, applies) =
          apply_geometry_accepted cmp g best v fine.0 fine.1 el.applicable in
        inr (
          g',
          ground arith,
          record {
            best = best;
            is_allowed = any;
            eligible = el;
            useful = useful;
            most = c.beats;
            differs = λ same. cc (other, cmp.equal_complete best (get_geometry g) same);
            applied = applies;
          },
        )
  ]

  -- On a valid GPU whose allowed geometries are well formed, either nothing changes and false is
  -- returned, because no eligible candidate adds a required device or because an allowed geometry
  -- is in place already; or the GPU gets, with true, an allowed eligible geometry that adds as many
  -- required devices as any, keeps the used devices and leaves the GPU valid.
  pub update_geometry_for_outcomes :
      IsValid g → All IsWellFormed g.allowed_mig_geometries → UpdateOutcomes
  unfolding update_geometry_for
  update_geometry_for_outcomes v wf = decide (choose cmp g required allowed none) refl chosen
    where
      allowed : List Geometry
      allowed = g.allowed_mig_geometries

      chosen : Chosen cmp g required allowed none (choose cmp g required allowed none)
      chosen = choose-Chosen cmp g required allowed none (omega arith)

      decide :
          (b : Best)
          → choose cmp g required allowed none ≡ b
          → Chosen cmp g required allowed none b
          → UpdateOutcomes
      decide none e c = inl (ground arith, inl c.beats)
      decide (some (best, most)) e c = elim c.origin [
        | inl p ↦ cc
        | inr (b, p, any, el, useful) ↦
            settle v wf b (e ∙ p) (subst (Chosen cmp g required allowed none) p c) any el useful
      ]
