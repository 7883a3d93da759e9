-- ===== src/Mig/Update/Choice.antt =====
-- UpdateGeometryFor of pkg/gpu/mig/gpu.go: the geometry that the loop chooses, and the update.
use walkai_nos.Base.{
  ◌≡◌, refl, ◌⊎◌, inl, inr, ◌∙◌, Bool, true, false, ◌&&◌, not, none, some, List, [], ◌∷◌, ℤ, pos,
  ◌≤ℤ◌, ◌<ℤ◌, arith, All, Any, Bool-cases, Option-cases, String_eq, lt_ℤ, le_ℤ, order_laws,
}
use walkai_nos.GoMap.{GoMap}
use walkai_nos.Geometry.{Slice, Slice_eq, Geometry}
use walkai_nos.Geometry.Compare.{MapCompare}
use walkai_nos.Mig.Gpu.{Gpu, Error, get_geometry, can_apply_geometry}
use walkai_nos.Mig.Update.{
  Best, improve, is_idle, is_busy_sensitive_3211_geometry, provided_from, consider, choose,
}

-- How many required devices a candidate adds.
abbrev pub gains : Gpu → GoMap Slice ℤ → Geometry → ℤ
gains g required candidate = provided_from g (get_geometry g) candidate required (pos 0)

abbrev pub level : Best → ℤ
level none = pos 0
level (some (_, most)) = most

module _ (cmp : MapCompare Slice) (g : Gpu) where
  -- A candidate that the loop does not skip.
  pub record Eligible (candidate : Geometry) : Type 0 where
    pub not_sensitive : (is_busy_sensitive_3211_geometry candidate && not (is_idle g)) ≡ false
    pub applicable : can_apply_geometry cmp g candidate ≡ none

module _ (cmp : MapCompare Slice) (g : Gpu) (required : GoMap Slice ℤ) where
  abbrev pub Origin : List Geometry → Best → Best → Type 0
  Origin candidates before after =
      (after ≡ before)
      ⊎ ((best : Geometry) × (after ≡ some (best, gains g required best))
          × Any (λ c. c ≡ best) candidates
          × Eligible cmp g best
          × (pos 0 <ℤ gains g required best))

  -- The choice among some candidates, from the best before them.
  pub record Chosen (candidates : List Geometry) (before after : Best) : Type 0 where
    pub origin : Origin candidates before after
    pub rises : level before ≤ℤ level after
    pub beats : All (λ c. Eligible cmp g c → gains g required c ≤ℤ level after) candidates

  stays :
      (c : Geometry) (before : Best)
      → (Eligible cmp g c → gains g required c ≤ℤ level before)
      → Chosen (c ∷ []) before before
  stays c before h = record { origin = inl refl; rises = omega arith; beats = (h, tt) }

  improve-Chosen :
      (c : Geometry) (before : Best)
      → Eligible cmp g c
      → pos 0 <ℤ gains g required c
      → Chosen (c ∷ []) before (improve c (gains g required c) before)
  improve-Chosen c none e h = record {
    origin = inr (c, refl, inl refl, e, h);
    rises = omega arith;
    beats = (λ _. omega arith, tt);
  }
  improve-Chosen c (some (best, most)) e h = elim (Bool-cases (lt_ℤ most (gains g required c))) [
    | inl more ↦ rw more (record {
      origin = inr (c, refl, inl refl, e, h);
      rises = omega order_laws;
      beats = (λ _. omega arith, tt);
    })
    | inr less ↦ rw less (stays c (some (best, most)) (λ _. omega order_laws))
  ]

  consider-Chosen :
      (c : Geometry) (before : Best)
      → pos 0 ≤ℤ level before
      → Chosen (c ∷ []) before (consider cmp g required c before)
  unfolding consider
  consider-Chosen c before h =
      tests (Bool-cases (is_busy_sensitive_3211_geometry c && not (is_idle g)))
        (Option-cases (can_apply_geometry cmp g c)) (Bool-cases (le_ℤ (gains g required c) (pos 0)))
    where
      skips : Bool
      skips = is_busy_sensitive_3211_geometry c && not (is_idle g)

      tests :
          (skips ≡ true) ⊎ (skips ≡ false)
          → (can_apply_geometry cmp g c ≡ none)
            ⊎ ((e : Error) × (can_apply_geometry cmp g c ≡ some e))
          → (le_ℤ (gains g required c) (pos 0) ≡ true) ⊎ (le_ℤ (gains g required c) (pos 0) ≡ false)
          → Chosen (c ∷ []) before (consider cmp g required c before)
      tests (inl skipped) _ _ =
          rw (skipped, consider) (stays c before (λ e. cc (skipped, e.not_sensitive)))
      tests (inr open') (inr (e, refused)) _ =
          rw (open', refused, consider) (stays c before (λ i. cc (refused, i.applicable)))
      tests (inr open') (inl accepted) (inl useless) =
          rw (open', accepted, useless, consider) (stays c before (λ _. omega order_laws))
      tests (inr open') (inl accepted) (inr useful) =
          rw (open', accepted, useful, consider)
            (improve-Chosen c before (record { not_sensitive = open'; applicable = accepted })
              (omega order_laws))

  join_origins :
      (c : Geometry) (rest : List Geometry) (a b d : Best)
      → Origin (c ∷ []) a b
      → Origin rest b d
      → Origin (c ∷ rest) a d
  join_origins c rest a b d first (inr (best, e, any, el, h)) = inr (best, e, inr any, el, h)
  join_origins c rest a b d (inl p) (inl q) = inl (q ∙ p)
  join_origins c rest a b d (inr (best, e, inl here, el, h)) (inl q) =
      inr (best, q ∙ e, inl here, el, h)
  join_origins c rest a b d (inr (best, e, inr never, el, h)) (inl q) = absurd never

  pub choose-Chosen :
      (candidates : List Geometry) (before : Best)
      → pos 0 ≤ℤ level before
      → Chosen candidates before (choose cmp g required candidates before)
  unfolding choose
  choose-Chosen [] before h = record { origin = inl refl; rises = omega arith; beats = tt }
  choose-Chosen (c ∷ rest) before h =
      let next = consider cmp g required c before in
      let first = consider-Chosen c before h in
      let later = choose-Chosen rest next (omega (arith, first.rises)) in
      record {
        origin = join_origins c rest before next _ first.origin later.origin;
        rises = omega (arith, first.rises, later.rises);
        beats = (λ e. omega (arith, first.beats.0 e, later.rises), later.beats);
      }
