-- ===== src/Mig/Devices/Release.antt =====
-- ReleaseProfiles of pkg/gpu/mig/gpu.go.
use walkai_nos.Base.{
  ◌≡◌, refl, true, false, [], ◌∷◌, ℤ, pos, ◌≤ℤ◌, ◌+ℤ◌, ◌-ℤ◌, arith, String_eq, +ℤ_parts, -ℤ_parts,
  eq_of_parts, int_laws, if◌then◌else◌, ◌==◌, Bool-cases, inl, inr, ◌⊎◌, All, ◌∙◌,
}
use walkai_nos.GoMap.{GoMap, amount, Distinct, sub_at, add_at}
use walkai_nos.GoMap.Quantities.{
  Nonneg-of_All, amount-nil, amount-cons, amount-none, amount-add_at, amount-sub_at,
  add_at-Distinct, sub_at-Distinct,
}
use walkai_nos.Geometry.{ProfileName}
use walkai_nos.Mig.Gpu.{Gpu}
use walkai_nos.Mig.Gpu.Valid.{IsValid}
use walkai_nos.Mig.Devices.{drop_zero, covers, give_back, release_profiles}
use walkai_nos.Mig.Devices.Moves.{amount-drop_zero, drop_zero-Distinct}

-- The profiles have moved from used to free.
pub record Released (profiles : GoMap ProfileName ℤ) (g g' : Gpu) : Type 0 where
  pub used :
      (p : ProfileName)
      → amount p g'.used_mig_devices ≡ amount p g.used_mig_devices -ℤ amount p profiles
  pub free :
      (p : ProfileName)
      → amount p g'.free_mig_devices ≡ amount p g.free_mig_devices +ℤ amount p profiles

abbrev give_one : ProfileName → ℤ → Gpu → Gpu
give_one r q g = record g {
  used_mig_devices = drop_zero r (sub_at r q g.used_mig_devices);
  free_mig_devices = add_at r q g.free_mig_devices;
}

used-give_one :
    (r p : ProfileName) (q : ℤ) (g : Gpu)
    → amount p (give_one r q g).used_mig_devices
      ≡ (if r == p then amount p g.used_mig_devices -ℤ q else amount p g.used_mig_devices)
used-give_one r p q g =
    amount-drop_zero r p (sub_at r q g.used_mig_devices) ∙ amount-sub_at r p q g.used_mig_devices

give_back-Released :
    (profiles : GoMap ProfileName ℤ) (g : Gpu)
    → Distinct profiles
    → Released profiles g (give_back profiles g)
unfolding give_back
give_back-Released [] g d = record {
  used = λ p. rw (amount-nil p) (omega int_laws);
  free = λ p. rw (amount-nil p) (omega int_laws);
}
give_back-Released ((r, q) ∷ rest) g d =
    let t = give_back-Released rest (give_one r q g) d.1 in
    record {
      used = λ p. ground (
        arith,
        t.used p,
        used-give_one r p q g,
        amount-cons r p q rest,
        amount-none r rest d.0,
        String_eq.same_iff r p,
        -ℤ_parts (amount p g.used_mig_devices -ℤ q) (pos 0),
        eq_of_parts (amount p g.used_mig_devices -ℤ q -ℤ pos 0) (amount p g.used_mig_devices -ℤ q),
      );
      free = λ p. ground (
        arith,
        t.free p,
        amount-add_at r p q g.free_mig_devices,
        amount-cons r p q rest,
        amount-none r rest d.0,
        String_eq.same_iff r p,
        +ℤ_parts (amount p g.free_mig_devices +ℤ q) (pos 0),
        eq_of_parts (amount p g.free_mig_devices +ℤ q +ℤ pos 0) (amount p g.free_mig_devices +ℤ q),
      );
    }

give_back-Distinct :
    (profiles : GoMap ProfileName ℤ) (g : Gpu)
    → Distinct g.used_mig_devices
    → Distinct g.free_mig_devices
    → Distinct (give_back profiles g).used_mig_devices
      × Distinct (give_back profiles g).free_mig_devices
unfolding give_back
give_back-Distinct [] g u f = (u, f)
give_back-Distinct ((r, q) ∷ rest) g u f =
    give_back-Distinct rest (give_one r q g)
      (drop_zero-Distinct r (sub_at r q g.used_mig_devices)
        (sub_at-Distinct r q g.used_mig_devices u))
      (add_at-Distinct r q g.free_mig_devices f)

-- The used devices cover the profiles.
abbrev pub Covered : GoMap ProfileName ℤ → Gpu → Type 0
Covered profiles g = All (λ e. e.1 ≤ℤ amount e.0 g.used_mig_devices) profiles

covers_sound :
    (profiles : GoMap ProfileName ℤ) (g : Gpu)
    → covers g.used_mig_devices profiles ≡ true
    → Covered profiles g
unfolding covers
covers_sound [] g h = tt
covers_sound ((r, q) ∷ rest) g h = (ground arith, covers_sound rest g (ground arith))

covers_complete :
    (profiles : GoMap ProfileName ℤ) (g : Gpu)
    → Covered profiles g
    → covers g.used_mig_devices profiles ≡ true
unfolding covers
covers_complete [] g h = refl
covers_complete ((r, q) ∷ rest) g h = ground (arith, h.0, covers_complete rest g h.1)

Covered-amount :
    (profiles : GoMap ProfileName ℤ) (g : Gpu) (p : ProfileName)
    → IsValid g
    → Covered profiles g
    → amount p profiles ≤ℤ amount p g.used_mig_devices
Covered-amount [] g p v h = rw (amount-nil p) (v.used_nonneg p)
Covered-amount ((r, q) ∷ rest) g p v h =
    ground (arith, amount-cons r p q rest, String_eq.same_iff r p, Covered-amount rest g p v h.1)

-- ReleaseProfiles is all or nothing, for profiles that are named once and are not negative: if the
-- used devices cover every profile they all move to free, and the GPU stays valid; otherwise the
-- GPU is unchanged and false is returned.
pub release_profiles_outcomes :
    (profiles : GoMap ProfileName ℤ) (g : Gpu)
    → IsValid g
    → Distinct profiles
    → All (λ e. pos 0 ≤ℤ e.1) profiles
    → (Covered profiles g
        × ((release_profiles profiles g).1 ≡ true)
        × Released profiles g (release_profiles profiles g).0
        × IsValid (release_profiles profiles g).0)
      ⊎ (¬ Covered profiles g × (release_profiles profiles g ≡ (g, false)))
unfolding release_profiles
release_profiles_outcomes profiles g v d nonneg =
    elim (Bool-cases (covers g.used_mig_devices profiles)) [
      | inl enough ↦
          let covered = covers_sound profiles g enough in
          let moved = give_back-Released profiles g d in
          let keys = give_back-Distinct profiles g v.used_distinct v.free_distinct in
          inl (
            covered,
            ground arith,
            rw enough moved,
            rw enough (record {
              used_distinct = keys.0;
              free_distinct = keys.1;
              used_nonneg = λ p. ground (
                arith,
                moved.used p,
                Covered-amount profiles g p v covered,
                -ℤ_parts (amount p g.used_mig_devices) (amount p profiles),
              );
              free_nonneg = λ p. ground (
                arith,
                moved.free p,
                v.free_nonneg p,
                Nonneg-of_All profiles nonneg p,
                +ℤ_parts (amount p g.free_mig_devices) (amount p profiles),
              );
            }),
          )
      | inr short ↦ inr ((λ covered. cc (short, covers_complete profiles g covered)), ground arith)
    ]
