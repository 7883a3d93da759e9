-- ===== src/Mig/Node/Release.antt =====
-- ReleaseProfiles of pkg/gpu/mig/node.go: a profile is released GPU by GPU.
use walkai_nos.Base.{
  String_eq, subst, if◌then◌else◌, refl, sym, ap, Bool, true, false, List, [], ◌∷◌, ℤ, pos, ◌≡◌,
  ◌∙◌, ◌==◌, ◌≤ℤ◌, arith, All, inl, inr, eq_ℤ, min_ℤ, ◌-ℤ◌, ◌+ℤ◌, int_laws, eq_ℤ_iff, Bool-cases,
}
use walkai_nos.GoMap.{get?, amount}
use walkai_nos.GoMap.Quantities.{amount-nil, amount-cons}
use walkai_nos.Geometry.{ProfileName}
use walkai_nos.Mig.Gpu.{Gpu}
use walkai_nos.Mig.Gpu.Valid.{IsValid}
use walkai_nos.Mig.Devices.{release_profiles}
use walkai_nos.Mig.Devices.Release.{release_profiles_outcomes}
use walkai_nos.Mig.Node.Totals.{
  used_on, used_nonneg, Moves, MovesOne, minus_none, plus_none, none-Moves, cons-Moves,
}
use walkai_nos.Mig.Node.{release_from}

less_if : (b : Bool) (a n t : ℤ) → t ≡ (if b then n else pos 0) → a -ℤ t ≡ (if b then a -ℤ n else a)
less_if true a n t h = ap (λ x. a -ℤ x) h
less_if false a n t h = ap (λ x. a -ℤ x) h ∙ omega int_laws

more_if : (b : Bool) (a n t : ℤ) → t ≡ (if b then n else pos 0) → a +ℤ t ≡ (if b then a +ℤ n else a)
more_if true a n t h = ap (λ x. a +ℤ x) h
more_if false a n t h = ap (λ x. a +ℤ x) h ∙ omega int_laws

one_released :
    (p : ProfileName) (q : ℤ) (g : Gpu)
    → IsValid g
    → pos 0 ≤ℤ q
    → q ≤ℤ amount p g.used_mig_devices
    → ((release_profiles ((p, q) ∷ []) g).1 ≡ true)
      × MovesOne p q g (release_profiles ((p, q) ∷ []) g).0
      × IsValid (release_profiles ((p, q) ∷ []) g).0
unfolding get?
one_released p q g v h enough =
    elim (release_profiles_outcomes ((p, q) ∷ []) g v (refl, tt) (h, tt)) [
      | inl (_, done, moved, valid) ↦ (
        done,
        λ r.
            let of_one = amount-cons p r q [] ∙ ap (λ t. if p == r then q else t) (amount-nil r) in
            (
              moved.used r
                  ∙ less_if (p == r) (amount r g.used_mig_devices) q (amount r ((p, q) ∷ []))
                      of_one,
              moved.free r
                  ∙ more_if (p == r) (amount r g.free_mig_devices) q (amount r ((p, q) ∷ []))
                      of_one,
            ),
        valid,
      )
      | inr (short, _) ↦ absurd (short (enough, tt))
    ]

-- What is left of `q` to release when `n` are used, and the parts of a sum that are released.
min_parts :
    (a q t : ℤ)
    → pos 0 ≤ℤ a
    → pos 0 ≤ℤ q
    → pos 0 ≤ℤ t
    → (pos 0 ≤ℤ min_ℤ a q)
      × (min_ℤ a q ≤ℤ a)
      × (pos 0 ≤ℤ (q -ℤ min_ℤ a q))
      × (min_ℤ a q +ℤ min_ℤ t (q -ℤ min_ℤ a q) ≡ min_ℤ (a +ℤ t) q)
unfolding ◌-ℤ◌ ◌+ℤ◌
min_parts a q t ha hq ht = (ground arith, ground arith, ground arith, ground arith)

-- A first GPU without used devices changes nothing, and one that has enough of them is the last.
min_none : (a q t : ℤ) → a ≡ pos 0 → min_ℤ t q ≡ min_ℤ (a +ℤ t) q
min_none a q t h =
    let nothing : t ≡ pos 0 +ℤ t = omega int_laws in
    ap (λ x. min_ℤ x q) (nothing ∙ ap (λ x. x +ℤ t) (sym h))

min_enough :
    (a q t : ℤ)
    → pos 0 ≤ℤ t
    → q -ℤ min_ℤ a q ≡ pos 0
    → (min_ℤ a q +ℤ pos 0 ≡ min_ℤ (a +ℤ t) q) × (q -ℤ min_ℤ a q ≡ q -ℤ min_ℤ (a +ℤ t) q)
unfolding ◌-ℤ◌ ◌+ℤ◌
min_enough a q t ht h = (ground (arith, h), ground (arith, h))

none_before : (a : ℤ) → pos 0 +ℤ a ≡ a
none_before a = omega int_laws

min_of_none : (q : ℤ) → pos 0 ≤ℤ q → min_ℤ (pos 0) q ≡ pos 0
min_of_none q h = ground arith

two_less : (q n k : ℤ) → q -ℤ n -ℤ k ≡ q -ℤ (n +ℤ k)
two_less q n k = omega int_laws

left_of_parts : (q n k m : ℤ) → n +ℤ k ≡ m → q -ℤ n -ℤ k ≡ q -ℤ m
left_of_parts q n k m h = two_less q n k ∙ ap (λ x. q -ℤ x) h

-- What the loop over the GPUs returns for `q` of a profile.
abbrev pub ReleasesFrom : ProfileName → ℤ → List Gpu → List Gpu × ℤ × Bool → Type 0
ReleasesFrom p q gpus r =
    (r.2 ≡ true)
    × (r.1 ≡ q -ℤ min_ℤ (used_on p gpus) q)
    × Moves p (min_ℤ (used_on p gpus) q) gpus r.0
    × All IsValid r.0

-- For a quantity that is not negative, the loop of ReleaseProfiles over valid GPUs goes on to the next
-- profile. Of the profile it moves as many devices as are used on all GPUs together, but no more than the
-- quantity, from used to free, and of no other profile any; the rest of the quantity remains, and the
-- GPUs stay valid.
pub release_from-ReleasesFrom :
    (p : ProfileName) (q : ℤ) (gpus : List Gpu)
    → All IsValid gpus
    → pos 0 ≤ℤ q
    → ReleasesFrom p q gpus (release_from p q gpus)
unfolding release_from
release_from-ReleasesFrom p q [] v h =
    let nothing = min_of_none q h in
    let same : q ≡ q -ℤ pos 0 = omega int_laws in
    (
      refl,
      same ∙ ap (λ t. q -ℤ t) (sym nothing),
      subst (λ t. Moves p t [] []) (sym nothing) (none-Moves p []),
      tt,
    )
release_from-ReleasesFrom p q (g ∷ rest) v h =
    let a = amount p g.used_mig_devices in
    let n = min_ℤ a q in
    let t = used_on p rest in
    let below = used_nonneg p rest v.1 in
    let (some_left, small, none_below, parts) = min_parts a q t (v.0.used_nonneg p) h below in
    let (done, one, valid) = one_released p n g v.0 some_left small in
    let skipped = release_from-ReleasesFrom p q rest v.1 h in
    let others = release_from-ReleasesFrom p (q -ℤ n) rest v.1 none_below in
    elim (Bool-cases (eq_ℤ a (pos 0))) [
      | inl e ↦
          let none_used = (eq_ℤ_iff a (pos 0)).0 e in
          let same = min_none a q t none_used in
          let whole : pos 0 +ℤ min_ℤ t q ≡ min_ℤ (a +ℤ t) q = none_before (min_ℤ t q) ∙ same in
          rw (e) (
            skipped.0,
            skipped.1 ∙ ap (λ x. q -ℤ x) same,
            cons-Moves p (pos 0) (min_ℤ t q) (min_ℤ (a +ℤ t) q) g g rest (release_from p q rest).0
                (λ r. (
                  minus_none (p == r) (amount r g.used_mig_devices),
                  plus_none (p == r) (amount r g.free_mig_devices),
                ))
                skipped.2 whole,
            (v.0, skipped.3),
          )
      | inr e ↦ elim (Bool-cases (eq_ℤ (q -ℤ n) (pos 0))) [
        | inl f ↦
            let (whole, left) = min_enough a q t below ((eq_ℤ_iff (q -ℤ n) (pos 0)).0 f) in
            rw (e, done, f)
              (
                refl,
                left,
                cons-Moves p n (pos 0) (min_ℤ (a +ℤ t) q) g (release_profiles ((p, n) ∷ []) g).0
                    rest rest one (none-Moves p rest) whole,
                (valid, v.1),
              )
        | inr f ↦
            rw (e, done, f)
              (
                others.0,
                others.1 ∙ left_of_parts q n (min_ℤ t (q -ℤ n)) (min_ℤ (a +ℤ t) q) parts,
                cons-Moves p n (min_ℤ t (q -ℤ n)) (min_ℤ (a +ℤ t) q) g
                    (release_profiles ((p, n) ∷ []) g).0 rest (release_from p (q -ℤ n) rest).0 one
                    others.2 parts,
                (valid, others.3),
              )
      ]
    ]
