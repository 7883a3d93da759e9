-- ===== src/Mig/Node/ReleaseAll.antt =====
-- ReleaseProfiles of pkg/gpu/mig/node.go: profile by profile over all GPUs of a node.
use walkai_nos.Base.{
  ◌≡◌, refl, sym, ap, subst, ◌∙◌, Bool, true, false, none, List, [], ◌∷◌, String_eq, ℤ, pos, ◌≤ℤ◌,
  ◌<ℤ◌, ◌+ℤ◌, ◌-ℤ◌, min_ℤ, lt_ℤ, le_ℤ, le_ℤ→le, le_ℤ→gt, int_laws, ◌==◌, if◌then◌else◌, All, ◌⊎◌,
  inl, inr, Bool-cases, arith,
}
use walkai_nos.GoMap.{GoMap, get?, amount, Distinct}
use walkai_nos.GoMap.Quantities.{amount-nil, amount-cons, amount-none}
use walkai_nos.Geometry.{ProfileName}
use walkai_nos.Mig.Gpu.{Gpu}
use walkai_nos.Mig.Gpu.Valid.{IsValid}
use walkai_nos.Mig.Node.{release_from, release_all}
use walkai_nos.Mig.Node.Totals.{used_on, free_on, Moves}
use walkai_nos.Mig.Node.Release.{release_from-ReleasesFrom}

-- Of every profile, as many devices as the profiles say have moved from used to free, on all GPUs together.
abbrev pub AllMoved : GoMap ProfileName ℤ → List Gpu → List Gpu → Type 0
AllMoved profiles gpus gpus' =
    (r : ProfileName)
    → (used_on r gpus' ≡ used_on r gpus -ℤ amount r profiles)
      × (free_on r gpus' ≡ free_on r gpus +ℤ amount r profiles)

-- The GPUs together have as many used devices of each of the profiles.
abbrev pub UsedOnNode : GoMap ProfileName ℤ → List Gpu → Type 0
UsedOnNode profiles gpus = All (λ e. e.1 ≤ℤ used_on e.0 gpus) profiles

-- Two lists of GPUs with as many used devices of every profile but one.
abbrev SameButFor : ProfileName → List Gpu → List Gpu → Type 0
SameButFor p gpus gpus' = (r : ProfileName) → (p == r) ≡ false → used_on r gpus ≡ used_on r gpus'

used_by_others :
    (p : ProfileName) (profiles : GoMap ProfileName ℤ) (gpus gpus' : List Gpu)
    → SameButFor p gpus gpus'
    → get? p profiles ≡ none
    → UsedOnNode profiles gpus
    → UsedOnNode profiles gpus'
unfolding get?
used_by_others p [] gpus gpus' same n h = tt
used_by_others p ((r, q) ∷ rest) gpus gpus' same n h = elim (Bool-cases (r == p)) [
  | inl hit ↦ absurd (ground (arith, n, hit))
  | inr miss ↦ (
    subst (λ t. q ≤ℤ t)
        (same r (ground (arith, miss, String_eq.same_iff r p, String_eq.same_iff p r))) h.0,
    used_by_others p rest gpus gpus' same (ground (arith, n, miss)) h.1,
  )
]

min_fits : (u q : ℤ) → q ≤ℤ u → (min_ℤ u q ≡ q) × (lt_ℤ (pos 0) (q -ℤ min_ℤ u q) ≡ false)
unfolding ◌-ℤ◌
min_fits u q h = (ground (arith, h), ground (arith, h))

min_short : (u q : ℤ) → u <ℤ q → lt_ℤ (pos 0) (q -ℤ min_ℤ u q) ≡ true
unfolding ◌-ℤ◌
min_short u q h = ground (arith, h)

less_both :
    (b : Bool) (u v w q k t : ℤ)
    → v ≡ (if b then u -ℤ q else u)
    → w ≡ v -ℤ k
    → t ≡ (if b then q else k)
    → (b ≡ true → k ≡ pos 0)
    → w ≡ u -ℤ t
less_both true u v w q k t h j e z = rw (j, h, e, z refl) (omega int_laws)
less_both false u v w q k t h j e z = rw (j, h, e) refl

more_both :
    (b : Bool) (u v w q k t : ℤ)
    → v ≡ (if b then u +ℤ q else u)
    → w ≡ v +ℤ k
    → t ≡ (if b then q else k)
    → (b ≡ true → k ≡ pos 0)
    → w ≡ u +ℤ t
more_both true u v w q k t h j e z = rw (j, h, e, z refl) (omega int_laws)
more_both false u v w q k t h j e z = rw (j, h, e) refl

cons-AllMoved :
    (p : ProfileName) (q : ℤ) (rest : GoMap ProfileName ℤ) (gpus middle gpus' : List Gpu)
    → get? p rest ≡ none
    → Moves p q gpus middle
    → AllMoved rest middle gpus'
    → AllMoved ((p, q) ∷ rest) gpus gpus'
cons-AllMoved p q rest gpus middle gpus' n first more r =
    let nothing : (p == r) ≡ true → amount r rest ≡ pos 0 =
      λ e. amount-none r rest (subst (λ x. get? x rest ≡ none) ((String_eq.same_iff p r).0 e) n) in
    let of_one = amount-cons p r q rest in
    (
      less_both (p == r) (used_on r gpus) (used_on r middle) (used_on r gpus') q (amount r rest)
          (amount r ((p, q) ∷ rest)) (first r).0 (more r).0 of_one nothing,
      more_both (p == r) (free_on r gpus) (free_on r middle) (free_on r gpus') q (amount r rest)
          (amount r ((p, q) ∷ rest)) (first r).1 (more r).1 of_one nothing,
    )

-- For profiles that are named once and are not negative, ReleaseProfiles of a node of valid GPUs has one
-- of two outcomes. If its GPUs together have as many used devices of each profile, it returns true, has
-- moved as many of each from used to free and none of another profile, and the GPUs stay valid.
-- Otherwise it returns false.
pub release_all_outcomes :
    (profiles : GoMap ProfileName ℤ) (gpus : List Gpu)
    → All IsValid gpus
    → Distinct profiles
    → All (λ e. pos 0 ≤ℤ e.1) profiles
    → (UsedOnNode profiles gpus
        × ((release_all profiles gpus).1 ≡ true)
        × AllMoved profiles gpus (release_all profiles gpus).0
        × All IsValid (release_all profiles gpus).0)
      ⊎ (¬ UsedOnNode profiles gpus × ((release_all profiles gpus).1 ≡ false))
unfolding release_all
release_all_outcomes [] gpus v d h =
    let minus : (a : ℤ) → a ≡ a -ℤ pos 0 = λ a. omega int_laws in
    let plus : (a : ℤ) → a ≡ a +ℤ pos 0 = λ a. omega int_laws in
    inl (
      tt,
      refl,
      λ r. (rw (amount-nil r) (minus (used_on r gpus)), rw (amount-nil r) (plus (free_on r gpus))),
      v,
    )
release_all_outcomes ((p, q) ∷ rest) gpus v d h =
    let u = used_on p gpus in
    let released = release_from p q gpus in
    let (done, left, moved, valid) = release_from-ReleasesFrom p q gpus v h.0 in
    elim (Bool-cases (le_ℤ q u)) [
      | inr short ↦
          let some_left : lt_ℤ (pos 0) released.1 ≡ true =
            ap (lt_ℤ (pos 0)) left ∙ min_short u q (le_ℤ→gt q u short) in
          inr (
            λ (enough : UsedOnNode ((p, q) ∷ rest) gpus). ground (arith, short, enough.0),
            rw (done, some_left) refl,
          )
      | inl fits ↦
          let (whole, none_left) = min_fits u q (le_ℤ→le q u fits) in
          let nothing_left : lt_ℤ (pos 0) released.1 ≡ false = ap (lt_ℤ (pos 0)) left ∙ none_left in
          let first : Moves p q gpus released.0 =
            subst (λ n. Moves p n gpus released.0) whole moved in
          let same : SameButFor p gpus released.0 = λ r e. sym (rw (first r).0 (rw e refl)) in
          let back : SameButFor p released.0 gpus = λ r e. sym (same r e) in
          elim (release_all_outcomes rest released.0 valid d.1 h.1) [
            | inl (enough, ok, more, good) ↦ inl (
              (le_ℤ→le q u fits, used_by_others p rest released.0 gpus back d.0 enough),
              rw (done, nothing_left) ok,
              rw (done, nothing_left)
                  (cons-AllMoved p q rest gpus released.0 (release_all rest released.0).0 d.0 first
                    more),
              rw (done, nothing_left) good,
            )
            | inr (few, failed) ↦ inr (
              λ (enough : UsedOnNode ((p, q) ∷ rest) gpus).
                  few (used_by_others p rest gpus released.0 same d.0 enough.1),
              rw (done, nothing_left) failed,
            )
          ]
    ]
