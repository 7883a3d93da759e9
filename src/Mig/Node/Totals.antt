-- ===== src/Mig/Node/Totals.antt =====
-- The devices of a profile on all GPUs of a node, and how they move from used to free.
use walkai_nos.Base.{
  String_eq, refl, Bool, true, false, List, [], ◌∷◌, ℤ, pos, ◌≡◌, ◌==◌, ◌≤ℤ◌, arith, subst, All,
  ◌-ℤ◌, ◌+ℤ◌, int_laws, if◌then◌else◌,
}
use walkai_nos.GoMap.{amount}
use walkai_nos.Geometry.{ProfileName}
use walkai_nos.Mig.Gpu.{Gpu}
use walkai_nos.Mig.Gpu.Valid.{IsValid}

-- The used and the free devices of a profile, on all GPUs.
abbrev pub used_on : ProfileName → List Gpu → ℤ
used_on p [] = pos 0
used_on p (g ∷ rest) = amount p g.used_mig_devices +ℤ used_on p rest

abbrev pub free_on : ProfileName → List Gpu → ℤ
free_on p [] = pos 0
free_on p (g ∷ rest) = amount p g.free_mig_devices +ℤ free_on p rest

pub used_nonneg : (p : ProfileName) (gpus : List Gpu) → All IsValid gpus → pos 0 ≤ℤ used_on p gpus
used_nonneg p [] v = omega arith
used_nonneg p (g ∷ rest) v = omega (int_laws, v.0.used_nonneg p, used_nonneg p rest v.1)

-- `n` devices of a profile have moved from used to free.
abbrev pub Moves : ProfileName → ℤ → List Gpu → List Gpu → Type 0
Moves p n gpus gpus' =
    (r : ProfileName)
    → (used_on r gpus' ≡ (if p == r then used_on r gpus -ℤ n else used_on r gpus))
      × (free_on r gpus' ≡ (if p == r then free_on r gpus +ℤ n else free_on r gpus))

abbrev pub MovesOne : ProfileName → ℤ → Gpu → Gpu → Type 0
MovesOne p n g g' =
    (r : ProfileName)
    → (amount r g'.used_mig_devices
        ≡ (if p == r then amount r g.used_mig_devices -ℤ n else amount r g.used_mig_devices))
      × (amount r g'.free_mig_devices
          ≡ (if p == r then amount r g.free_mig_devices +ℤ n else amount r g.free_mig_devices))

pub minus_none : (b : Bool) (a : ℤ) → a ≡ (if b then a -ℤ pos 0 else a)
minus_none true a = omega int_laws
minus_none false a = refl

pub plus_none : (b : Bool) (a : ℤ) → a ≡ (if b then a +ℤ pos 0 else a)
plus_none true a = omega int_laws
plus_none false a = refl

pub none-Moves : (p : ProfileName) (gpus : List Gpu) → Moves p (pos 0) gpus gpus
none-Moves p gpus r = (minus_none (p == r) (used_on r gpus), plus_none (p == r) (free_on r gpus))

difference_if :
    (b : Bool) (a c a' c' n k : ℤ)
    → a' ≡ (if b then a -ℤ n else a)
    → c' ≡ (if b then c -ℤ k else c)
    → a' +ℤ c' ≡ (if b then a +ℤ c -ℤ (n +ℤ k) else a +ℤ c)
difference_if true a c a' c' n k h j = rw (h, j) (omega int_laws)
difference_if false a c a' c' n k h j = rw (h, j) refl

sum_if :
    (b : Bool) (a c a' c' n k : ℤ)
    → a' ≡ (if b then a +ℤ n else a)
    → c' ≡ (if b then c +ℤ k else c)
    → a' +ℤ c' ≡ (if b then a +ℤ c +ℤ (n +ℤ k) else a +ℤ c)
sum_if true a c a' c' n k h j = rw (h, j) (omega int_laws)
sum_if false a c a' c' n k h j = rw (h, j) refl

pub cons-Moves :
    (p : ProfileName) (n k m : ℤ) (g g' : Gpu) (rest rest' : List Gpu)
    → MovesOne p n g g'
    → Moves p k rest rest'
    → n +ℤ k ≡ m
    → Moves p m (g ∷ rest) (g' ∷ rest')
cons-Moves p n k m g g' rest rest' one others total =
    subst (λ t. Moves p t (g ∷ rest) (g' ∷ rest')) total
      (λ r. (
        difference_if (p == r) (amount r g.used_mig_devices) (used_on r rest)
            (amount r g'.used_mig_devices) (used_on r rest') n k (one r).0 (others r).0,
        sum_if (p == r) (amount r g.free_mig_devices) (free_on r rest)
            (amount r g'.free_mig_devices) (free_on r rest') n k (one r).1 (others r).1,
      ))
