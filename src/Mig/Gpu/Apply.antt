-- ===== src/Mig/Gpu/Apply.antt =====
-- ApplyGeometry of pkg/gpu/mig/gpu.go: what the two loops leave in the free devices.
use walkai_nos.Base.{
  ◌≡◌, refl, false, Option, none, some, [], ◌∷◌, ℤ, ◌≤ℤ◌, ◌-ℤ◌, arith, String_eq, inl, inr,
  Option-cases,
}
use walkai_nos.GoMap.{GoMap, get?, put, delete, amount, Distinct}
use walkai_nos.GoMap.Laws.{get?-put, get?-delete, put-Distinct, delete-Distinct}
use walkai_nos.Geometry.{ProfileName, mig_profile, slicing_profile, Slice_eq, Geometry}
use walkai_nos.Mig.Gpu.{Gpu, deletes_used, set_free, drop_absent, replace_free}

-- What the first loop leaves for a profile: its part of the geometry less its used devices.
abbrev pub remainder : Option ℤ → ℤ → Option ℤ → Option ℤ
remainder none used free = free
remainder (some q) used free = some (q -ℤ used)

get?-set_free :
    (p : ProfileName) (used : GoMap ProfileName ℤ) (geometry : Geometry)
    (free : GoMap ProfileName ℤ)
    → Distinct geometry
    → get? p (set_free used geometry free)
      ≡ remainder (get? (mig_profile p) geometry) (amount p used) (get? p free)
unfolding set_free get?
get?-set_free p used [] free d = refl
get?-set_free p used ((slicing_profile s, q) ∷ rest) free d = get?-set_free p used rest free d.1
get?-set_free p used ((mig_profile r, q) ∷ rest) free d = ground (
  arith,
  get?-set_free p used rest (put r (q -ℤ amount r used) free) d.1,
  get?-put r p (q -ℤ amount r used) free,
  String_eq.same_iff r p,
)

pub set_free-Distinct :
    (used : GoMap ProfileName ℤ) (geometry : Geometry) (free : GoMap ProfileName ℤ)
    → Distinct free
    → Distinct (set_free used geometry free)
unfolding set_free
set_free-Distinct used [] free d = d
set_free-Distinct used ((slicing_profile s, q) ∷ rest) free d = set_free-Distinct used rest free d
set_free-Distinct used ((mig_profile r, q) ∷ rest) free d =
    set_free-Distinct used rest (put r (q -ℤ amount r used) free)
      (put-Distinct r (q -ℤ amount r used) free d)

pub drop_absent-Distinct :
    (geometry : Geometry) (range free : GoMap ProfileName ℤ)
    → Distinct free
    → Distinct (drop_absent geometry range free)
unfolding drop_absent
drop_absent-Distinct geometry [] free d = d
drop_absent-Distinct geometry ((r, _) ∷ range) free d =
    elim (Option-cases (get? (mig_profile r) geometry)) [
      | inl gone ↦
          rw (gone, drop_absent)
            (drop_absent-Distinct geometry range (delete r free) (delete-Distinct r free d))
      | inr (q, kept) ↦ rw (kept, drop_absent) (drop_absent-Distinct geometry range free d)
    ]

-- The second loop keeps the profiles of the geometry.
drop_absent_kept :
    (p : ProfileName) (geometry : Geometry) (range free : GoMap ProfileName ℤ) (q : ℤ)
    → get? (mig_profile p) geometry ≡ some q
    → get? p (drop_absent geometry range free) ≡ get? p free
unfolding drop_absent
drop_absent_kept p geometry [] free q h = refl
drop_absent_kept p geometry ((r, _) ∷ range) free q h = ground (
  arith,
  drop_absent_kept p geometry range free q h,
  drop_absent_kept p geometry range (delete r free) q h,
  get?-delete r p free,
  String_eq.same_iff r p,
)

-- It removes every other profile that it ranges over.
drop_absent_gone :
    (p : ProfileName) (geometry : Geometry) (range free : GoMap ProfileName ℤ)
    → get? (mig_profile p) geometry ≡ none
    → (get? p range ≡ none → get? p free ≡ none)
    → get? p (drop_absent geometry range free) ≡ none
unfolding drop_absent get?
drop_absent_gone p geometry [] free h k = k refl
drop_absent_gone p geometry ((r, w) ∷ range) free h k = ground (
  arith,
  drop_absent_gone p geometry range free h,
  drop_absent_gone p geometry range (delete r free) h,
  get?-delete r p free,
  String_eq.same_iff r p,
)

-- Together: each profile of the geometry has its quantity less its used devices, and no other
-- profile has a free device.
pub get?-replace_free :
    (g : Gpu) (geometry : Geometry) (p : ProfileName)
    → Distinct geometry
    → get? p (replace_free g geometry)
      ≡ remainder (get? (mig_profile p) geometry) (amount p g.used_mig_devices) none
unfolding replace_free
get?-replace_free g geometry p d =
    let free = set_free g.used_mig_devices geometry g.free_mig_devices in
    elim (Option-cases (get? (mig_profile p) geometry)) [
      | inl gone ↦ rw (gone, drop_absent_gone p geometry free free gone (λ h. h))
      | inr (q, kept) ↦
          rw (kept, drop_absent_kept p geometry free free q kept)
            (ground (arith, get?-set_free p g.used_mig_devices geometry g.free_mig_devices d))
    ]

-- The guard: no used device is deleted.
pub deletes_used_sound :
    (geometry : Geometry) (used : GoMap ProfileName ℤ) (p : ProfileName) (q : ℤ)
    → deletes_used geometry used ≡ false
    → get? p used ≡ some q
    → q ≤ℤ amount (mig_profile p) geometry
unfolding deletes_used get?
deletes_used_sound geometry [] p q h f = cc
deletes_used_sound geometry ((r, w) ∷ rest) p q h f =
    ground (arith, deletes_used_sound geometry rest p q, String_eq.same_iff r p)

pub deletes_used_complete :
    (geometry : Geometry) (used : GoMap ProfileName ℤ)
    → Distinct used
    → ((p : ProfileName) (q : ℤ) → get? p used ≡ some q → q ≤ℤ amount (mig_profile p) geometry)
    → deletes_used geometry used ≡ false
unfolding deletes_used get?
deletes_used_complete geometry [] d h = refl
deletes_used_complete geometry ((r, w) ∷ rest) d h =
    ground (arith, here, deletes_used_complete geometry rest d.1 below)
  where
    here : w ≤ℤ amount (mig_profile r) geometry
    here = h r w (ground (arith, String_eq.same_iff r r))

    below : (p : ProfileName) (q : ℤ) → get? p rest ≡ some q → q ≤ℤ amount (mig_profile p) geometry
    below p q f = h p q (ground (arith, String_eq.same_iff r p, d.0))

pub replace_free-Distinct :
    (g : Gpu) (geometry : Geometry)
    → Distinct g.free_mig_devices
    → Distinct (replace_free g geometry)
unfolding replace_free
replace_free-Distinct g geometry d =
    let free = set_free g.used_mig_devices geometry g.free_mig_devices in
    drop_absent-Distinct geometry free free
      (set_free-Distinct g.used_mig_devices geometry g.free_mig_devices d)
