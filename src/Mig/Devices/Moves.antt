-- ===== src/Mig/Devices/Moves.antt =====
-- The single moves of AddPod and ReleaseProfiles of pkg/gpu/mig/gpu.go.
use walkai_nos.Base.{◌≡◌, ℤ, pos, ◌≤ℤ◌, arith, String_eq, +ℤ_parts, -ℤ_parts, eq_ℤ_iff}
use walkai_nos.GoMap.{GoMap, amount, Distinct}
use walkai_nos.GoMap.Laws.{delete-Distinct}
use walkai_nos.GoMap.Quantities.{
  amount-add_at, amount-sub_at, amount-delete, add_at-Distinct, sub_at-Distinct,
}
use walkai_nos.Geometry.{ProfileName}
use walkai_nos.Mig.Gpu.{Gpu}
use walkai_nos.Mig.Gpu.Valid.{IsValid}
use walkai_nos.Mig.Devices.{take_devices, drop_zero}

pub take_devices-IsValid :
    (r : ProfileName) (q : ℤ) (g : Gpu)
    → IsValid g
    → pos 0 ≤ℤ q
    → q ≤ℤ amount r g.free_mig_devices
    → IsValid (take_devices r q g)
unfolding take_devices
take_devices-IsValid r q g v h fits = record {
  used_distinct = add_at-Distinct r q g.used_mig_devices v.used_distinct;
  free_distinct = sub_at-Distinct r q g.free_mig_devices v.free_distinct;
  used_nonneg = λ p. ground (
    arith,
    v.used_nonneg p,
    amount-add_at r p q g.used_mig_devices,
    +ℤ_parts (amount p g.used_mig_devices) q,
  );
  free_nonneg = λ p. ground (
    arith,
    v.free_nonneg p,
    amount-sub_at r p q g.free_mig_devices,
    -ℤ_parts (amount p g.free_mig_devices) q,
    String_eq.same_iff r p,
  );
}

-- The deletion of an entry that has become 0 changes no count.
pub amount-drop_zero :
    (r p : ProfileName) (used : GoMap ProfileName ℤ) → amount p (drop_zero r used) ≡ amount p used
amount-drop_zero r p used =
    ground (arith, amount-delete r p used, String_eq.same_iff r p, eq_ℤ_iff (amount r used) (pos 0))

pub drop_zero-Distinct :
    (r : ProfileName) (used : GoMap ProfileName ℤ) → Distinct used → Distinct (drop_zero r used)
drop_zero-Distinct r used d = ground (arith, delete-Distinct r used d)
