-- ===== src/Mig/Gpu/Valid.antt =====
-- The invariant of a GPU: each profile has one entry in a map, and no count is negative.
use walkai_nos.Base.{String_eq}
use walkai_nos.GoMap.{Distinct}
use walkai_nos.GoMap.Quantities.{Nonneg}
use walkai_nos.Mig.Gpu.{Gpu}

pub record IsValid (g : Gpu) : Type 0 where
  pub used_distinct : Distinct g.used_mig_devices
  pub free_distinct : Distinct g.free_mig_devices
  pub used_nonneg : Nonneg g.used_mig_devices
  pub free_nonneg : Nonneg g.free_mig_devices
