-- ===== src/Mig/KnownConfigs.antt =====
-- pkg/gpu/mig/known_configs.go and pkg/gpu/model.go: the geometries that each GPU model allows. The
-- Go table is a variable that SetKnownGeometries replaces; here it is an argument.
use walkai_nos.Base.{List, [], ◌∷◌, pos, String_eq}
use walkai_nos.GoMap.{GoMap}
use walkai_nos.Geometry.{mig_profile, Geometry}
use walkai_nos.Mig.Gpu.{Model}

abbrev pub gpu_model_a30 : Model
gpu_model_a30 = "A30"

abbrev pub a30_geometries : List Geometry
a30_geometries =
    ((mig_profile "4g.24gb", pos 1) ∷ [])
    ∷ ((mig_profile "2g.12gb", pos 2) ∷ [])
    ∷ ((mig_profile "2g.12gb", pos 1) ∷ (mig_profile "1g.6gb", pos 2) ∷ [])
    ∷ ((mig_profile "1g.6gb", pos 4) ∷ [])
    ∷ []

abbrev pub gpu_model_a100_sxm4_40gb : Model
gpu_model_a100_sxm4_40gb = "NVIDIA-A100-40GB-SXM4"

abbrev pub a100_sxm4_40gb_geometries : List Geometry
a100_sxm4_40gb_geometries =
    ((mig_profile "7g.40gb", pos 1) ∷ [])
    ∷ ((mig_profile "4g.20gb", pos 1)
        ∷ (mig_profile "2g.10gb", pos 1)
        ∷ (mig_profile "1g.5gb", pos 1)
        ∷ [])
    ∷ ((mig_profile "4g.20gb", pos 1) ∷ (mig_profile "1g.5gb", pos 3) ∷ [])
    ∷ ((mig_profile "3g.20gb", pos 2) ∷ [])
    ∷ ((mig_profile "3g.20gb", pos 1)
        ∷ (mig_profile "2g.10gb", pos 1)
        ∷ (mig_profile "1g.5gb", pos 1)
        ∷ [])
    ∷ ((mig_profile "3g.20gb", pos 1) ∷ (mig_profile "1g.5gb", pos 3) ∷ [])
    ∷ ((mig_profile "2g.10gb", pos 2) ∷ (mig_profile "3g.20gb", pos 1) ∷ [])
    ∷ ((mig_profile "2g.10gb", pos 1)
        ∷ (mig_profile "1g.5gb", pos 2)
        ∷ (mig_profile "3g.20gb", pos 1)
        ∷ [])
    ∷ ((mig_profile "2g.10gb", pos 3) ∷ (mig_profile "1g.5gb", pos 1) ∷ [])
    ∷ ((mig_profile "2g.10gb", pos 2) ∷ (mig_profile "1g.5gb", pos 3) ∷ [])
    ∷ ((mig_profile "2g.10gb", pos 1) ∷ (mig_profile "1g.5gb", pos 5) ∷ [])
    ∷ ((mig_profile "1g.5gb", pos 7) ∷ [])
    ∷ []

abbrev pub gpu_model_a100_pcie_80gb : Model
gpu_model_a100_pcie_80gb = "NVIDIA-A100-80GB-PCIe"

abbrev pub a100_pcie_80gb_geometries : List Geometry
a100_pcie_80gb_geometries =
    ((mig_profile "7g.79gb", pos 1) ∷ [])
    ∷ ((mig_profile "4g.40gb", pos 1)
        ∷ (mig_profile "2g.20gb", pos 1)
        ∷ (mig_profile "1g.10gb", pos 1)
        ∷ [])
    ∷ ((mig_profile "4g.40gb", pos 1) ∷ (mig_profile "1g.10gb", pos 3) ∷ [])
    ∷ ((mig_profile "3g.40gb", pos 2) ∷ [])
    ∷ ((mig_profile "3g.40gb", pos 1)
        ∷ (mig_profile "2g.20gb", pos 1)
        ∷ (mig_profile "1g.10gb", pos 1)
        ∷ [])
    ∷ ((mig_profile "3g.40gb", pos 1) ∷ (mig_profile "1g.10gb", pos 3) ∷ [])
    ∷ ((mig_profile "2g.20gb", pos 2) ∷ (mig_profile "3g.20gb", pos 1) ∷ [])
    ∷ ((mig_profile "2g.10gb", pos 1)
        ∷ (mig_profile "1g.10gb", pos 2)
        ∷ (mig_profile "3g.40gb", pos 1)
        ∷ [])
    ∷ ((mig_profile "2g.20gb", pos 3) ∷ (mig_profile "1g.10gb", pos 1) ∷ [])
    ∷ ((mig_profile "2g.20gb", pos 2) ∷ (mig_profile "1g.10gb", pos 3) ∷ [])
    ∷ ((mig_profile "2g.20gb", pos 1) ∷ (mig_profile "1g.10gb", pos 5) ∷ [])
    ∷ ((mig_profile "1g.10gb", pos 7) ∷ [])
    ∷ []

abbrev pub known_mig_geometries : GoMap Model (List Geometry)
known_mig_geometries =
    (gpu_model_a30, a30_geometries)
    ∷ (gpu_model_a100_sxm4_40gb, a100_sxm4_40gb_geometries)
    ∷ (gpu_model_a100_pcie_80gb, a100_pcie_80gb_geometries)
    ∷ []
