-- ===== src/Mig.antt =====
-- pkg/gpu/mig: the MIG model of a GPU and of a node.
pub mod Profile
pub mod Gpu
pub mod Update
pub mod Devices
pub mod KnownConfigs
pub mod Configs
pub mod Node
mod Examples
mod BuildExamples
mod NodeExamples
