-- ===== src/Slicing.antt =====
-- pkg/gpu/slicing: GPUs that are shared by slices of memory (MPS).
pub mod Profile
pub mod Gpu
pub mod Node
pub mod Reporter
mod Examples
