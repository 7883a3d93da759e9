-- ===== src/Partitioner.antt =====
-- internal/controllers/gpupartitioner and internal/partitioning: the controller that repartitions the
-- GPUs of the nodes for the pods that wait.
mod Examples
mod NodeExamples
pub mod Api
pub mod Plan
pub mod Order
pub mod Capacity
pub mod Taints
pub mod Preemption
pub mod Reconcile
pub mod Nodes
