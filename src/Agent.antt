-- ===== src/Agent.antt =====
-- internal/controllers/migagent: the agent that creates and deletes MIG devices on a node.
pub mod DevicePlugin
pub mod State
pub mod Plan
pub mod Shared
pub mod Client
pub mod Matching
pub mod Actuator
pub mod Actuate
pub mod Reporter
pub mod Startup
pub mod Kubelet
mod Examples
mod ActuatorExamples
mod StartupExamples
