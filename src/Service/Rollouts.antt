-- ===== src/Service/Rollouts.antt =====
-- internal/app/rollout.go: the service that carries out what the rollout engine decides.
pub mod World
pub mod Plan
pub mod Waves
pub mod Tick
pub mod Control
pub mod Flow
pub mod Outcomes
pub mod Frame
