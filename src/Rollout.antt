-- ===== src/Rollout.antt =====
-- internal/domain/rollout/rollout.go: the decision engine of staged rollouts.
pub mod Ring
pub mod State
pub mod Decide
