-- ===== src/Service.antt =====
-- What the services of internal/app share: calls that read and write a state and may fail.
pub mod Action
pub mod Changes
pub mod Config
pub mod Rollouts
