-- ===== src/Service/Config.antt =====
-- The configuration service: internal/app/config.go, internal/app/verdicts.go and
-- internal/domain/fleet/classes.go.
pub mod Shapes
pub mod Verdicts
pub mod Transaction
