-- ===== src/Fleet.antt =====
-- internal/domain/fleet: the fleet document, its group tree, and the resolution of a device's
-- settings.
pub mod Model
pub mod Groups
pub mod Populations
pub mod Filter
pub mod Chain
pub mod Resolve
pub mod Device
pub mod Edit
pub mod Scopes
pub mod Redundancy
pub mod Memberships
