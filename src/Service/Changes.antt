-- ===== src/Service/Changes.antt =====
-- The change service: internal/app/change.go.
pub mod World
pub mod Tree
pub mod Draft
pub mod Submit
pub mod Merge
pub mod Machine
pub mod Frame
pub mod Writes
pub mod Ops
pub mod Refines
pub mod Lifecycle
pub mod Landing
pub mod Verdict
pub mod Opening
