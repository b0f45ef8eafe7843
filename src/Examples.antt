-- ===== src/Examples.antt =====
-- The theorems at concrete inputs: rollouts, requests of people and devices, and a small fleet.
mod Rollouts
mod Requests
mod Fleets
mod Settings
mod Rings
mod Writes
mod Scopes
mod Changes
mod Memberships
mod Tokens
