-- ===== src/Tests.antt =====
-- Runs of the model and instances of the theorems, over a small host.
pub mod Toy
pub mod ToyLaws
pub mod Logs
pub mod Passing
pub mod Strict
pub mod Sealed
pub mod Refusals
mod Carried
pub mod Programs
pub mod Restarts
pub mod Bundles
pub mod Actions
pub mod Texts
pub mod States
pub mod Chains
