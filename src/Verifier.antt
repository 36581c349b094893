-- ===== src/Verifier.antt =====
-- src/verify/verifier.c: the verification engine. Its state is `State.Verifier`, and the handlers
-- of the four element types are in `Handlers`.
pub mod Errors
pub mod State
pub mod Entry
pub mod Handlers
pub mod Line
