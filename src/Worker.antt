-- ===== src/Worker.antt =====
-- src/mmhashchainsigs/mmhashchainsigs.c: the worker of the rsyslog module, its saved state, and
-- the entry points that rsyslog calls.
pub mod State
pub mod Process
pub mod StateFile
pub mod Action
pub mod Instance
