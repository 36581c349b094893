-- ===== src/Cli/Lines/Keeps.antt =====
-- A log keeps the key, the algorithm and the options of the verifier.
use mmhashchainsigs.Crypto.Host.{Host}
use mmhashchainsigs.Verifier.Handlers.Keeps.{Keeps}
use mmhashchainsigs.Verifier.State.{Verifier}
