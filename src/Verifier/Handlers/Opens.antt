-- ===== src/Verifier/Handlers/Opens.antt =====
-- What it means that an INIT has opened a segment without an error.
use mmhashchainsigs.Base.{Bytes, Option, none, refl, some, true, ℕ, ◌≡◌}
use mmhashchainsigs.Crypto.Host.{Host}
use mmhashchainsigs.Format.Parse.{SdRecord}
use mmhashchainsigs.Verifier.Handlers.{init_anchor, init_with_key}
use mmhashchainsigs.Verifier.State.{Verifier}

module _ ⦃h : Host⦄ where
  -- With a key in hand, the anchor is not asked.
  pub init_anchor-true :
      (store : Option h.TrustStore) (sd : SdRecord) (msg der : Bytes) (v : Verifier) (line : ℕ)
      → init_anchor store true sd msg der v line ≡ init_with_key sd msg v line
  unfolding init_anchor
  init_anchor-true none sd msg der v line = refl
  init_anchor-true (some store) sd msg der v line = refl
