-- ===== src/Crypto/Hash.antt =====
-- `uint64_to_be`, `hcs_sha256`, `hcs_chain_init_hash` and `hcs_hash_chain`.
pub mod Laws
use mmhashchainsigs.Base.{Bytes, Option, [], codes, ℕ, ◌%◌, ◌++◌, ◌/◌, ◌^◌, ◌∷◌}
use mmhashchainsigs.Crypto.Alg.{HashAlg, sha256}
use mmhashchainsigs.Crypto.Host.{Host}

-- The eight bytes of a 64-bit number, the highest first.
unfoldable pub uint64_to_be : ℕ → Bytes
uint64_to_be v =
    (v / 2 ^ 56 % 256)
    ∷ (v / 2 ^ 48 % 256)
    ∷ (v / 2 ^ 40 % 256)
    ∷ (v / 2 ^ 32 % 256)
    ∷ (v / 2 ^ 24 % 256)
    ∷ (v / 2 ^ 16 % 256)
    ∷ (v / 2 ^ 8 % 256)
    ∷ (v % 256)
    ∷ []

-- `HCS_CHAIN_IV`
unfoldable pub chain_iv : Bytes
chain_iv = codes "MMHASHCHAINSIGS_CHAIN_INIT_V1"

module _ ⦃h : Host⦄ where
  unfoldable pub sha256_of : Bytes → Option Bytes
  sha256_of m = h.digest sha256 m

  unfoldable pub chain_init_hash : HashAlg → Option Bytes
  chain_init_hash alg = h.digest alg chain_iv

  -- `H(prev || seq_be64 || msg)`; `prev` holds the algorithm's length in bytes.
  unfoldable pub hash_chain : HashAlg → Bytes → ℕ → Bytes → Option Bytes
  hash_chain alg prev seq msg = h.digest alg (prev ++ (uint64_to_be seq ++ msg))
