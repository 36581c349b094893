-- ===== src/HashChain.antt =====
-- src/mmhashchainsigs/hashchain.c: the state of the hash chain.
pub mod Binding
pub mod Ends
use mmhashchainsigs.Crypto.Alg
use mmhashchainsigs.Base.{Bool, Bytes, Option, false, inc64, none, replicate, some, true, ℕ, ◌>>=◌}
use mmhashchainsigs.Crypto.Alg.{HashAlg, hash_len}
use mmhashchainsigs.Crypto.Hash.{chain_init_hash, hash_chain}
use mmhashchainsigs.Crypto.Host.{Host}

-- `hashchain_ctx_t`. `current` is the first `hash_len` bytes of the source's array, the only ones
-- that are read.
pub record HashChain : Type 0 where
  pub alg : HashAlg
  pub hash_len : ℕ
  pub current : Bytes
  pub seq : ℕ
  pub msg_count : ℕ

-- The chain with its count of unsigned messages at 0 (`hashchain_reset_count`).
unfoldable pub reset_count : HashChain → HashChain
reset_count c = record c { msg_count = 0 }

-- The chain that starts at a hash.
started : HashAlg → Bytes → HashChain
started alg iv = record {
  alg = alg;
  hash_len = Alg.hash_len alg;
  current = iv;
  seq = 1;
  msg_count = 0;
}

module _ ⦃h : Host⦄ where
  -- The state that is left, and whether 0 is returned. `hcs_hash_len` is 0 for no value of the
  -- type, so the first test never fails; where the hash fails, the array keeps its zeros.
  unfoldable pub chain_init : HashAlg → HashChain × Bool
  unfolding started
  chain_init alg = elim (chain_init_hash alg) [
    | none ↦ (started alg (replicate (Alg.hash_len alg) 0), false)
    | some iv ↦ (started alg iv, true)
  ]

  unfoldable pub chain_update : HashChain → Bytes → Option HashChain
  chain_update c msg = do
    next ← hash_chain c.alg c.current c.seq msg
    some (record c { current = next; seq = inc64 c.seq; msg_count = inc64 c.msg_count })

  unfoldable pub chain_reset : HashChain → HashChain × Bool
  chain_reset c = chain_init c.alg
