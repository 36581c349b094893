-- ===== src/Worker/State.antt =====
-- The records of mmhashchainsigs.h.
use mmhashchainsigs.Base.{Bool, Bytes, Option, ℕ}
use mmhashchainsigs.Crypto.Alg.{HashAlg}
use mmhashchainsigs.Crypto.Host.{Host}
use mmhashchainsigs.HashChain.{HashChain}
use mmhashchainsigs.Signer.{Signer}

-- `mmhashchainsigs_saved_state_t`; `chain_hash` is the whole array of 64 bytes.
pub record SavedState : Type 0 where
  pub hash_alg : HashAlg
  pub hash_len : ℕ
  pub chain_hash : Bytes
  pub seq : ℕ
  pub sig_seq_from : ℕ
  pub pubkey_fp : Bytes

-- `mmhashchainsigs_instance_t`
pub record Instance : Type 0 where
  pub privkey_path : Option Bytes
  pub cert_path : Option Bytes
  pub tpl_name : Option Bytes
  pub statefiledir : Option Bytes
  pub sign_interval : ℕ
  pub embedcert : Bool
  pub hash_alg : HashAlg

module _ ⦃h : Host⦄ where
  -- What a worker holds once it is initialised.
  pub record Active : Type 0 where
    pub chain : HashChain
    pub signer : Signer
    pub sig_seq_from : ℕ
    pub is_first : Bool

  -- `mmhashchainsigs_worker_t`: `initialized` is whether `active` is there. `state_file` is the
  -- contents of the state file in the instance's directory.
  pub record Worker : Type 0 where
    pub inst : Instance
    pub active : Option Active
    pub pending_state : Option SavedState
    pub state_file : Option Bytes
