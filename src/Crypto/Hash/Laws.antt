-- ===== src/Crypto/Hash/Laws.antt =====
-- What OpenSSL documents of its digests and of a pair of keys.
use mmhashchainsigs.Base.{All, Bytes, IsByte, Option, length, some, ℕ, ◌++◌, ◌≡◌, ◌≤◌}
use mmhashchainsigs.Crypto.Alg.{HashAlg, hash_len}
use mmhashchainsigs.Crypto.Hash.{hash_chain, uint64_to_be}
use mmhashchainsigs.Crypto.Host.{Host, valid}
use mmhashchainsigs.Crypto.Keys.{good, hcs_sign, hcs_verify, pick_md}

module _ ⦃h : Host⦄ where
  -- The `EVP_Digest` calls succeed and write as many bytes as the algorithm has.
  pub record IsDigest (hash : HashAlg → Bytes → Bytes) : Type 0 where
    pub digest_total : (a : HashAlg) (m : Bytes) → h.digest a m ≡ some (hash a m)
    pub hash_width : (a : HashAlg) (m : Bytes) → length (hash a m) ≡ hash_len a
    pub hash_bytes : (a : HashAlg) (m : Bytes) → All IsByte (hash a m)

  -- The chain hash as a function of the previous hash, the number and the message.
  abbrev pub link : (HashAlg → Bytes → Bytes) → HashAlg → Bytes → ℕ → Bytes → Bytes
  link hash alg prev seq msg = hash alg (prev ++ (uint64_to_be seq ++ msg))

  pub hash_chain-link :
      {hash : HashAlg → Bytes → Bytes} (d : IsDigest hash) (alg : HashAlg) (prev : Bytes) (seq : ℕ)
      (msg : Bytes)
      → hash_chain alg prev seq msg ≡ some (link hash alg prev seq msg)
  unfolding hash_chain
  hash_chain-link d alg prev seq msg = d.digest_total alg _

  -- A private key and the public key of its pair, both of a supported kind: `EVP_DigestSign` makes
  -- signatures of at most 144 bytes, and `EVP_DigestVerify` accepts them.
  pub record IsKeyPair (sk pk : h.Pkey) (sign : Bytes → Bytes) : Type 0 where
    pub md : Option HashAlg
    pub md_private : pick_md sk ≡ some md
    pub md_public : pick_md pk ≡ some md
    pub signs : (m : Bytes) → h.digest_sign md sk m ≡ some (sign m)
    pub short : (m : Bytes) → length (sign m) ≤ 144
    pub bytes : (m : Bytes) → All IsByte (sign m)
    pub verifies : (m : Bytes) → h.digest_verify md pk m (sign m) ≡ valid

  module _ {sk pk : h.Pkey} {sign : Bytes → Bytes} (k : IsKeyPair sk pk sign) (m : Bytes) where
    pub hcs_sign-sign : hcs_sign sk m ≡ some (sign m)
    unfolding hcs_sign
    hcs_sign-sign = rw (k.md_private, hcs_sign) (k.signs m)

    pub hcs_verify-sign : hcs_verify pk m (sign m) ≡ good
    unfolding hcs_verify
    hcs_verify-sign = rw (k.md_public, hcs_verify) (rw (k.verifies m))
