-- ===== src/Verifier/Handlers/Accept.antt =====
-- The handlers on records that agree with the verifier's state: no error is recorded.
use mmhashchainsigs.Crypto.Alg
use mmhashchainsigs.Base.{
  Bytes, arith, bytes_eq_refl, false, inc64, length, none, some, sub64, true, ℕ, ◌*◌, ◌<◌, ◌≡◌, ◌⊎◌,
}
use mmhashchainsigs.Crypto.Alg.{
  HashAlg, alg_eq_refl, alg_from_hex_len, alg_from_hex_len-hash_len, hash_len,
}
use mmhashchainsigs.Crypto.Hash.{chain_init_hash, hash_chain}
use mmhashchainsigs.Crypto.Host.{Host, trusted}
use mmhashchainsigs.Crypto.Keys.{good, hcs_verify, pubkey_fingerprint, x509_get_pubkey}
use mmhashchainsigs.Format.Parse.{SdRecord}
use mmhashchainsigs.Verifier.Handlers.{
  handle_sd_init, handle_sd_msg, handle_sd_sig, install_pubkey_from_cert, returned,
  verify_sd_msg_hash,
}
use mmhashchainsigs.Verifier.State.{Verifier, expect_init, processing, unsigned_count}

module _ ⦃h : Host⦄ where
  -- The state behind an accepted message.
  abbrev pub advanced : Verifier → Bytes → Verifier
  advanced v next = record v {
    chain_hash = next;
    next_seq = inc64 v.next_seq;
    msg_count = inc64 v.msg_count;
  }

  -- The state in which an INIT starts its segment.
  abbrev pub opened : HashAlg → Bytes → Verifier → Verifier
  opened alg iv v = record v {
    hash_alg = alg;
    hash_len = Alg.hash_len alg;
    have_hash_alg = true;
    chain_hash = iv;
    next_seq = 1;
    segment_count = inc64 v.segment_count;
    state = processing;
  }

module _ ⦃h : Host⦄ (sd : SdRecord) (msg : Bytes) (v : Verifier) (line : ℕ) where
  module _ (same_seq : sd.seq ≡ v.next_seq) (same_len : length sd.chain_hash ≡ v.hash_len)
      (hashed : hash_chain v.hash_alg v.chain_hash v.next_seq msg ≡ some sd.chain_hash) where
    -- The number, the width and the hash of the record are the expected ones.
    pub verify_sd_msg_hash-good :
        verify_sd_msg_hash sd msg v line ≡ returned (advanced v sd.chain_hash)
    unfolding verify_sd_msg_hash
    verify_sd_msg_hash-good = ground (arith, bytes_eq_refl sd.chain_hash)

    pub handle_sd_msg-good :
        v.state ≡ processing → handle_sd_msg sd msg v line ≡ returned (advanced v sd.chain_hash)
    unfolding handle_sd_msg
    handle_sd_msg-good p = ground (arith, verify_sd_msg_hash-good)

    -- A signature over the range behind the last one, which the key accepts.
    pub handle_sd_sig-good :
        (key : h.Pkey)
        → v.state ≡ processing
        → sd.has_signature ≡ true
        → sd.seq_from ≡ inc64 v.last_signed_seq
        → sd.seq_to ≡ sub64 (inc64 v.next_seq) 1
        → v.pubkey ≡ some key
        → hcs_verify key sd.chain_hash sd.signature ≡ good
        → handle_sd_sig sd msg v line
          ≡ returned (record (advanced v sd.chain_hash) {
            last_signed_seq = sd.seq_to;
            sig_count = inc64 v.sig_count;
          })
    unfolding handle_sd_sig
    handle_sd_sig-good key p s f t k g = ground (arith, verify_sd_msg_hash-good)

module _ ⦃h : Host⦄ (sd : SdRecord) (msg : Bytes) (line : ℕ) (alg : HashAlg) (iv : Bytes)
    (width : length sd.chain_hash ≡ Alg.hash_len alg) (start : chain_init_hash alg ≡ some iv)
    (at_start : sd.seq ≡ 1) (hashed : hash_chain alg iv 1 msg ≡ some sd.chain_hash) where
  detected : alg_from_hex_len (length sd.chain_hash * 2) ≡ some alg
  detected = rw width (alg_from_hex_len-hash_len alg)

  -- The first INIT of a file.
  pub handle_sd_init-first :
      (der : Bytes) (v : Verifier)
      → sd.has_pubkey_fp ≡ true
      → v.trust_store ≡ none
      → v.have_pubkey ≡ true
      → sd.pubkey_fp ≡ v.pubkey_fp
      → v.state ≡ expect_init
      → v.have_hash_alg ≡ false
      → handle_sd_init sd msg der v line ≡ returned (advanced (opened alg iv v) sd.chain_hash)
  unfolding handle_sd_init
  handle_sd_init-first der v f s k e p a = ground (
    arith,
    detected,
    bytes_eq_refl sd.pubkey_fp,
    verify_sd_msg_hash-good sd msg (opened alg iv v) line at_start width hashed,
  )

  -- An INIT with number 1 starts the next segment of a file without an error, if its fingerprint
  -- is the verifier's, its hash is the first of a chain of the file's algorithm, no CA bundle is
  -- used, and the mode is not strict or no message is unsigned: the range of signatures starts
  -- again.
  pub handle_sd_init-next :
      (der : Bytes) (v : Verifier)
      → sd.has_pubkey_fp ≡ true
      → v.trust_store ≡ none
      → v.have_pubkey ≡ true
      → sd.pubkey_fp ≡ v.pubkey_fp
      → v.state ≡ processing
      → v.hash_alg ≡ alg
      → (v.strict ≡ false) ⊎ (unsigned_count v ≡ 0)
      → handle_sd_init sd msg der v line
        ≡ returned (advanced (opened alg iv (record v { last_signed_seq = 0 })) sd.chain_hash)
  unfolding handle_sd_init
  handle_sd_init-next der v f s k e p a tail = ground (
    arith,
    detected,
    bytes_eq_refl sd.pubkey_fp,
    alg_eq_refl alg,
    verify_sd_msg_hash-good sd msg (opened alg iv (record v { last_signed_seq = 0 })) line at_start
        width hashed,
  )

  -- The first INIT of a file that is read with a CA bundle: its certificate is trusted, and has a
  -- supported key of the element's fingerprint.
  pub handle_sd_init-installed :
      (store : h.TrustStore) (cert : h.Cert) (pk : h.Pkey) (fp der : Bytes) (v : Verifier)
      → sd.has_pubkey_fp ≡ true
      → v.trust_store ≡ some store
      → v.have_pubkey ≡ false
      → 0 < length der
      → h.d2i der ≡ some cert
      → h.new_store_ctx ≡ true
      → h.verify_cert store cert ≡ trusted
      → x509_get_pubkey cert ≡ some pk
      → pubkey_fingerprint pk ≡ some fp
      → sd.pubkey_fp ≡ fp
      → v.state ≡ expect_init
      → v.have_hash_alg ≡ false
      → handle_sd_init sd msg der v line
        ≡ returned (
            advanced
              (opened alg iv (record v { pubkey = some pk; pubkey_fp = fp; have_pubkey = true }))
              sd.chain_hash)
  unfolding handle_sd_init install_pubkey_from_cert
  handle_sd_init-installed store cert pk fp der v f s k n parsed ctx t g print e p a = ground (
    arith,
    detected,
    bytes_eq_refl sd.pubkey_fp,
    verify_sd_msg_hash-good sd msg
        (opened alg iv (record v { pubkey = some pk; pubkey_fp = fp; have_pubkey = true })) line
        at_start width hashed,
  )
