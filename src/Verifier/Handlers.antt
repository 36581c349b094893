-- ===== src/Verifier/Handlers.antt =====
-- `install_pubkey_from_cert`, `verify_sd_msg_hash` and the handlers of the element types.
pub mod Accept
pub mod Sound
pub mod Opens
pub mod Grows
pub mod GrowsAll
pub mod Keeps
pub mod KeepsInit
pub mod KeepsAll
pub mod Clean
pub mod Steps
pub mod StepsInit
pub mod StepsCert
use mmhashchainsigs.Crypto.Alg
use mmhashchainsigs.Base.{
  Bool, Bytes, Option, bytes_eq, false, if◌then◌else◌, inc64, length, ltb, none, not, some, sub64,
  true, ℕ, ◌&&◌, ◌*◌, ◌==◌,
}
use mmhashchainsigs.Crypto.Alg.{HashAlg, alg_eq, alg_from_hex_len, hash_len}
use mmhashchainsigs.Crypto.Hash.{chain_init_hash, hash_chain}
use mmhashchainsigs.Crypto.Host.{ChainStatus, Host, init_failed, trusted, untrusted}
use mmhashchainsigs.Crypto.Keys.{
  Verdict, bad, broken, good, hcs_verify, pubkey_fingerprint, x509_get_pubkey,
}
use mmhashchainsigs.Format.Parse.{SdRecord}
use mmhashchainsigs.Verifier.Errors.{
  alg_changed, bad_hash_len, cert_fp_failed, cert_key_unsupported, cert_required, cert_unparsed,
  cert_untrusted, continue_before_init, continue_fp_mismatch, hash_len_changed, hash_mismatch,
  init_fp_mismatch, init_without_fp, msg_before_init, no_pubkey, seq_mismatch, sig_before_init,
  sig_error, sig_from_mismatch, sig_invalid, sig_missing, sig_to_mismatch, store_ctx_failed,
  unsigned_before_segment,
}
use mmhashchainsigs.Verifier.State.{
  Verifier, VerifierState, add_error, errored, processing, unsigned_count,
}

-- What a handler returns with the state: 0 or -1.
pub data Outcome {ℓ} (V : Type ℓ) : Type ℓ where
  returned : V → Outcome V
  aborted : V → Outcome V

module _ ⦃h : Host⦄ where
  abbrev pub broken_off : Verifier → Outcome Verifier
  broken_off v = aborted (record v { state = errored })

  unfoldable install_fp : Option Bytes → h.Pkey → Verifier → ℕ → Outcome Verifier
  install_fp none key v line = aborted (add_error (record v { pubkey = none }) line cert_fp_failed)
  install_fp (some fp) key v line =
      returned (record v { pubkey = some key; pubkey_fp = fp; have_pubkey = true })

  unfoldable install_key : Option h.Pkey → Verifier → ℕ → Outcome Verifier
  unfolding install_fp
  install_key none v line = aborted (add_error v line cert_key_unsupported)
  install_key (some key) v line = install_fp (pubkey_fingerprint key) key v line

  unfoldable install_checked : ChainStatus → h.Cert → Verifier → ℕ → Outcome Verifier
  unfolding install_key
  install_checked init_failed cert v line = aborted (add_error v line store_ctx_failed)
  install_checked (untrusted why) cert v line = aborted (add_error v line (cert_untrusted why))
  install_checked trusted cert v line = install_key (x509_get_pubkey cert) v line

  unfoldable install_parsed : Option h.Cert → h.TrustStore → Verifier → ℕ → Outcome Verifier
  unfolding install_checked
  install_parsed none store v line = aborted (add_error v line cert_unparsed)
  install_parsed (some cert) store v line =
      if h.new_store_ctx then install_checked (h.verify_cert store cert) cert v line else aborted v

  unfoldable pub install_pubkey_from_cert : h.TrustStore → Bytes → Verifier → ℕ → Outcome Verifier
  unfolding install_parsed
  install_pubkey_from_cert store der v line = install_parsed (h.d2i der) store v line

  -- With the hash of the message: the comparison, and the counters.
  unfoldable compare_hash : Bytes → SdRecord → Verifier → ℕ → Verifier
  compare_hash next sd v line =
      let w = record v { chain_hash = next } in
      let x = if bytes_eq next sd.chain_hash then w else add_error w line (hash_mismatch sd.seq) in
      record x { next_seq = inc64 x.next_seq; msg_count = inc64 x.msg_count }

  unfoldable pub verify_sd_msg_hash : SdRecord → Bytes → Verifier → ℕ → Outcome Verifier
  unfolding compare_hash
  verify_sd_msg_hash sd msg v line =
      let w =
        if sd.seq == v.next_seq then v else add_error v line (seq_mismatch sd.seq v.next_seq) in
      let hashed = hash_chain w.hash_alg w.chain_hash w.next_seq msg in
      if not (length sd.chain_hash == w.hash_len)
      then broken_off (add_error w line (hash_len_changed (length sd.chain_hash) w.hash_len))
      else elim hashed [ none ↦ broken_off w | some next ↦ returned (compare_hash next sd w line) ]

  unfoldable pub is_processing : VerifierState → Bool
  is_processing processing = true
  is_processing _ = false

  -- A new INIT inside a file: the unsigned tail is reported in strict mode.
  unfoldable close_segment : Verifier → ℕ → Verifier
  unfolding is_processing
  close_segment v line =
      let n = unsigned_count v in
      let w = if ltb 0 n && v.strict then add_error v line (unsigned_before_segment n) else v in
      if is_processing v.state then record w { last_signed_seq = 0 } else v

  unfoldable restart : Option Bytes → SdRecord → Bytes → Verifier → ℕ → Outcome Verifier
  restart none sd msg v line = broken_off v
  restart (some iv) sd msg v line =
      verify_sd_msg_hash sd msg
        (record v {
          chain_hash = iv;
          next_seq = 1;
          segment_count = inc64 v.segment_count;
          state = processing;
        })
        line

  unfoldable lock_alg : Option HashAlg → SdRecord → Bytes → Verifier → ℕ → Outcome Verifier
  unfolding restart
  lock_alg none sd msg v line = broken_off (add_error v line (bad_hash_len (length sd.chain_hash)))
  lock_alg (some alg) sd msg v line =
      let started =
        restart (chain_init_hash alg) sd msg
          (record v { hash_alg = alg; hash_len = Alg.hash_len alg; have_hash_alg = true }) line in
      if v.have_hash_alg && not (alg_eq v.hash_alg alg)
      then broken_off (add_error v line (alg_changed v.hash_alg alg))
      else started

  -- From the test of `have_pubkey` on.
  unfoldable init_with_key : SdRecord → Bytes → Verifier → ℕ → Outcome Verifier
  unfolding close_segment lock_alg
  init_with_key sd msg v line =
      if not v.have_pubkey
      then broken_off (add_error v line no_pubkey)
      else if not (bytes_eq sd.pubkey_fp v.pubkey_fp)
      then broken_off (add_error v line init_fp_mismatch)
      else lock_alg (alg_from_hex_len (length sd.chain_hash * 2)) sd msg (close_segment v line) line

  unfoldable init_installed : Outcome Verifier → SdRecord → Bytes → ℕ → Outcome Verifier
  unfolding init_with_key
  init_installed (aborted v) sd msg line = broken_off v
  init_installed (returned v) sd msg line = init_with_key sd msg v line

  -- In CA-bundle mode a key is installed from the certificate of the first INIT.
  unfoldable init_anchor :
      Option h.TrustStore → Bool → SdRecord → Bytes → Bytes → Verifier → ℕ → Outcome Verifier
  unfolding init_installed
  init_anchor (some store) false sd msg der v line =
      if length der == 0
      then broken_off (add_error v line cert_required)
      else init_installed (install_pubkey_from_cert store der v line) sd msg line
  init_anchor _ _ sd msg der v line = init_with_key sd msg v line

  unfoldable pub handle_sd_init : SdRecord → Bytes → Bytes → Verifier → ℕ → Outcome Verifier
  unfolding init_anchor
  handle_sd_init sd msg der v line =
      if not sd.has_pubkey_fp
      then broken_off (add_error v line init_without_fp)
      else init_anchor v.trust_store v.have_pubkey sd msg der v line

  unfoldable pub handle_sd_msg : SdRecord → Bytes → Verifier → ℕ → Outcome Verifier
  unfolding is_processing
  handle_sd_msg sd msg v line =
      if not (is_processing v.state)
      then broken_off (add_error v line msg_before_init)
      else verify_sd_msg_hash sd msg v line

  -- The result of `hcs_verify`, where a null key is an error.
  unfoldable key_verdict : Option h.Pkey → Bytes → Bytes → Verdict
  key_verdict none msg sig = broken
  key_verdict (some key) msg sig = hcs_verify key msg sig

  unfoldable judge : Verdict → SdRecord → Verifier → ℕ → Verifier
  judge good sd v line = record v { last_signed_seq = sd.seq_to; sig_count = inc64 v.sig_count }
  judge bad sd v line = add_error v line (sig_invalid sd.seq_from sd.seq_to)
  judge broken sd v line = add_error v line (sig_error sd.seq_from sd.seq_to)

  unfoldable check_range : SdRecord → Verifier → ℕ → Verifier
  check_range sd v line =
      let exp_from = inc64 v.last_signed_seq in
      let exp_to = sub64 v.next_seq 1 in
      let w =
        if sd.seq_from == exp_from
        then v
        else add_error v line (sig_from_mismatch sd.seq_from exp_from) in
      if sd.seq_to == exp_to then w else add_error w line (sig_to_mismatch sd.seq_to exp_to)

  unfoldable sig_hashed : Outcome Verifier → SdRecord → ℕ → Outcome Verifier
  unfolding key_verdict judge check_range
  sig_hashed (aborted v) sd line = aborted v
  sig_hashed (returned v) sd line =
      if not sd.has_signature
      then returned (add_error v line sig_missing)
      else returned
          (judge (key_verdict v.pubkey v.chain_hash sd.signature) sd (check_range sd v line) line)

  unfoldable pub handle_sd_sig : SdRecord → Bytes → Verifier → ℕ → Outcome Verifier
  unfolding is_processing sig_hashed
  handle_sd_sig sd msg v line =
      if not (is_processing v.state)
      then returned (add_error v line sig_before_init)
      else sig_hashed (verify_sd_msg_hash sd msg v line) sd line

  unfoldable pub handle_sd_continue : SdRecord → Bytes → Verifier → ℕ → Outcome Verifier
  unfolding is_processing
  handle_sd_continue sd msg v line =
      if not (is_processing v.state)
      then returned (add_error v line continue_before_init)
      else if sd.has_pubkey_fp && not (bytes_eq sd.pubkey_fp v.pubkey_fp)
      then returned (add_error v line continue_fp_mismatch)
      else verify_sd_msg_hash sd msg (record v { segment_count = inc64 v.segment_count }) line
