-- ===== src/Verifier/Handlers/GrowsAll.antt =====
-- Every handler only adds errors, and never more than there is room for.
use mmhashchainsigs.Base.{
  Bool, Bytes, List, Option, bytes_eq, false, if◌then◌else◌, inc64, length, ltb, none, not, some,
  sub64, true, ℕ, ◌&&◌, ◌*◌, ◌==◌,
}
use mmhashchainsigs.Crypto.Alg.{HashAlg, alg_eq, alg_from_hex_len, hash_len}
use mmhashchainsigs.Crypto.Hash.{chain_init_hash}
use mmhashchainsigs.Crypto.Host.{ChainStatus, Host, init_failed, trusted, untrusted}
use mmhashchainsigs.Crypto.Keys.{Verdict, bad, broken, good, pubkey_fingerprint, x509_get_pubkey}
use mmhashchainsigs.Format.Parse.{SdRecord}
use mmhashchainsigs.Verifier.Errors.{
  VerifyIssue, alg_changed, bad_hash_len, cert_fp_failed, cert_key_unsupported, cert_required,
  cert_unparsed, cert_untrusted, continue_before_init, continue_fp_mismatch, init_fp_mismatch,
  init_without_fp, msg_before_init, no_pubkey, sig_before_init, sig_error, sig_from_mismatch,
  sig_invalid, sig_missing, sig_to_mismatch, store_ctx_failed, unsigned_before_segment,
}
use mmhashchainsigs.Verifier.Handlers.{
  Outcome, aborted, check_range, close_segment, handle_sd_continue, handle_sd_init, handle_sd_msg,
  handle_sd_sig, init_anchor, init_installed, init_with_key, install_checked, install_fp,
  install_key, install_parsed, install_pubkey_from_cert, is_processing, judge, key_verdict,
  lock_alg, restart, returned, sig_hashed, verify_sd_msg_hash,
}
use mmhashchainsigs.Verifier.Handlers.Grows.{
  Extends, Extends-refl, Extends-trans, Grows, add_error-Extends, after-Grows, broken-Grows,
  given_up-Grows, if-Extends, if-Grows, reported-Grows, verify-Grows,
}
use mmhashchainsigs.Verifier.State.{Verifier, add_error, unsigned_count}

module _ ⦃h : Host⦄ where
  module _ (line : ℕ) where
    install_fp-Grows :
        (fp : Option Bytes) (key : h.Pkey) (v : Verifier)
        → Grows v.errors (install_fp fp key v line)
    unfolding install_fp
    install_fp-Grows none key v = given_up-Grows (record v { pubkey = none }) line cert_fp_failed
    install_fp-Grows (some fp) key v = record { extends = Extends-refl v.errors }

    install_key-Grows : (k : Option h.Pkey) (v : Verifier) → Grows v.errors (install_key k v line)
    unfolding install_key
    install_key-Grows none v = given_up-Grows v line cert_key_unsupported
    install_key-Grows (some key) v = install_fp-Grows (pubkey_fingerprint key) key v

    install_checked-Grows :
        (s : ChainStatus) (cert : h.Cert) (v : Verifier)
        → Grows v.errors (install_checked s cert v line)
    unfolding install_checked
    install_checked-Grows init_failed cert v = given_up-Grows v line store_ctx_failed
    install_checked-Grows (untrusted why) cert v = given_up-Grows v line (cert_untrusted why)
    install_checked-Grows trusted cert v = install_key-Grows (x509_get_pubkey cert) v

    install_parsed-Grows :
        (found : Option h.Cert) (store : h.TrustStore) (v : Verifier)
        → Grows v.errors (install_parsed found store v line)
    unfolding install_parsed
    install_parsed-Grows none store v = given_up-Grows v line cert_unparsed
    install_parsed-Grows (some cert) store v =
        if-Grows h.new_store_ctx (install_checked-Grows (h.verify_cert store cert) cert v)
          (record { extends = Extends-refl v.errors })

    install-Grows :
        (store : h.TrustStore) (der : Bytes) (v : Verifier)
        → Grows v.errors (install_pubkey_from_cert store der v line)
    unfolding install_pubkey_from_cert
    install-Grows store der v = install_parsed-Grows (h.d2i der) store v

  module _ (sd : SdRecord) (msg : Bytes) (line : ℕ) where
    restart-Grows : (iv : Option Bytes) (v : Verifier) → Grows v.errors (restart iv sd msg v line)
    unfolding restart
    restart-Grows none v = record { extends = Extends-refl v.errors }
    restart-Grows (some iv) v = record { extends = (verify-Grows sd msg line _).extends }

    lock_alg-Grows :
        (found : Option HashAlg) (v : Verifier) → Grows v.errors (lock_alg found sd msg v line)
    unfolding lock_alg
    lock_alg-Grows none v = broken-Grows v line (bad_hash_len (length sd.chain_hash))
    lock_alg-Grows (some alg) v =
        if-Grows (v.have_hash_alg && not (alg_eq v.hash_alg alg))
          (broken-Grows v line (alg_changed v.hash_alg alg))
          (restart-Grows (chain_init_hash alg)
            (record v { hash_alg = alg; hash_len = hash_len alg; have_hash_alg = true }))

    close_segment-Extends : (v : Verifier) → Extends v.errors ((close_segment v line).errors)
    unfolding close_segment
    close_segment-Extends v =
        if-Extends (is_processing v.state) _ _
          (if-Extends (ltb 0 (unsigned_count v) && v.strict) _ _
            (add_error-Extends v line (unsigned_before_segment (unsigned_count v)))
            (Extends-refl v.errors))
          (Extends-refl v.errors)

    init_with_key-Grows : (v : Verifier) → Grows v.errors (init_with_key sd msg v line)
    unfolding init_with_key
    init_with_key-Grows v = if-Grows (not v.have_pubkey) (broken-Grows v line no_pubkey) (
        if-Grows (not (bytes_eq sd.pubkey_fp v.pubkey_fp)) (broken-Grows v line init_fp_mismatch) (
          after-Grows (lock_alg _ sd msg (close_segment v line) line) (close_segment-Extends v)
            (lock_alg-Grows (alg_from_hex_len (length sd.chain_hash * 2)) (close_segment v line))))

    init_installed-Grows :
        {es : List (ℕ × VerifyIssue)} (o : Outcome Verifier)
        → Grows es o
        → Grows es (init_installed o sd msg line)
    unfolding init_installed
    init_installed-Grows (aborted v) g = record { extends = g.extends }
    init_installed-Grows (returned v) g =
        after-Grows (init_with_key sd msg v line) g.extends (init_with_key-Grows v)

    init_anchor-Grows :
        (store : Option h.TrustStore) (held : Bool) (der : Bytes) (v : Verifier)
        → Grows v.errors (init_anchor store held sd msg der v line)
    unfolding init_anchor
    init_anchor-Grows (some store) false der v =
        if-Grows (length der == 0) (broken-Grows v line cert_required) (
          init_installed-Grows (install_pubkey_from_cert store der v line)
            (install-Grows line store der v))
    init_anchor-Grows (some store) true der v = init_with_key-Grows v
    init_anchor-Grows none held der v = init_with_key-Grows v

    pub handle_sd_init-Grows :
        (der : Bytes) (v : Verifier) → Grows v.errors (handle_sd_init sd msg der v line)
    unfolding handle_sd_init
    handle_sd_init-Grows der v =
        if-Grows (not sd.has_pubkey_fp) (broken-Grows v line init_without_fp)
          (init_anchor-Grows v.trust_store v.have_pubkey der v)

    pub handle_sd_msg-Grows : (v : Verifier) → Grows v.errors (handle_sd_msg sd msg v line)
    unfolding handle_sd_msg
    handle_sd_msg-Grows v =
        if-Grows (not (is_processing v.state)) (broken-Grows v line msg_before_init)
          (verify-Grows sd msg line v)

    judge-Extends : (x : Verdict) (v : Verifier) → Extends v.errors ((judge x sd v line).errors)
    unfolding judge
    judge-Extends good v = Extends-refl v.errors
    judge-Extends bad v = add_error-Extends v line (sig_invalid sd.seq_from sd.seq_to)
    judge-Extends broken v = add_error-Extends v line (sig_error sd.seq_from sd.seq_to)

    check_range-Extends : (v : Verifier) → Extends v.errors ((check_range sd v line).errors)
    unfolding check_range
    check_range-Extends v =
        let w =
          if sd.seq_from == inc64 v.last_signed_seq
          then v
          else add_error v line (sig_from_mismatch sd.seq_from (inc64 v.last_signed_seq)) in
        Extends-trans
          (if-Extends (sd.seq_from == inc64 v.last_signed_seq) v
            (add_error v line (sig_from_mismatch sd.seq_from (inc64 v.last_signed_seq)))
            (Extends-refl v.errors)
            (add_error-Extends v line (sig_from_mismatch sd.seq_from (inc64 v.last_signed_seq))))
          (if-Extends (sd.seq_to == sub64 v.next_seq 1) w
            (add_error w line (sig_to_mismatch sd.seq_to (sub64 v.next_seq 1)))
            (Extends-refl w.errors)
            (add_error-Extends w line (sig_to_mismatch sd.seq_to (sub64 v.next_seq 1))))

    sig_hashed-Grows :
        {es : List (ℕ × VerifyIssue)} (o : Outcome Verifier)
        → Grows es o
        → Grows es (sig_hashed o sd line)
    unfolding sig_hashed
    sig_hashed-Grows (aborted v) g = g
    sig_hashed-Grows (returned v) g =
        if-Grows (not sd.has_signature)
          (record { extends = Extends-trans g.extends (add_error-Extends v line sig_missing) })
          (record {
            extends = Extends-trans g.extends (
                Extends-trans (check_range-Extends v) (
                  judge-Extends (key_verdict v.pubkey v.chain_hash sd.signature)
                    (check_range sd v line)));
          })

    pub handle_sd_sig-Grows : (v : Verifier) → Grows v.errors (handle_sd_sig sd msg v line)
    unfolding handle_sd_sig
    handle_sd_sig-Grows v =
        if-Grows (not (is_processing v.state)) (reported-Grows v line sig_before_init)
          (sig_hashed-Grows (verify_sd_msg_hash sd msg v line) (verify-Grows sd msg line v))

    pub handle_sd_continue-Grows :
        (v : Verifier) → Grows v.errors (handle_sd_continue sd msg v line)
    unfolding handle_sd_continue
    handle_sd_continue-Grows v =
        if-Grows (not (is_processing v.state)) (reported-Grows v line continue_before_init) (
          if-Grows (sd.has_pubkey_fp && not (bytes_eq sd.pubkey_fp v.pubkey_fp))
            (reported-Grows v line continue_fp_mismatch)
            (record {
              extends =
                  (verify-Grows sd msg line
                    (record v { segment_count = inc64 v.segment_count })).extends;
            }))
