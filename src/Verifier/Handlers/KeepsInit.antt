-- ===== src/Verifier/Handlers/KeepsInit.antt =====
-- An INIT keeps the key, the algorithm and the options.
use mmhashchainsigs.Base.{
  Bool, Bool-cases, Bytes, Option, Option-cases, arith, bytes_eq, false, if◌then◌else◌, inl, inr,
  length, ltb, none, not, refl, some, sym, true, ℕ, ◌&&◌, ◌*◌, ◌==◌, ◌≡◌,
}
use mmhashchainsigs.Verifier.Entry.{KeyOf}
use mmhashchainsigs.Crypto.Alg.{HashAlg, alg_eq, alg_from_hex_len, hash_len, sha256, sha384, sha512}
use mmhashchainsigs.Crypto.Hash.{chain_init_hash}
use mmhashchainsigs.Crypto.Host.{ChainStatus, Host, init_failed, trusted, untrusted}
use mmhashchainsigs.Crypto.Keys.{pubkey_fingerprint, x509_get_pubkey}
use mmhashchainsigs.Format.Parse.{SdRecord}
use mmhashchainsigs.Verifier.Errors.{
  alg_changed, bad_hash_len, cert_fp_failed, cert_key_unsupported, cert_required, cert_unparsed,
  cert_untrusted, init_fp_mismatch, init_without_fp, no_pubkey, store_ctx_failed,
  unsigned_before_segment,
}
use mmhashchainsigs.Verifier.Handlers.{
  Outcome, aborted, broken_off, close_segment, handle_sd_init, init_anchor, init_installed,
  init_with_key, install_checked, install_fp, install_key, install_parsed, install_pubkey_from_cert,
  is_processing, lock_alg, restart, returned, verify_sd_msg_hash,
}
use mmhashchainsigs.Verifier.Handlers.Keeps.{
  Held, IsWide, Keeps, Keeps-refl, Stays, add_error-Keeps, after-Stays, broken-Stays,
  broken_off-Stays, given_up-Stays, held, if-Keeps, if-Stays, verify-Stays,
}
use mmhashchainsigs.Verifier.State.{
  Verifier, add_error, VerifierState, errored, processing, unsigned_count,
}

module _ ⦃h : Host⦄ where
  -- Before a key is installed there is none to keep.
  module _ (line : ℕ) (v : Verifier) (keyless : v.have_pubkey ≡ false) where
    keyless-Keeps :
        (have : Bool) (key : Option h.Pkey) (fp : Bytes)
        → (have ≡ true → KeyOf key fp)
        → Keeps (held v) (held (record v { pubkey = key; pubkey_fp = fp; have_pubkey = have }))
    keyless-Keeps have key fp there = record {
      same_key = λ k. absurd (ground arith);
      same_alg = λ k. (k, refl);
      same_options = (refl, refl);
      well = λ r. record {
        keyed = there;
        ready = λ p. let old = r.ready p in absurd (ground (arith, old.with_key));
      };
    }

    install_fp-Stays :
        (fp : Option Bytes) (key : h.Pkey)
        → pubkey_fingerprint key ≡ fp
        → Stays (held v) (install_fp fp key v line)
    unfolding install_fp
    install_fp-Stays none key e =
        after-Stays (aborted (add_error (record v { pubkey = none }) line cert_fp_failed))
          (keyless-Keeps v.have_pubkey none v.pubkey_fp (λ k. absurd (ground arith)))
          (given_up-Stays (record v { pubkey = none }) line cert_fp_failed)
    install_fp-Stays (some fp) key e = record {
      keeps = keyless-Keeps true (some key) fp (λ k. (key, refl, e));
    }

    install_key-Stays : (k : Option h.Pkey) → Stays (held v) (install_key k v line)
    unfolding install_key
    install_key-Stays none = given_up-Stays v line cert_key_unsupported
    install_key-Stays (some key) = install_fp-Stays (pubkey_fingerprint key) key refl

    install_checked-Stays :
        (s : ChainStatus) (cert : h.Cert) → Stays (held v) (install_checked s cert v line)
    unfolding install_checked
    install_checked-Stays init_failed cert = given_up-Stays v line store_ctx_failed
    install_checked-Stays (untrusted why) cert = given_up-Stays v line (cert_untrusted why)
    install_checked-Stays trusted cert = install_key-Stays (x509_get_pubkey cert)

    install_parsed-Stays :
        (found : Option h.Cert) (store : h.TrustStore)
        → Stays (held v) (install_parsed found store v line)
    unfolding install_parsed
    install_parsed-Stays none store = given_up-Stays v line cert_unparsed
    install_parsed-Stays (some cert) store = elim (Bool-cases h.new_store_ctx) [
      | inl e ↦ rw e (install_checked-Stays (h.verify_cert store cert) cert)
      | inr e ↦ rw e (record { keeps = Keeps-refl (held v) })
    ]

    install-Stays :
        (store : h.TrustStore) (der : Bytes)
        → Stays (held v) (install_pubkey_from_cert store der v line)
    unfolding install_pubkey_from_cert
    install-Stays store der = install_parsed-Stays (h.d2i der) store

  alg_eq_sound : (a b : HashAlg) → alg_eq a b ≡ true → a ≡ b
  unfolding alg_eq
  alg_eq_sound sha256 sha256 e = refl
  alg_eq_sound sha384 sha384 e = refl
  alg_eq_sound sha512 sha512 e = refl
  alg_eq_sound a b e = absurd (ground arith)

  module _ (wide : IsWide) (sd : SdRecord) (msg : Bytes) (line : ℕ) where
    -- The state of a chain of the algorithm.
    abbrev of_alg : HashAlg → VerifierState → Bytes → Verifier → Verifier
    of_alg alg state hash v = record v {
      hash_alg = alg;
      hash_len = hash_len alg;
      have_hash_alg = true;
      chain_hash = hash;
      state = state;
    }

    of_alg-Keeps :
        (alg : HashAlg) (s : VerifierState) (hash : Bytes) (v : Verifier)
        → v.have_pubkey ≡ true
        → (v.have_hash_alg ≡ true → v.hash_alg ≡ alg)
        → (s ≡ processing → length hash ≡ hash_len alg)
        → Keeps (held v) (held (of_alg alg s hash v))
    of_alg-Keeps alg s hash v keyed locked width = record {
      same_key = λ k. (k, refl, refl);
      same_alg = λ k. (refl, sym (locked k));
      same_options = (refl, refl);
      well = λ r. record {
        keyed = r.keyed;
        ready = λ p. record {
          with_key = keyed;
          with_alg = refl;
          alg_width = refl;
          chain_width = width p;
        };
      };
    }

    -- A chain that is started has a hash of its algorithm's width.
    restart-Stays :
        (alg : HashAlg) (v : Verifier)
        → v.have_pubkey ≡ true
        → (v.have_hash_alg ≡ true → v.hash_alg ≡ alg)
        → Stays (held v) (
            restart
              (chain_init_hash alg)
              sd
              msg
              (record v { hash_alg = alg; hash_len = hash_len alg; have_hash_alg = true })
              line)
    unfolding restart chain_init_hash
    restart-Stays alg v keyed locked = elim (Option-cases (chain_init_hash alg)) [
      | inl e ↦ rw e (record {
        keeps = of_alg-Keeps alg errored v.chain_hash v keyed locked (λ p. absurd (ground arith));
      })
      | inr (iv, e) ↦ rw e (
          after-Stays (verify_sd_msg_hash sd msg _ line)
            (of_alg-Keeps alg processing iv v keyed locked (λ p. wide.digest_width _ _ e))
            (verify-Stays wide sd msg line _))
    ]

    lock_alg-Stays :
        (found : Option HashAlg) (v : Verifier)
        → v.have_pubkey ≡ true
        → Stays (held v) (lock_alg found sd msg v line)
    unfolding lock_alg
    lock_alg-Stays none v keyed = broken-Stays v line (bad_hash_len (length sd.chain_hash))
    lock_alg-Stays (some alg) v keyed =
        if-Stays (v.have_hash_alg && not (alg_eq v.hash_alg alg))
          (broken-Stays v line (alg_changed v.hash_alg alg))
          (λ same. restart-Stays alg v keyed (λ have. ground (arith, alg_eq_sound v.hash_alg alg)))

    close_segment-Keeps : (v : Verifier) → Keeps (held v) (held (close_segment v line))
    unfolding close_segment
    close_segment-Keeps v =
        let w =
          if ltb 0 (unsigned_count v) && v.strict
          then add_error v line (unsigned_before_segment (unsigned_count v))
          else v in
        if-Keeps (is_processing v.state) (record w { last_signed_seq = 0 }) v
          (if-Keeps (ltb 0 (unsigned_count v) && v.strict)
            (add_error v line (unsigned_before_segment (unsigned_count v))) v
            (add_error-Keeps v line (unsigned_before_segment (unsigned_count v)))
            (Keeps-refl (held v)))
          (Keeps-refl (held v))

    init_with_key-Stays : (v : Verifier) → Stays (held v) (init_with_key sd msg v line)
    unfolding init_with_key
    init_with_key-Stays v = if-Stays (not v.have_pubkey) (broken-Stays v line no_pubkey) (λ keyed.
        if-Stays (not (bytes_eq sd.pubkey_fp v.pubkey_fp)) (broken-Stays v line init_fp_mismatch)
          (λ same.
            after-Stays (lock_alg _ sd msg (close_segment v line) line) (close_segment-Keeps v) (
              lock_alg-Stays (alg_from_hex_len (length sd.chain_hash * 2)) (close_segment v line)
                (((close_segment-Keeps v).same_key (ground arith)).0))))

    init_installed-Stays :
        {a : Held} (o : Outcome Verifier) → Stays a o → Stays a (init_installed o sd msg line)
    unfolding init_installed
    init_installed-Stays (aborted v) g =
        after-Stays (broken_off v) g.keeps (broken_off-Stays v line)
    init_installed-Stays (returned v) g =
        after-Stays (init_with_key sd msg v line) g.keeps (init_with_key-Stays v)

    init_anchor-Stays :
        (store : Option h.TrustStore) (have : Bool) (der : Bytes) (v : Verifier)
        → v.have_pubkey ≡ have
        → Stays (held v) (init_anchor store have sd msg der v line)
    unfolding init_anchor
    init_anchor-Stays (some store) false der v keyless =
        if-Stays (length der == 0) (broken-Stays v line cert_required) (λ given.
          init_installed-Stays (install_pubkey_from_cert store der v line)
            (install-Stays line v keyless store der))
    init_anchor-Stays (some store) true der v keyed = init_with_key-Stays v
    init_anchor-Stays none have der v same = init_with_key-Stays v

    pub handle_sd_init-Stays :
        (der : Bytes) (v : Verifier) → Stays (held v) (handle_sd_init sd msg der v line)
    unfolding handle_sd_init
    handle_sd_init-Stays der v =
        if-Stays (not sd.has_pubkey_fp) (broken-Stays v line init_without_fp)
          (λ f. init_anchor-Stays v.trust_store v.have_pubkey der v refl)
