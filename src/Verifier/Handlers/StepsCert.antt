-- ===== src/Verifier/Handlers/StepsCert.antt =====
-- The INIT handler without an error, with each trust anchor.
use mathlib.Core.Path.{subst}
use mmhashchainsigs.Base.{
  Bool, Bytes, Option, ap, arith, false, inl, inr, length, none, not, refl, some, sym, true, ℕ,
  ◌==◌, ◌∙◌, ◌≡◌, ◌⊎◌,
}
use mmhashchainsigs.Crypto.Alg.{HashAlg}
use mmhashchainsigs.Crypto.Hash.Laws.{IsDigest}
use mmhashchainsigs.Crypto.Host.{ChainStatus, Host, init_failed, trusted, untrusted}
use mmhashchainsigs.Crypto.Keys.{pubkey_fingerprint, x509_get_pubkey}
use mmhashchainsigs.Format.Parse.{SdRecord}
use mmhashchainsigs.Verifier.Entry.{Step, installed, opens, Recorded}
use mmhashchainsigs.Verifier.Errors.{
  cert_fp_failed, cert_key_unsupported, cert_required, cert_unparsed, cert_untrusted,
  init_without_fp, store_ctx_failed,
}
use mmhashchainsigs.Verifier.Handlers.{
  Outcome, aborted, handle_sd_init, init_anchor, init_installed, init_with_key, install_checked,
  install_fp, install_key, install_parsed, install_pubkey_from_cert, returned,
}
use mmhashchainsigs.Verifier.Handlers.Clean.{
  Clean, Clean-weaken, aborted-Clean, broken-Clean, if-Clean, returned-Clean, some-errors,
}
use mmhashchainsigs.Verifier.Handlers.Steps.{Steps}
use mmhashchainsigs.Verifier.Handlers.StepsInit.{OpenedFrom, init_with_key-OpenedFrom, kept-Step}
use mmhashchainsigs.Verifier.State.{Verifier, add_error, errored, unsigned_count}

module _ ⦃h : Host⦄ where
  -- A verifier with a key, or a host whose `X509_STORE_CTX_new` gives a context.
  abbrev pub IsReady : Verifier → Type 0
  IsReady v = (v.have_pubkey ≡ true) ⊎ (h.new_store_ctx ≡ true)

  -- The key of a certificate has been installed.
  record Installs (store : h.TrustStore) (der : Bytes) (v u : Verifier) : Type 0 where
    cert : h.Cert
    key : h.Pkey
    fp : Bytes
    parsed : h.d2i der ≡ some cert
    is_trusted : h.verify_cert store cert ≡ trusted
    of_cert : x509_get_pubkey cert ≡ some key
    after : u ≡ record v { pubkey = some key; pubkey_fp = fp; have_pubkey = true }

  module _ (store : h.TrustStore) (der : Bytes) (v : Verifier) (line : ℕ) where
    install_fp-Installs :
        (cert : h.Cert) (key : h.Pkey) (fp : Option Bytes)
        → h.d2i der ≡ some cert
        → h.verify_cert store cert ≡ trusted
        → x509_get_pubkey cert ≡ some key
        → Clean (Installs store der v) (install_fp fp key v line)
    unfolding install_fp
    install_fp-Installs cert key none p t k =
        aborted-Clean (add_error (record v { pubkey = none }) line cert_fp_failed)
          (some-errors (record v { pubkey = none }) line cert_fp_failed)
    install_fp-Installs cert key (some fp) p t k =
        returned-Clean (record v { pubkey = some key; pubkey_fp = fp; have_pubkey = true })
          (λ c. record {
            cert = cert;
            key = key;
            fp = fp;
            parsed = p;
            is_trusted = t;
            of_cert = k;
            after = refl;
          })

    install_key-Installs :
        (cert : h.Cert) (key : Option h.Pkey)
        → h.d2i der ≡ some cert
        → h.verify_cert store cert ≡ trusted
        → x509_get_pubkey cert ≡ key
        → Clean (Installs store der v) (install_key key v line)
    unfolding install_key
    install_key-Installs cert none p t k =
        aborted-Clean (add_error v line cert_key_unsupported)
          (some-errors v line cert_key_unsupported)
    install_key-Installs cert (some key) p t k =
        install_fp-Installs cert key (pubkey_fingerprint key) p t k

    install_checked-Installs :
        (cert : h.Cert) (status : ChainStatus)
        → h.d2i der ≡ some cert
        → h.verify_cert store cert ≡ status
        → Clean (Installs store der v) (install_checked status cert v line)
    unfolding install_checked
    install_checked-Installs cert init_failed p t =
        aborted-Clean (add_error v line store_ctx_failed) (some-errors v line store_ctx_failed)
    install_checked-Installs cert (untrusted why) p t =
        aborted-Clean (add_error v line (cert_untrusted why))
          (some-errors v line (cert_untrusted why))
    install_checked-Installs cert trusted p t =
        install_key-Installs cert (x509_get_pubkey cert) p t refl

    install_parsed-Installs :
        (found : Option h.Cert)
        → h.new_store_ctx ≡ true
        → h.d2i der ≡ found
        → Clean (Installs store der v) (install_parsed found store v line)
    unfolding install_parsed
    install_parsed-Installs none ctx p =
        aborted-Clean (add_error v line cert_unparsed) (some-errors v line cert_unparsed)
    install_parsed-Installs (some cert) ctx p =
        rw ctx (install_checked-Installs cert (h.verify_cert store cert) p refl)

    install-Installs :
        h.new_store_ctx ≡ true
        → Clean (Installs store der v) (install_pubkey_from_cert store der v line)
    unfolding install_pubkey_from_cert
    install-Installs ctx = install_parsed-Installs (h.d2i der) ctx refl

  module _ {hash : HashAlg → Bytes → Bytes} (d : IsDigest hash) (sd : SdRecord) (msg : Bytes)
      (line : ℕ) (t : sd.sd_type ≡ b'I') where
    installed-Step :
        (store : h.TrustStore) (der : Bytes) (v u w : Verifier)
        → v.trust_store ≡ some store
        → v.have_pubkey ≡ false
        → Installs store der v u
        → OpenedFrom d sd msg line u w
        → (v.errors ≡ u.errors) × (s : Step v der msg w) × Recorded sd s.entry
    unfolding unsigned_count
    installed-Step store der v u w s k m o =
        let at_v : OpenedFrom d sd msg line
            (record v { pubkey = some m.key; pubkey_fp = m.fp; have_pubkey = true }) w =
          subst (λ (x : Verifier). OpenedFrom d sd msg line x w) m.after o in
        (
          sym (ap (λ (x : Verifier). x.errors) m.after),
          record {
            entry = opens (record {
              start = at_v.opening.start;
              initial = at_v.opening.initial;
              hashed = at_v.opening.hashed;
              counted = at_v.opening.counted;
              closed = at_v.opening.closed;
            });
            keys = installed (record {
              store = store;
              cert = m.cert;
              key = m.key;
              has_store = s;
              no_key = k;
              parsed = m.parsed;
              is_trusted = m.is_trusted;
              of_cert = m.of_cert;
              holds = at_v.anchor.same_key;
              held = at_v.anchor.same_held;
            });
            same_store = at_v.anchor.same_store;
            same_strict = at_v.anchor.same_strict;
            in_segment = at_v.in_segment;
          },
          record { of_type = (t, at_v.number); same_hash = at_v.same_hash },
        )

    init_installed-Steps :
        (store : h.TrustStore) (der : Bytes) (v : Verifier) (o : Outcome Verifier)
        → v.trust_store ≡ some store
        → v.have_pubkey ≡ false
        → Clean (Installs store der v) o
        → Clean (Steps sd v der msg) (init_installed o sd msg line)
    unfolding init_installed
    init_installed-Steps store der v (aborted u) s k c =
        aborted-Clean (record u { state = errored }) (c.given_up u refl)
    init_installed-Steps store der v (returned u) s k c =
        Clean-weaken
          (λ w (clean, o).
            let (same, step, r) = installed-Step store der v u w s k (c.taken u refl clean) o in
            (same ∙ clean, step, r))
          (init_with_key sd msg u line) (init_with_key-OpenedFrom d sd msg line u)

    keyed-Steps :
        (der : Bytes) (v : Verifier) → Clean (Steps sd v der msg) (init_with_key sd msg v line)
    keyed-Steps der v =
        Clean-weaken (λ w (c, o). let (s, r) = kept-Step d sd msg line der v w t o in (c, s, r))
          (init_with_key sd msg v line) (init_with_key-OpenedFrom d sd msg line v)

    init_anchor-Steps :
        (anchor : Option h.TrustStore) (held : Bool) (der : Bytes) (v : Verifier)
        → v.trust_store ≡ anchor
        → v.have_pubkey ≡ held
        → IsReady v
        → Clean (Steps sd v der msg) (init_anchor anchor held sd msg der v line)
    unfolding init_anchor
    init_anchor-Steps none held der v s k r = keyed-Steps der v
    init_anchor-Steps (some store) true der v s k r = keyed-Steps der v
    init_anchor-Steps (some store) false der v s k (inl key) = absurd (ground arith)
    init_anchor-Steps (some store) false der v s k (inr ctx) =
        if-Clean (length der == 0) (λ e. broken-Clean v line cert_required)
          (λ e.
            init_installed-Steps store der v (install_pubkey_from_cert store der v line) s k
              (install-Installs store der v line ctx))

    pub handle_sd_init-Steps :
        (der : Bytes) (v : Verifier)
        → IsReady v
        → Clean (Steps sd v der msg) (handle_sd_init sd msg der v line)
    unfolding handle_sd_init
    handle_sd_init-Steps der v r =
        if-Clean (not sd.has_pubkey_fp) (λ e. broken-Clean v line init_without_fp)
          (λ e. init_anchor-Steps v.trust_store v.have_pubkey der v refl refl r)
