-- ===== src/Cli/Lines/Anchor.antt =====
-- Where the key that a log was read with comes from.
use mmhashchainsigs.Base.{Bytes, List, inl, inr, refl, some, sym, ◌∙◌, ◌≡◌, ◌⊎◌}
use mmhashchainsigs.Cli.Lines.Trace.{Trace, no_lines, one_line}
use mmhashchainsigs.Crypto.Host.{Host, trusted}
use mmhashchainsigs.Crypto.Keys.{x509_get_pubkey}
use mmhashchainsigs.Verifier.Entry.{Keyed, installed, kept}
use mmhashchainsigs.Verifier.State.{Verifier}

module _ ⦃h : Host⦄ where
  -- The key is that of a certificate which the CA bundle of the verifier `v` trusts.
  pub record Vouched (v w : Verifier) : Type 0 where
    pub store : h.TrustStore
    pub der : Bytes
    pub cert : h.Cert
    pub key : h.Pkey
    pub has_store : v.trust_store ≡ some store
    pub parsed : h.d2i der ≡ some cert
    pub is_trusted : h.verify_cert store cert ≡ trusted
    pub of_cert : x509_get_pubkey cert ≡ some key
    pub holds : w.pubkey ≡ some key

  -- The key is the one that the verifier `v` started with, or that of a trusted certificate.
  abbrev pub IsAnchored : Verifier → Verifier → Type 0
  IsAnchored v w = (w.pubkey ≡ v.pubkey) ⊎ Vouched v w

  behind_line :
      (v u w : Verifier) (der : Bytes)
      → Keyed v der u
      → u.trust_store ≡ v.trust_store
      → IsAnchored u w
      → IsAnchored v w
  behind_line v u w der (kept k b) s (inl same) = inl (same ∙ k)
  behind_line v u w der (installed c) s (inl same) = inr (record {
    store = c.store;
    der = der;
    cert = c.cert;
    key = c.key;
    has_store = c.has_store;
    parsed = c.parsed;
    is_trusted = c.is_trusted;
    of_cert = c.of_cert;
    holds = same ∙ c.holds;
  })
  behind_line v u w der k s (inr c) = inr (record {
    store = c.store;
    der = c.der;
    cert = c.cert;
    key = c.key;
    has_store = sym s ∙ c.has_store;
    parsed = c.parsed;
    is_trusted = c.is_trusted;
    of_cert = c.of_cert;
    holds = c.holds;
  })

  pub Trace-IsAnchored : {v w : Verifier} {ls : List Bytes} → Trace v ls w → IsAnchored v w
  Trace-IsAnchored no_lines = inl refl
  Trace-IsAnchored (one_line {v} {u} {w} r t) =
      behind_line v u w _ r.step.keys r.step.same_store (Trace-IsAnchored t)
