-- ===== src/Verifier/State/Start.antt =====
-- The verifier that `verifier_init` gives, for each trust anchor.
use mathlib.Core.Path.{subst}
use mmhashchainsigs.Base.{
  Bool, Bytes, Option, [], arith, bind-some, false, if◌then◌else◌, inl, inr, none, refl, some, true,
  ◌≡◌, ◌⊎◌,
}
use mmhashchainsigs.Verifier.Entry.{KeyOf}
use mmhashchainsigs.Crypto.Host.{Host}
use mmhashchainsigs.Crypto.Keys.{pubkey_fingerprint}
use mmhashchainsigs.Pipeline.Restart.{loaded}
use mmhashchainsigs.Verifier.State.{
  Verifier, VerifierOpts, expect_init, init_from, verifier_init, with_ca_bundle, with_crl,
  with_pubkey,
}

module _ ⦃h : Host⦄ where
  -- A verifier that has read nothing, and that holds a key or a CA bundle.
  pub record Started (o : VerifierOpts) (v : Verifier) : Type 0 where
    pub at_start : v.state ≡ expect_init
    pub none_yet : v.errors ≡ []
    pub first_seq : v.next_seq ≡ 1
    pub none_signed : v.last_signed_seq ≡ 0
    pub same_strict : v.strict ≡ o.strict
    pub keyed : v.have_pubkey ≡ true → KeyOf v.pubkey v.pubkey_fp
    pub anchor : (v.have_pubkey ≡ true) ⊎ ((bundle : Bytes) × (o.ca_bundle_path ≡ some bundle))

  same : {x y : Verifier} → some x ≡ some y → x ≡ y
  same e = cc

  with_pubkey-Started :
      (o : VerifierOpts) (found : Option h.Pkey) {v : Verifier}
      → with_pubkey o.strict found ≡ some v
      → Started o v
  unfolding with_pubkey
  with_pubkey-Started o found e =
      let (key, have, e1) = bind-some found _ e in
      let (fp, printed, e2) = bind-some (pubkey_fingerprint key) _ e1 in
      record {
        at_start = ground arith;
        none_yet = ground arith;
        first_seq = ground arith;
        none_signed = ground arith;
        same_strict = ground arith;
        keyed = λ k. (
          key,
          subst (λ (x : Verifier). x.pubkey ≡ some key) (same e2) refl,
          subst (λ (x : Verifier). pubkey_fingerprint key ≡ some x.pubkey_fp) (same e2) printed,
        );
        anchor = inl (ground arith);
      }

  init_from-Started :
      (o : VerifierOpts) (key cert bundle : Option Bytes) {v : Verifier}
      → o.ca_bundle_path ≡ bundle
      → init_from key cert bundle o.crl_file o.strict ≡ some v
      → Started o v
  unfolding init_from with_ca_bundle
  init_from-Started o (some path) cert bundle b e = with_pubkey-Started o _ e
  init_from-Started o none (some path) bundle b e = with_pubkey-Started o _ e
  init_from-Started o none none (some bundle) b e =
      let (store, made, e1) = bind-some h.new_store _ e in
      let (loaded, read, e2) = bind-some (h.load_file store bundle) _ e1 in
      let (ready, checked, e3) = bind-some (with_crl o.crl_file loaded) _ e2 in
      record {
        at_start = ground arith;
        none_yet = ground arith;
        first_seq = ground arith;
        none_signed = ground arith;
        same_strict = ground arith;
        keyed = λ k. absurd (ground arith);
        anchor = inr (bundle, b);
      }
  init_from-Started o none none none b e = absurd (ground arith)

  if_some :
      (b : Bool) (o : Option Verifier) {v : Verifier}
      → (if b then o else none) ≡ some v
      → o ≡ some v
  if_some true o e = e
  if_some false o e = absurd (ground arith)

  pub verifier_init-Started :
      (o : VerifierOpts) {v : Verifier} → verifier_init o ≡ some v → Started o v
  unfolding verifier_init
  verifier_init-Started o e =
      init_from-Started o o.pubkey_path o.cert_path o.ca_bundle_path refl (if_some _ _ e)
