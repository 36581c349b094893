-- ===== src/Verifier/Handlers/Keeps.antt =====
-- What no line changes: the key and the algorithm, once they are known, and the options.
use mmhashchainsigs.Base.{
  Bool, Bytes, Option-cases, arith, bytes_eq, Option, ℕ, ◌∙◌, sym, false, if◌then◌else◌, inl, inr,
  leb, length, not, refl, some, true, ◌==◌, ◌≡◌,
}
use mmhashchainsigs.Verifier.Entry.{KeyOf}
use mmhashchainsigs.Crypto.Alg.{HashAlg, hash_len}
use mmhashchainsigs.Crypto.Hash.{hash_chain}
use mmhashchainsigs.Crypto.Host.{Host}
use mmhashchainsigs.Format.Parse.{SdRecord}
use mmhashchainsigs.Verifier.Errors.{VerifyIssue, hash_len_changed, hash_mismatch, seq_mismatch}
use mmhashchainsigs.Verifier.Handlers.{
  Outcome, aborted, broken_off, compare_hash, returned, verify_sd_msg_hash,
}
use mmhashchainsigs.Verifier.Handlers.Grows.{left_state}
use mmhashchainsigs.Verifier.Handlers.Sound.{hash_part, seq_checked, verify_lem}
use mmhashchainsigs.Verifier.State.{Verifier, VerifierState, add_error, max_errors, processing}

module _ ⦃h : Host⦄ where
  -- A digest has its documented width, where there is one.
  pub record IsWide : Type 0 where
    pub digest_width :
        (a : HashAlg) (m : Bytes) {r : Bytes} → h.digest a m ≡ some r → length r ≡ hash_len a

  -- The part of the state that a segment rests on.
  pub record Held : Type 0 where
    pub state : VerifierState
    pub have_pubkey : Bool
    pub pubkey : Option h.Pkey
    pub pubkey_fp : Bytes
    pub have_hash_alg : Bool
    pub hash_alg : HashAlg
    pub hash_len : ℕ
    pub chain_hash : Bytes
    pub trust_store : Option h.TrustStore
    pub strict : Bool

  abbrev pub held : Verifier → Held
  held v = record {
    state = v.state;
    have_pubkey = v.have_pubkey;
    pubkey = v.pubkey;
    pubkey_fp = v.pubkey_fp;
    have_hash_alg = v.have_hash_alg;
    hash_alg = v.hash_alg;
    hash_len = v.hash_len;
    chain_hash = v.chain_hash;
    trust_store = v.trust_store;
    strict = v.strict;
  }

  -- Inside a segment there are a key and an algorithm, and a chain hash of its width.
  pub record IsReady (a : Held) : Type 0 where
    pub with_key : a.have_pubkey ≡ true
    pub with_alg : a.have_hash_alg ≡ true
    pub alg_width : a.hash_len ≡ hash_len a.hash_alg
    pub chain_width : length a.chain_hash ≡ a.hash_len

  -- A key that is held is there, with its fingerprint.
  pub record IsWell (a : Held) : Type 0 where
    pub keyed : a.have_pubkey ≡ true → KeyOf a.pubkey a.pubkey_fp
    pub ready : a.state ≡ processing → IsReady a

  -- A key and an algorithm stay once they are there, the options always; a state inside a segment
  -- stays as it must be.
  pub record Keeps (a b : Held) : Type 0 where
    pub same_key :
        a.have_pubkey ≡ true
        → (b.have_pubkey ≡ true) × (b.pubkey ≡ a.pubkey) × (b.pubkey_fp ≡ a.pubkey_fp)
    pub same_alg : a.have_hash_alg ≡ true → (b.have_hash_alg ≡ true) × (b.hash_alg ≡ a.hash_alg)
    pub same_options : (b.trust_store ≡ a.trust_store) × (b.strict ≡ a.strict)
    pub well : IsWell a → IsWell b

  pub Keeps-refl : (a : Held) → Keeps a a
  Keeps-refl a = record {
    same_key = λ k. (k, refl, refl);
    same_alg = λ k. (k, refl);
    same_options = (refl, refl);
    well = λ w. w;
  }

  pub Keeps-trans : {a b c : Held} → Keeps a b → Keeps b c → Keeps a c
  Keeps-trans {a} {b} {c} f g = record {
    same_key = λ k.
        let (have, key, fp) = f.same_key k in
        let (have', key', fp') = g.same_key have in (have', key' ∙ key, fp' ∙ fp);
    same_alg = λ k.
        let (have, alg) = f.same_alg k in
        let (have', alg') = g.same_alg have in (have', alg' ∙ alg);
    same_options = (g.same_options.0 ∙ f.same_options.0, g.same_options.1 ∙ f.same_options.1);
    well = λ w. g.well (f.well w);
  }

  -- What a handler leaves.
  pub record Stays (a : Held) (o : Outcome Verifier) : Type 0 where
    pub keeps : Keeps a (held (left_state o))

  pub if-Keeps :
      {a : Held} (b : Bool) (x y : Verifier)
      → Keeps a (held x)
      → Keeps a (held y)
      → Keeps a (held (if b then x else y))
  if-Keeps true x y f g = f
  if-Keeps false x y f g = g

  pub if-Stays :
      {a : Held} (b : Bool) {x y : Outcome Verifier}
      → Stays a x
      → (b ≡ false → Stays a y)
      → Stays a (if b then x else y)
  if-Stays true f g = f
  if-Stays false f g = g refl

  pub after-Stays : {a b : Held} (o : Outcome Verifier) → Keeps a b → Stays b o → Stays a o
  after-Stays o e g = record { keeps = Keeps-trans e g.keeps }

  -- An error is recorded beside what is held.
  pub add_error-Keeps :
      (v : Verifier) (line : ℕ) (e : VerifyIssue) → Keeps (held v) (held (add_error v line e))
  unfolding add_error
  add_error-Keeps v line e =
      if-Keeps (leb max_errors (length v.errors)) _ _ (Keeps-refl (held v)) (Keeps-refl (held v))

  module _ (v : Verifier) (line : ℕ) where
    -- A state that gives up stands in no segment.
    pub broken_off-Stays : Stays (held v) (broken_off v)
    broken_off-Stays = record {
      keeps = record {
        same_key = λ k. (k, refl, refl);
        same_alg = λ k. (k, refl);
        same_options = (refl, refl);
        well = λ w. record { keyed = w.keyed; ready = λ p. absurd (ground arith) };
      };
    }

    pub reported-Stays : (e : VerifyIssue) → Stays (held v) (returned (add_error v line e))
    reported-Stays e = record { keeps = add_error-Keeps v line e }

    pub given_up-Stays : (e : VerifyIssue) → Stays (held v) (aborted (add_error v line e))
    given_up-Stays e = record { keeps = add_error-Keeps v line e }

  pub broken-Stays :
      (v : Verifier) (line : ℕ) (e : VerifyIssue) → Stays (held v) (broken_off (add_error v line e))
  broken-Stays v line e =
      after-Stays (broken_off (add_error v line e)) (add_error-Keeps v line e)
        (broken_off-Stays (add_error v line e) line)

  module _ (wide : IsWide) (sd : SdRecord) (msg : Bytes) (line : ℕ) where
    compare_hash-Keeps :
        (next : Bytes) (u : Verifier)
        → length next ≡ hash_len u.hash_alg
        → Keeps (held u) (held (compare_hash next sd u line))
    unfolding compare_hash
    compare_hash-Keeps next u width =
        let w = record u { chain_hash = next } in
        let x =
          if bytes_eq next sd.chain_hash then w else add_error w line (hash_mismatch sd.seq) in
        Keeps-trans {a = held u} {b = held w} {c = held x}
          (record {
            same_key = λ k. (k, refl, refl);
            same_alg = λ k. (k, refl);
            same_options = (refl, refl);
            well = λ r. record {
              keyed = r.keyed;
              ready = λ p.
                  let old = r.ready p in
                  record {
                    with_key = old.with_key;
                    with_alg = old.with_alg;
                    alg_width = old.alg_width;
                    chain_width = width ∙ sym old.alg_width;
                  };
            };
          })
          (if-Keeps (bytes_eq next sd.chain_hash) w (add_error w line (hash_mismatch sd.seq))
            (Keeps-refl (held w)) (add_error-Keeps w line (hash_mismatch sd.seq)))

    hash_part-Stays : (u : Verifier) → Stays (held u) (hash_part sd msg u line)
    unfolding hash_part hash_chain
    hash_part-Stays u =
        if-Stays (not (length sd.chain_hash == u.hash_len))
          (broken-Stays u line (hash_len_changed (length sd.chain_hash) u.hash_len))
          (λ same. elim (Option-cases (hash_chain u.hash_alg u.chain_hash u.next_seq msg)) [
            | inl e ↦ rw e (broken_off-Stays u line)
            | inr (next, e) ↦
                rw e (record { keeps = compare_hash-Keeps next u (wide.digest_width _ _ e) })
          ])

    seq_checked-Keeps : (v : Verifier) → Keeps (held v) (held (seq_checked sd v line))
    unfolding seq_checked
    seq_checked-Keeps v =
        if-Keeps (sd.seq == v.next_seq) v (add_error v line (seq_mismatch sd.seq v.next_seq))
          (Keeps-refl (held v)) (add_error-Keeps v line (seq_mismatch sd.seq v.next_seq))

    pub verify-Stays : (v : Verifier) → Stays (held v) (verify_sd_msg_hash sd msg v line)
    verify-Stays v = rw (verify_lem sd msg v line) (
        after-Stays (hash_part sd msg (seq_checked sd v line) line) (seq_checked-Keeps v)
          (hash_part-Stays (seq_checked sd v line)))
