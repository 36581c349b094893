-- ===== src/Verifier/Handlers/StepsInit.antt =====
-- The INIT handler without an error opens a chain: the part behind the trust anchor.
use mathlib.Core.Path.{subst}
use mmhashchainsigs.Base.{
  Bool-cases, Bytes, Option, [], ap, arith, bytes_eq, false, if_false, if_true, if◌then◌else◌, inl,
  inr, length, ltb, none, not, refl, some, sym, ℕ, ◌&&◌, ◌*◌, ◌∙◌, ◌≡◌, ◌≢◌, ◌⊎◌,
}
use mmhashchainsigs.Crypto.Alg.{HashAlg, alg_eq, alg_from_hex_len}
use mmhashchainsigs.Crypto.Hash.{chain_init_hash, chain_iv}
use mmhashchainsigs.Crypto.Hash.Laws.{IsDigest}
use mmhashchainsigs.Crypto.Host.{Host}
use mmhashchainsigs.Format.Parse.{SdRecord}
use mmhashchainsigs.Verifier.Entry.{Opens, Step, kept, opens, Recorded}
use mmhashchainsigs.Verifier.Errors.{
  alg_changed, bad_hash_len, init_fp_mismatch, no_pubkey, unsigned_before_segment,
}
use mmhashchainsigs.Verifier.Handlers.{
  close_segment, init_with_key, is_processing, lock_alg, restart, verify_sd_msg_hash,
}
use mmhashchainsigs.Verifier.Handlers.Accept.{advanced, opened}
use mmhashchainsigs.Verifier.Handlers.Clean.{
  Clean, Clean-weaken, broken-Clean, if-Clean, verify-Clean,
}
use mmhashchainsigs.Verifier.Handlers.Sound.{Agrees, add_error-some}
use mmhashchainsigs.Verifier.State.{Verifier, VerifierState, add_error, processing, unsigned_count}

module _ ⦃h : Host⦄ where
  -- What neither an error nor the end of a segment changes.
  pub record SameAnchor (v w : Verifier) : Type 0 where
    pub same_key : w.pubkey ≡ v.pubkey
    pub same_held : w.have_pubkey ≡ v.have_pubkey
    pub same_store : w.trust_store ≡ v.trust_store
    pub same_strict : w.strict ≡ v.strict

  -- What the end of a segment leaves where no error is recorded.
  record Closed (v u : Verifier) : Type 0 where
    anchor : SameAnchor v u
    before : v.errors ≡ []
    tail :
        ((v.state ≢ processing) × (u.last_signed_seq ≡ v.last_signed_seq))
        ⊎ ((u.last_signed_seq ≡ 0) × ((v.strict ≡ false) ⊎ (unsigned_count v ≡ 0)))

  same_anchor : (v : Verifier) → SameAnchor v v
  same_anchor v = record {
    same_key = refl;
    same_held = refl;
    same_store = refl;
    same_strict = refl;
  }

  no_tail :
      (v : Verifier) (line n : ℕ)
      → (if ltb 0 n && v.strict then add_error v line (unsigned_before_segment n) else v).errors
        ≡ []
      → ((if ltb 0 n && v.strict then add_error v line (unsigned_before_segment n) else v) ≡ v)
        × (v.errors ≡ [])
        × ((v.strict ≡ false) ⊎ (n ≡ 0))
  no_tail v line n c = ground (arith, add_error-some v line (unsigned_before_segment n))

  processing_state : (s : VerifierState) → is_processing s ≡ false → s ≢ processing
  unfolding is_processing
  processing_state s e = λ p. ground arith

  close_segment-Closed :
      (v : Verifier) (line : ℕ)
      → (close_segment v line).errors ≡ []
      → Closed v (close_segment v line)
  unfolding close_segment
  close_segment-Closed v line c =
      let n = unsigned_count v in
      let checked : Verifier =
        if ltb 0 n && v.strict then add_error v line (unsigned_before_segment n) else v in
      elim (Bool-cases (is_processing v.state)) [
        | inl e ↦
            let at_end : close_segment v line ≡ record checked { last_signed_seq = 0 } =
              if_true _ _ e in
            let (same, before, signed) =
              no_tail v line n (sym (ap (λ (x : Verifier). x.errors) at_end) ∙ c) in
            subst (λ (x : Verifier). Closed v x)
              (sym (at_end ∙ ap (λ (x : Verifier). record x { last_signed_seq = 0 }) same))
              (record {
                anchor = record {
                  same_key = refl;
                  same_held = refl;
                  same_store = refl;
                  same_strict = refl;
                };
                before = before;
                tail = inr (refl, signed);
              })
        | inr e ↦
            let unchanged : close_segment v line ≡ v = if_false _ _ e in
            subst (λ (x : Verifier). Closed v x) (sym unchanged)
              (record {
                anchor = same_anchor v;
                before = sym (ap (λ (x : Verifier). x.errors) unchanged) ∙ c;
                tail = inl (processing_state v.state e, refl);
              })
      ]

  module _ {hash : HashAlg → Bytes → Bytes} (d : IsDigest hash) (sd : SdRecord) (msg : Bytes)
      (line : ℕ) where
    -- The state behind an INIT, from the one in which its segment starts.
    record Opened (v w : Verifier) : Type 0 where
      alg : HashAlg
      start : Bytes
      initial : chain_init_hash alg ≡ some start
      agrees : Agrees sd msg (opened alg start v)
      after : w ≡ advanced (opened alg start v) sd.chain_hash

    initial_hash : (alg : HashAlg) → chain_init_hash alg ≡ some (hash alg chain_iv)
    unfolding chain_init_hash
    initial_hash alg = d.digest_total alg chain_iv

    lock_alg-Clean :
        (found : Option HashAlg) (v : Verifier)
        → Clean (λ w. (v.errors ≡ []) × Opened v w) (lock_alg found sd msg v line)
    unfolding lock_alg restart
    lock_alg-Clean none v = broken-Clean v line (bad_hash_len (length sd.chain_hash))
    lock_alg-Clean (some alg) v =
        if-Clean (v.have_hash_alg && not (alg_eq v.hash_alg alg))
          (λ e. broken-Clean v line (alg_changed v.hash_alg alg))
          (λ e. rw (initial_hash alg) (
            Clean-weaken
              (λ w (c, (a, after)). (
                c,
                record {
                  alg = alg;
                  start = hash alg chain_iv;
                  initial = initial_hash alg;
                  agrees = a;
                  after = after;
                },
              ))
              (verify_sd_msg_hash sd msg (opened alg (hash alg chain_iv) v) line)
              (verify-Clean d sd msg (opened alg (hash alg chain_iv) v) line)))

    -- A segment that is opened from a state with a key.
    pub record OpenedFrom (v w : Verifier) : Type 0 where
      pub opening : Opens v msg w
      pub anchor : SameAnchor v w
      pub in_segment : w.state ≡ processing
      pub number : sd.seq ≡ 1
      pub same_hash : w.chain_hash ≡ sd.chain_hash

    restart-OpenedFrom : (v u w : Verifier) → Closed v u → Opened u w → OpenedFrom v w
    restart-OpenedFrom v u w c o =
        subst (λ (x : Verifier). OpenedFrom v x) (sym o.after)
          (record {
            opening = record {
              start = o.start;
              initial = o.initial;
              hashed = o.agrees.same_hash;
              counted = refl;
              closed = c.tail;
            };
            anchor = record {
              same_key = c.anchor.same_key;
              same_held = c.anchor.same_held;
              same_store = c.anchor.same_store;
              same_strict = c.anchor.same_strict;
            };
            in_segment = refl;
            number = o.agrees.same_seq;
            same_hash = refl;
          })

    pub init_with_key-OpenedFrom :
        (v : Verifier) → Clean (λ w. (v.errors ≡ []) × OpenedFrom v w) (init_with_key sd msg v line)
    unfolding init_with_key
    init_with_key-OpenedFrom v =
        if-Clean (not v.have_pubkey) (λ e. broken-Clean v line no_pubkey)
          (λ e.
            if-Clean (not (bytes_eq sd.pubkey_fp v.pubkey_fp))
              (λ f. broken-Clean v line init_fp_mismatch)
              (λ f.
                let found = alg_from_hex_len (length sd.chain_hash * 2) in
                Clean-weaken
                  (λ w (c, o).
                    let closed = close_segment-Closed v line c in
                    (closed.before, restart-OpenedFrom v (close_segment v line) w closed o))
                  (lock_alg found sd msg (close_segment v line) line)
                  (lock_alg-Clean found (close_segment v line))))

    -- With the verifier's key.
    pub kept-Step :
        (der : Bytes) (v w : Verifier)
        → sd.sd_type ≡ b'I'
        → OpenedFrom v w
        → (s : Step v der msg w) × Recorded sd s.entry
    kept-Step der v w t o = (
      record {
        entry = opens o.opening;
        keys = kept o.anchor.same_key o.anchor.same_held;
        same_store = o.anchor.same_store;
        same_strict = o.anchor.same_strict;
        in_segment = o.in_segment;
      },
      record { of_type = (t, o.number); same_hash = o.same_hash },
    )
