-- ===== src/Verifier/Handlers/Steps.antt =====
-- Each handler without an error makes a step of the chain.
use mathlib.Core.Path.{subst}
use mmhashchainsigs.Base.{
  Bytes, [], ap, arith, bytes_eq, false, if◌then◌else◌, inc64, not, refl, some, sub64, sym, ℕ, ◌&&◌,
  ◌==◌, ◌∙◌, ◌≡◌, inl, inr, ◌⊎◌,
}
use mmhashchainsigs.Crypto.Alg.{HashAlg}
use mmhashchainsigs.Crypto.Hash.Laws.{IsDigest}
use mmhashchainsigs.Crypto.Host.{Host}
use mmhashchainsigs.Crypto.Keys.{Verdict, bad, broken, good, hcs_verify}
use mmhashchainsigs.Format.Parse.{SdRecord}
use mmhashchainsigs.Verifier.Entry.{
  Entry, Keyed, Step, installed, kept, links, opens, signs, Recorded,
}
use mmhashchainsigs.Verifier.Errors.{
  continue_before_init, continue_fp_mismatch, msg_before_init, sig_before_init, sig_error,
  sig_from_mismatch, sig_invalid, sig_missing, sig_to_mismatch,
}
use mmhashchainsigs.Verifier.Handlers.{
  Outcome, aborted, check_range, handle_sd_continue, handle_sd_msg, handle_sd_sig, is_processing,
  judge, key_verdict, returned, sig_hashed, verify_sd_msg_hash,
}
use mmhashchainsigs.Verifier.Handlers.Accept.{advanced}
use mmhashchainsigs.Verifier.Handlers.Clean.{
  Clean, Clean-weaken, aborted-Clean, broken-Clean, if-Clean, reported-Clean, returned-Clean,
  some-errors, verify-Clean,
}
use mmhashchainsigs.Verifier.Handlers.Sound.{
  Agrees, add_error-some, check_range_sound, judge_sound, key_verdict_sound,
}
use mmhashchainsigs.Verifier.State.{
  Verifier, VerifierState, add_error, done, errored, expect_init, processing, unsigned_count,
}

module _ ⦃h : Host⦄ where
  -- The step that a handler makes from a state without errors.
  abbrev pub Steps : SdRecord → Verifier → Bytes → Bytes → Verifier → Type 0
  Steps sd v der payload w = (v.errors ≡ []) × (s : Step v der payload w) × Recorded sd s.entry

  -- The type of an element that makes a step without a signature.
  abbrev pub IsPlainType : SdRecord → Type 0
  IsPlainType sd = (sd.sd_type ≡ 0) ⊎ (sd.sd_type ≡ b'C')

  open_state : (s : VerifierState) → not (is_processing s) ≡ false → s ≡ processing
  unfolding is_processing
  open_state expect_init e = absurd (ground arith)
  open_state processing e = refl
  open_state done e = absurd (ground arith)
  open_state errored e = absurd (ground arith)

  linked :
      (sd : SdRecord) (msg der : Bytes) (v : Verifier)
      → IsPlainType sd
      → v.state ≡ processing
      → Agrees sd msg v
      → (s : Step v der msg (advanced v sd.chain_hash)) × Recorded sd s.entry
  linked sd msg der v t p a = (
    record {
      entry =
          links (record { inside = p; hashed = a.same_hash; counted = refl; same_alg = refl }) refl;
      keys = kept refl refl;
      same_store = refl;
      same_strict = refl;
      in_segment = p;
    },
    record { of_type = (t, a.same_seq); same_hash = refl },
  )

  module _ {hash : HashAlg → Bytes → Bytes} (d : IsDigest hash) (sd : SdRecord) (msg der : Bytes)
      (line : ℕ) where
    verify-Steps :
        (v : Verifier)
        → IsPlainType sd
        → v.state ≡ processing
        → Clean (Steps sd v der msg) (verify_sd_msg_hash sd msg v line)
    verify-Steps v t p =
        Clean-weaken
          (λ w (e, (a, after)).
            let (s, r) =
              subst (λ (x : Verifier). (s : Step v der msg x) × Recorded sd s.entry) (sym after)
                (linked sd msg der v t p a) in
            (e, s, r))
          (verify_sd_msg_hash sd msg v line) (verify-Clean d sd msg v line)

    pub handle_sd_msg-Steps :
        (v : Verifier) → sd.sd_type ≡ 0 → Clean (Steps sd v der msg) (handle_sd_msg sd msg v line)
    unfolding handle_sd_msg
    handle_sd_msg-Steps v t =
        if-Clean (not (is_processing v.state)) (λ e. broken-Clean v line msg_before_init)
          (λ e. verify-Steps v (inl t) (open_state v.state e))

    -- The state of a further segment, in which only the count of segments is new.
    abbrev counted : Verifier → Verifier
    counted v = record v { segment_count = inc64 v.segment_count }

    counted_entry : (v w : Verifier) → Entry (counted v) msg w → Entry v msg w
    unfolding unsigned_count
    counted_entry v w (opens o) = opens (record {
      start = o.start;
      initial = o.initial;
      hashed = o.hashed;
      counted = o.counted;
      closed = o.closed;
    })
    counted_entry v w (links l k) =
        links
          (record {
            inside = l.inside;
            hashed = l.hashed;
            counted = l.counted;
            same_alg = l.same_alg;
          })
          k
    counted_entry v w (signs l k) =
        signs
          (record {
            inside = l.inside;
            hashed = l.hashed;
            counted = l.counted;
            same_alg = l.same_alg;
          })
          (record {
            key = k.key;
            sig = k.sig;
            from = k.from;
            has_key = k.has_key;
            accepted = k.accepted;
            from_next = k.from_next;
            up_to = k.up_to;
          })

    counted_entry-Recorded :
        (v w : Verifier) (e : Entry (counted v) msg w)
        → Recorded sd e
        → Recorded sd (counted_entry v w e)
    unfolding counted_entry
    counted_entry-Recorded v w (opens o) r = record { of_type = r.of_type; same_hash = r.same_hash }
    counted_entry-Recorded v w (links l k) r = record {
      of_type = r.of_type;
      same_hash = r.same_hash;
    }
    counted_entry-Recorded v w (signs l k) r = record {
      of_type = r.of_type;
      same_hash = r.same_hash;
    }

    counted-Step :
        (v w : Verifier) (s : Step (counted v) der msg w)
        → Recorded sd s.entry
        → (t : Step v der msg w) × Recorded sd t.entry
    counted-Step v w s r = (
      record {
        entry = counted_entry v w s.entry;
        keys = same_keys s.keys;
        same_store = s.same_store;
        same_strict = s.same_strict;
        in_segment = s.in_segment;
      },
      counted_entry-Recorded v w s.entry r,
    )
      where
        same_keys : Keyed (counted v) der w → Keyed v der w
        same_keys (kept k b) = kept k b
        same_keys (installed c) = installed (record {
          store = c.store;
          cert = c.cert;
          key = c.key;
          has_store = c.has_store;
          no_key = c.no_key;
          parsed = c.parsed;
          is_trusted = c.is_trusted;
          of_cert = c.of_cert;
          holds = c.holds;
          held = c.held;
        })

    pub handle_sd_continue-Steps :
        (v : Verifier)
        → sd.sd_type ≡ b'C'
        → Clean (Steps sd v der msg) (handle_sd_continue sd msg v line)
    unfolding handle_sd_continue
    handle_sd_continue-Steps v t =
        if-Clean (not (is_processing v.state)) (λ e. reported-Clean v line continue_before_init)
          (λ e.
            if-Clean (sd.has_pubkey_fp && not (bytes_eq sd.pubkey_fp v.pubkey_fp))
              (λ f. reported-Clean v line continue_fp_mismatch)
              (λ f.
                Clean-weaken (λ w (c, s, r). let (s', r') = counted-Step v w s r in (c, s', r'))
                  (verify_sd_msg_hash sd msg (counted v) line)
                  (verify-Steps (counted v) (inr t) (open_state v.state e))))

  -- The state behind a signature.
  abbrev after_sig : SdRecord → Verifier → Verifier
  after_sig sd u = record u { last_signed_seq = sd.seq_to; sig_count = inc64 u.sig_count }

  check_range_same :
      (sd : SdRecord) (u : Verifier) (line : ℕ)
      → (check_range sd u line).errors ≡ []
      → check_range sd u line ≡ u
  unfolding check_range
  check_range_same sd u line clean =
      let w =
        if sd.seq_from == inc64 u.last_signed_seq
        then u
        else add_error u line (sig_from_mismatch sd.seq_from (inc64 u.last_signed_seq)) in
      ground (
        arith,
        add_error-some w line (sig_to_mismatch sd.seq_to (sub64 u.next_seq 1)),
        add_error-some u line (sig_from_mismatch sd.seq_from (inc64 u.last_signed_seq)),
      )

  judge_same :
      (x : Verdict) (sd : SdRecord) (u : Verifier) (line : ℕ)
      → (judge x sd u line).errors ≡ []
      → judge x sd u line ≡ after_sig sd u
  unfolding judge
  judge_same good sd u line clean = refl
  judge_same bad sd u line clean =
      absurd (some-errors u line (sig_invalid sd.seq_from sd.seq_to) clean)
  judge_same broken sd u line clean =
      absurd (some-errors u line (sig_error sd.seq_from sd.seq_to) clean)

  -- What a judged signature has shown of the state behind its message.
  record Judged (sd : SdRecord) (u w : Verifier) : Type 0 where
    from_next : sd.seq_from ≡ inc64 u.last_signed_seq
    up_to : sd.seq_to ≡ sub64 u.next_seq 1
    verdict : key_verdict u.pubkey u.chain_hash sd.signature ≡ good
    after : w ≡ after_sig sd u

  sig_hashed-Clean :
      {Q : Verifier → Type 0} (sd : SdRecord) (line : ℕ) (o : Outcome Verifier)
      → Clean Q o
      → Clean (λ w. (u : Verifier) × Q u × Judged sd u w) (sig_hashed o sd line)
  unfolding sig_hashed
  sig_hashed-Clean sd line (aborted u) c = aborted-Clean u (c.given_up u refl)
  sig_hashed-Clean sd line (returned u) c =
      if-Clean (not sd.has_signature) (λ e. reported-Clean u line sig_missing)
        (λ e.
          returned-Clean
            (judge (key_verdict u.pubkey u.chain_hash sd.signature) sd (check_range sd u line) line)
            (λ clean.
              let (accepted, checked) =
                judge_sound (key_verdict u.pubkey u.chain_hash sd.signature) sd
                  (check_range sd u line) line clean in
              let (from, to, none_before) = check_range_sound sd u line checked in
              (
                u,
                c.taken u refl none_before,
                record {
                  from_next = from;
                  up_to = to;
                  verdict = accepted;
                  after =
                      judge_same (key_verdict u.pubkey u.chain_hash sd.signature) sd
                        (check_range sd u line) line clean
                      ∙ ap (after_sig sd) (check_range_same sd u line checked);
                },
              )))

  judge-Step :
      (sd : SdRecord) (msg der : Bytes) (v u w : Verifier)
      → v.state ≡ processing
      → Agrees sd msg v
      → u ≡ advanced v sd.chain_hash
      → Judged sd u w
      → sd.sd_type ≡ b'S'
      → (s : Step v der msg w) × Recorded sd s.entry
  judge-Step sd msg der v u w p a e j t =
      subst (λ (x : Verifier). (s : Step v der msg x) × Recorded sd s.entry) (sym (at_v.after))
        (
          record {
            entry =
                signs (record { inside = p; hashed = a.same_hash; counted = refl; same_alg = refl })
                  (record {
                    key = k.0;
                    sig = sd.signature;
                    from = sd.seq_from;
                    has_key = k.1;
                    accepted = k.2;
                    from_next = at_v.from_next;
                    up_to = at_v.up_to;
                  });
            keys = kept refl refl;
            same_store = refl;
            same_strict = refl;
            in_segment = p;
          },
          record { of_type = (t, a.same_seq, refl, refl, refl); same_hash = refl },
        )
    where
      at_v : Judged sd (advanced v sd.chain_hash) w
      at_v = subst (λ (x : Verifier). Judged sd x w) e j

      k :
          (key : h.Pkey) × (v.pubkey ≡ some key)
          × (hcs_verify key sd.chain_hash sd.signature ≡ good)
      k = key_verdict_sound v.pubkey sd.chain_hash sd.signature at_v.verdict

  pub handle_sd_sig-Steps :
      {hash : HashAlg → Bytes → Bytes} (d : IsDigest hash) (sd : SdRecord) (msg der : Bytes)
      (line : ℕ) (v : Verifier)
      → sd.sd_type ≡ b'S'
      → Clean (Steps sd v der msg) (handle_sd_sig sd msg v line)
  unfolding handle_sd_sig
  handle_sd_sig-Steps d sd msg der line v t =
      if-Clean (not (is_processing v.state)) (λ e. reported-Clean v line sig_before_init)
        (λ e.
          Clean-weaken
            (λ w (u, (c, (a, after)), j).
              let (s, r) = judge-Step sd msg der v u w (open_state v.state e) a after j t in
              (c, s, r))
            (sig_hashed (verify_sd_msg_hash sd msg v line) sd line)
            (sig_hashed-Clean sd line (verify_sd_msg_hash sd msg v line)
              (verify-Clean d sd msg v line)))
