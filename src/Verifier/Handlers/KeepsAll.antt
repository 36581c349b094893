-- ===== src/Verifier/Handlers/KeepsAll.antt =====
-- Every handler keeps the key, the algorithm and the options.
use mmhashchainsigs.Base.{Bytes, bytes_eq, if◌then◌else◌, inc64, not, sub64, ℕ, ◌&&◌, ◌==◌}
use mmhashchainsigs.Crypto.Host.{Host}
use mmhashchainsigs.Crypto.Keys.{Verdict, bad, broken, good}
use mmhashchainsigs.Format.Parse.{SdRecord}
use mmhashchainsigs.Verifier.Errors.{
  continue_before_init, continue_fp_mismatch, msg_before_init, sig_before_init, sig_error,
  sig_from_mismatch, sig_invalid, sig_missing, sig_to_mismatch,
}
use mmhashchainsigs.Verifier.Handlers.{
  Outcome, aborted, check_range, handle_sd_continue, handle_sd_msg, handle_sd_sig, is_processing,
  judge, key_verdict, returned, sig_hashed, verify_sd_msg_hash,
}
use mmhashchainsigs.Verifier.Handlers.Keeps.{
  Held, IsWide, Keeps, Keeps-refl, Keeps-trans, Stays, add_error-Keeps, after-Stays, broken-Stays,
  held, if-Keeps, if-Stays, reported-Stays, verify-Stays,
}
use mmhashchainsigs.Verifier.State.{Verifier, add_error}

module _ ⦃h : Host⦄ (wide : IsWide) (sd : SdRecord) (msg : Bytes) (line : ℕ) where
  pub handle_sd_msg-Stays : (v : Verifier) → Stays (held v) (handle_sd_msg sd msg v line)
  unfolding handle_sd_msg
  handle_sd_msg-Stays v =
      if-Stays (not (is_processing v.state)) (broken-Stays v line msg_before_init)
        (λ p. verify-Stays wide sd msg line v)

  judge-Keeps : (x : Verdict) (v : Verifier) → Keeps (held v) (held (judge x sd v line))
  unfolding judge
  judge-Keeps good v = Keeps-refl (held v)
  judge-Keeps bad v = add_error-Keeps v line (sig_invalid sd.seq_from sd.seq_to)
  judge-Keeps broken v = add_error-Keeps v line (sig_error sd.seq_from sd.seq_to)

  check_range-Keeps : (v : Verifier) → Keeps (held v) (held (check_range sd v line))
  unfolding check_range
  check_range-Keeps v =
      let e = sig_from_mismatch sd.seq_from (inc64 v.last_signed_seq) in
      let w = if sd.seq_from == inc64 v.last_signed_seq then v else add_error v line e in
      let f = sig_to_mismatch sd.seq_to (sub64 v.next_seq 1) in
      Keeps-trans {a = held v} {b = held w}
        (if-Keeps (sd.seq_from == inc64 v.last_signed_seq) v (add_error v line e)
          (Keeps-refl (held v)) (add_error-Keeps v line e))
        (if-Keeps (sd.seq_to == sub64 v.next_seq 1) w (add_error w line f) (Keeps-refl (held w))
          (add_error-Keeps w line f))

  sig_hashed-Stays : {a : Held} (o : Outcome Verifier) → Stays a o → Stays a (sig_hashed o sd line)
  unfolding sig_hashed
  sig_hashed-Stays (aborted v) g = g
  sig_hashed-Stays (returned v) g =
      if-Stays (not sd.has_signature)
        (after-Stays (returned (add_error v line sig_missing)) g.keeps
          (reported-Stays v line sig_missing))
        (λ s. record {
          keeps = Keeps-trans g.keeps (
              Keeps-trans (check_range-Keeps v) (
                judge-Keeps (key_verdict v.pubkey v.chain_hash sd.signature)
                  (check_range sd v line)));
        })

  pub handle_sd_sig-Stays : (v : Verifier) → Stays (held v) (handle_sd_sig sd msg v line)
  unfolding handle_sd_sig
  handle_sd_sig-Stays v =
      if-Stays (not (is_processing v.state)) (reported-Stays v line sig_before_init)
        (λ p. sig_hashed-Stays (verify_sd_msg_hash sd msg v line) (verify-Stays wide sd msg line v))

  pub handle_sd_continue-Stays : (v : Verifier) → Stays (held v) (handle_sd_continue sd msg v line)
  unfolding handle_sd_continue
  handle_sd_continue-Stays v =
      if-Stays (not (is_processing v.state)) (reported-Stays v line continue_before_init) (λ p.
        if-Stays (sd.has_pubkey_fp && not (bytes_eq sd.pubkey_fp v.pubkey_fp))
          (reported-Stays v line continue_fp_mismatch)
          (λ f. record {
            keeps =
                (verify-Stays wide sd msg line
                  (record v { segment_count = inc64 v.segment_count })).keeps;
          }))
