-- ===== src/Verifier/Line/Sound.antt =====
-- What it means that a line has been processed without an error.
use mathlib.Core.Path.{subst}
use mmhashchainsigs.Base.{
  Bool-cases, Bytes, Option, Res, [], ap, arith, failed, false, fault, inl, inr, none, not, ok,
  refl, some, ℕ, ◌&&◌, ◌==◌, ◌≡◌,
}
use mmhashchainsigs.Crypto.Alg.{HashAlg}
use mmhashchainsigs.Crypto.Hash.Laws.{IsDigest}
use mmhashchainsigs.Crypto.Host.{Host}
use mmhashchainsigs.Format.Element.{cert_der_max}
use mmhashchainsigs.Format.Parse.{SdRecord}
use mmhashchainsigs.Format.Strip.{extract_and_strip_cert_sd, strip_sd_from_line}
use mmhashchainsigs.Verifier.Entry.{Step, Recorded}
use mmhashchainsigs.Verifier.Errors.{
  VerifyIssue, expected_init, malformed_cert, missing_sd, unknown_type,
}
use mmhashchainsigs.Verifier.Handlers.{Outcome, broken_off, returned}
use mmhashchainsigs.Verifier.Handlers.Clean.{
  Clean, Clean-weaken, broken-Clean, if-Clean, reported-Clean, some-errors,
}
use mmhashchainsigs.Verifier.Handlers.Steps.{
  Steps, handle_sd_continue-Steps, handle_sd_msg-Steps, handle_sd_sig-Steps,
}
use mmhashchainsigs.Verifier.Handlers.StepsCert.{IsReady, handle_sd_init-Steps}
use mmhashchainsigs.Verifier.Line.{
  dispatch, is_expecting, is_over, msg_buf_len, process_line, with_cert, with_element, with_message,
}
use mmhashchainsigs.Verifier.State.{Verifier, add_error}

-- The certificate of a line, or no bytes.
abbrev pub der_bytes : Option Bytes → Bytes
der_bytes none = []
der_bytes (some der) = der

module _ ⦃h : Host⦄ where
  -- A line that was taken: its element and its message, the message without a certificate, and the
  -- step of the chain that this message makes.
  pub record ReadLine (v : Verifier) (text : Bytes) (beyond : ℕ) (w : Verifier) : Type 0 where
    pub msg : Bytes
    pub sd : SdRecord
    pub payload : Bytes
    pub der : Option Bytes
    pub split : strip_sd_from_line text beyond msg_buf_len ≡ ok (msg, sd)
    pub stripped : extract_and_strip_cert_sd msg msg_buf_len cert_der_max ≡ ok (payload, der)
    pub step : Step v (der_bytes der) payload w
    pub recorded : Recorded sd step.entry

  -- The same of a line that may leave the buffers: nothing is said of it then.
  pub record OkClean (P : Verifier → Type 0) (r : Res (Outcome Verifier)) : Type 0 where
    pub clean : (o : Outcome Verifier) → r ≡ ok o → Clean P o

  abbrev outcome_of : Outcome Verifier → Res (Outcome Verifier) → Outcome Verifier
  outcome_of o (ok x) = x
  outcome_of o _ = o

  module _ {P : Verifier → Type 0} where
    ok-OkClean : (o : Outcome Verifier) → Clean P o → OkClean P (ok o)
    ok-OkClean o c = record {
      clean = λ x e. subst (λ (y : Outcome Verifier). Clean P y) (ap (outcome_of o) e) c;
    }

    fault-OkClean : OkClean P fault
    fault-OkClean = record { clean = λ x e. absurd (ground arith) }

  OkClean-weaken :
      {P Q : Verifier → Type 0} (f : (w : Verifier) → P w → Q w) (r : Res (Outcome Verifier))
      → OkClean P r
      → OkClean Q r
  OkClean-weaken f r c = record { clean = λ o e. Clean-weaken f o (c.clean o e) }

  add_error-IsReady :
      (v : Verifier) (line : ℕ) (e : VerifyIssue) → IsReady v → IsReady (add_error v line e)
  unfolding add_error
  add_error-IsReady v line e k = ground arith

  module _ {hash : HashAlg → Bytes → Bytes} (d : IsDigest hash) (line : ℕ) where
    dispatch-Steps :
        (sd : SdRecord) (msg der : Bytes) (v : Verifier)
        → IsReady v
        → Clean (Steps sd v der msg) (dispatch sd msg der v line)
    unfolding dispatch
    dispatch-Steps sd msg der v k =
        if-Clean (sd.sd_type == b'I')
          (λ e. handle_sd_init-Steps d sd msg line (ground (arith, e)) der v k)
          (λ e.
            if-Clean (sd.sd_type == b'S')
              (λ f. handle_sd_sig-Steps d sd msg der line v (ground (arith, f)))
              (λ f.
                if-Clean (sd.sd_type == b'C')
                  (λ g. handle_sd_continue-Steps d sd msg der line v (ground (arith, g)))
                  (λ g.
                    if-Clean (sd.sd_type == 0)
                      (λ i. handle_sd_msg-Steps d sd msg der line v (ground (arith, i)))
                      (λ i. reported-Clean v line unknown_type))))

    with_message-Steps :
        (sd : SdRecord) (msg der : Bytes) (v : Verifier)
        → IsReady v
        → Clean (Steps sd v der msg) (with_message sd msg der v line)
    unfolding with_message
    with_message-Steps sd msg der v k =
        if-Clean (is_expecting v.state && not (sd.sd_type == b'I'))
          (λ e. broken-Clean v line expected_init) (λ e. dispatch-Steps sd msg der v k)

    -- A message behind a malformed certificate element leaves an error.
    with_malformed :
        {P : Verifier → Type 0} (sd : SdRecord) (msg : Bytes) (v : Verifier)
        → IsReady v
        → Clean P (with_message sd msg [] (add_error v line malformed_cert) line)
    with_malformed sd msg v k =
        Clean-weaken (λ w (c, s, r). absurd (some-errors v line malformed_cert c))
          (with_message sd msg [] (add_error v line malformed_cert) line)
          (with_message-Steps sd msg [] (add_error v line malformed_cert)
            (add_error-IsReady v line malformed_cert k))

    with_cert-Lines :
        (found : Res (Bytes × Option Bytes)) (sd : SdRecord) (msg : Bytes) (v : Verifier)
        → IsReady v
        → OkClean
            (λ w.
              (payload : Bytes) × (der : Option Bytes) × (found ≡ ok (payload, der))
              × Steps sd v (der_bytes der) payload w)
            (with_cert found sd msg v line)
    unfolding with_cert
    with_cert-Lines fault sd msg v k = fault-OkClean
    with_cert-Lines failed sd msg v k =
        ok-OkClean (with_message sd msg [] (add_error v line malformed_cert) line)
          (with_malformed sd msg v k)
    with_cert-Lines (ok (payload, none)) sd msg v k =
        ok-OkClean (with_message sd payload [] v line) (
          Clean-weaken (λ w s. (payload, none, refl, s)) (with_message sd payload [] v line)
            (with_message-Steps sd payload [] v k))
    with_cert-Lines (ok (payload, some der)) sd msg v k =
        ok-OkClean (with_message sd payload der v line) (
          Clean-weaken (λ w s. (payload, some der, refl, s)) (with_message sd payload der v line)
            (with_message-Steps sd payload der v k))

    -- What is found in front of the handlers.
    abbrev Found : Res (Bytes × SdRecord) → Verifier → Verifier → Type 0
    Found split v w =
        (msg : Bytes) × (sd : SdRecord) × (payload : Bytes) × (der : Option Bytes) × (split
          ≡ ok (msg, sd))
        × (extract_and_strip_cert_sd msg msg_buf_len cert_der_max ≡ ok (payload, der))
        × Steps sd v (der_bytes der) payload w

    with_element-Lines :
        (split : Res (Bytes × SdRecord)) (v : Verifier)
        → IsReady v
        → OkClean (Found split v) (with_element split v line)
    unfolding with_element
    with_element-Lines fault v k = fault-OkClean
    with_element-Lines failed v k = elim (Bool-cases (is_expecting v.state)) [
      | inl e ↦
          rw e
            (ok-OkClean (broken_off (add_error v line missing_sd)) (broken-Clean v line missing_sd))
      | inr e ↦
          rw e
            (ok-OkClean (returned (add_error v line missing_sd)) (reported-Clean v line missing_sd))
    ]
    with_element-Lines (ok (msg, sd)) v k =
        OkClean-weaken (λ w (payload, der, e, s). (msg, sd, payload, der, refl, e, s))
          (with_cert (extract_and_strip_cert_sd msg msg_buf_len cert_der_max) sd msg v line)
          (with_cert-Lines (extract_and_strip_cert_sd msg msg_buf_len cert_der_max) sd msg v k)

    -- If a verifier that is ready, inside a log that is not given up, processes a line and then has
    -- no error, it had none before, and the line is one that it has read.
    pub process_line_sound :
        (v : Verifier) (text : Bytes) (beyond : ℕ)
        → IsReady v
        → is_over v.state ≡ false
        → OkClean
            (λ w. (v.errors ≡ []) × ReadLine v text beyond w)
            (process_line v text beyond line)
    unfolding process_line
    process_line_sound v text beyond k on = rw on (
        OkClean-weaken
          (λ w (msg, sd, payload, der, e, f, (c, s, r)). (
            c,
            record {
              msg = msg;
              sd = sd;
              payload = payload;
              der = der;
              split = e;
              stripped = f;
              step = s;
              recorded = r;
            },
          ))
          (with_element (strip_sd_from_line text beyond msg_buf_len) v line)
          (with_element-Lines (strip_sd_from_line text beyond msg_buf_len) v k))
