-- ===== src/Verifier/Line/Grows.antt =====
-- A line only adds errors, and never more than there is room for.
use mathlib.Core.Path.{subst}
use mmhashchainsigs.Base.{
  Bool-cases, Bytes, List, Option, Res, [], ap, arith, failed, fault, inl, inr, none, not, ok, some,
  ℕ, ◌&&◌, ◌==◌, ◌≡◌,
}
use mmhashchainsigs.Crypto.Host.{Host}
use mmhashchainsigs.Format.Element.{cert_der_max}
use mmhashchainsigs.Format.Parse.{SdRecord}
use mmhashchainsigs.Format.Strip.{extract_and_strip_cert_sd, strip_sd_from_line}
use mmhashchainsigs.Verifier.Errors.{
  VerifyIssue, expected_init, malformed_cert, missing_sd, unknown_type,
}
use mmhashchainsigs.Verifier.Handlers.{Outcome, aborted, broken_off, returned}
use mmhashchainsigs.Verifier.Handlers.Grows.{
  Extends-refl, Grows, add_error-Extends, after-Grows, broken-Grows, if-Grows, reported-Grows,
}
use mmhashchainsigs.Verifier.Handlers.GrowsAll.{
  handle_sd_continue-Grows, handle_sd_init-Grows, handle_sd_msg-Grows, handle_sd_sig-Grows,
}
use mmhashchainsigs.Verifier.Line.{
  dispatch, is_expecting, is_over, msg_buf_len, process_line, with_cert, with_element, with_message,
}
use mmhashchainsigs.Verifier.State.{Verifier, add_error}

module _ ⦃h : Host⦄ where
  -- The same of a line that may leave the buffers.
  pub record LineGrows (es : List (ℕ × VerifyIssue)) (r : Res (Outcome Verifier)) : Type 0 where
    pub grows : (o : Outcome Verifier) → r ≡ ok o → Grows es o

  abbrev pub outcome_of : Outcome Verifier → Res (Outcome Verifier) → Outcome Verifier
  outcome_of o (ok x) = x
  outcome_of o _ = o

  module _ {es : List (ℕ × VerifyIssue)} where
    ok-LineGrows : (o : Outcome Verifier) → Grows es o → LineGrows es (ok o)
    ok-LineGrows o g = record {
      grows = λ x e. subst (λ (y : Outcome Verifier). Grows es y) (ap (outcome_of o) e) g;
    }

    fault-LineGrows : LineGrows es fault
    fault-LineGrows = record { grows = λ x e. absurd (ground arith) }

module _ ⦃h : Host⦄ (line : ℕ) where
  dispatch-Grows :
      (sd : SdRecord) (msg der : Bytes) (v : Verifier) → Grows v.errors (dispatch sd msg der v line)
  unfolding dispatch
  dispatch-Grows sd msg der v =
      if-Grows (sd.sd_type == b'I') (handle_sd_init-Grows sd msg line der v) (
        if-Grows (sd.sd_type == b'S') (handle_sd_sig-Grows sd msg line v) (
          if-Grows (sd.sd_type == b'C') (handle_sd_continue-Grows sd msg line v) (
            if-Grows (sd.sd_type == 0) (handle_sd_msg-Grows sd msg line v)
              (reported-Grows v line unknown_type))))

  with_message-Grows :
      (sd : SdRecord) (msg der : Bytes) (v : Verifier)
      → Grows v.errors (with_message sd msg der v line)
  unfolding with_message
  with_message-Grows sd msg der v =
      if-Grows (is_expecting v.state && not (sd.sd_type == b'I'))
        (broken-Grows v line expected_init) (dispatch-Grows sd msg der v)

  with_cert-LineGrows :
      (found : Res (Bytes × Option Bytes)) (sd : SdRecord) (msg : Bytes) (v : Verifier)
      → LineGrows v.errors (with_cert found sd msg v line)
  unfolding with_cert
  with_cert-LineGrows fault sd msg v = fault-LineGrows
  with_cert-LineGrows failed sd msg v =
      ok-LineGrows (with_message sd msg [] (add_error v line malformed_cert) line) (
        after-Grows (with_message sd msg [] (add_error v line malformed_cert) line)
          (add_error-Extends v line malformed_cert)
          (with_message-Grows sd msg [] (add_error v line malformed_cert)))
  with_cert-LineGrows (ok (payload, none)) sd msg v =
      ok-LineGrows (with_message sd payload [] v line) (with_message-Grows sd payload [] v)
  with_cert-LineGrows (ok (payload, some der)) sd msg v =
      ok-LineGrows (with_message sd payload der v line) (with_message-Grows sd payload der v)

  with_element-LineGrows :
      (split : Res (Bytes × SdRecord)) (v : Verifier)
      → LineGrows v.errors (with_element split v line)
  unfolding with_element
  with_element-LineGrows fault v = fault-LineGrows
  with_element-LineGrows failed v = elim (Bool-cases (is_expecting v.state)) [
    | inl e ↦
        rw e
          (ok-LineGrows (broken_off (add_error v line missing_sd)) (broken-Grows v line missing_sd))
    | inr e ↦
        rw e
          (ok-LineGrows (returned (add_error v line missing_sd)) (reported-Grows v line missing_sd))
  ]
  with_element-LineGrows (ok (msg, sd)) v =
      with_cert-LineGrows (extract_and_strip_cert_sd msg msg_buf_len cert_der_max) sd msg v

  -- A line that is processed keeps the errors, in front of those that it adds, and there are no more
  -- than 64 of them behind it if there were none too many before it.
  pub process_line-LineGrows :
      (v : Verifier) (text : Bytes) (beyond : ℕ)
      → LineGrows v.errors (process_line v text beyond line)
  unfolding process_line
  process_line-LineGrows v text beyond = elim (Bool-cases (is_over v.state)) [
    | inl e ↦ rw e (ok-LineGrows (aborted v) (record { extends = Extends-refl v.errors }))
    | inr e ↦ rw e (with_element-LineGrows (strip_sd_from_line text beyond msg_buf_len) v)
  ]
