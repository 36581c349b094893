-- ===== src/Verifier/Line/Keeps.antt =====
-- A line keeps the key, the algorithm and the options.
use mathlib.Core.Path.{subst}
use mmhashchainsigs.Base.{
  Bool-cases, Bytes, Option, Res, [], ap, arith, failed, fault, inl, inr, none, not, ok, some, ℕ,
  ◌&&◌, ◌==◌, ◌≡◌,
}
use mmhashchainsigs.Crypto.Host.{Host}
use mmhashchainsigs.Format.Element.{cert_der_max}
use mmhashchainsigs.Format.Parse.{SdRecord}
use mmhashchainsigs.Format.Strip.{extract_and_strip_cert_sd, strip_sd_from_line}
use mmhashchainsigs.Verifier.Errors.{expected_init, malformed_cert, missing_sd, unknown_type}
use mmhashchainsigs.Verifier.Handlers.{Outcome, aborted, broken_off, returned}
use mmhashchainsigs.Verifier.Handlers.Keeps.{
  Held, IsWide, Keeps-refl, Stays, add_error-Keeps, after-Stays, broken-Stays, held, if-Stays,
  reported-Stays,
}
use mmhashchainsigs.Verifier.Handlers.KeepsAll.{
  handle_sd_continue-Stays, handle_sd_msg-Stays, handle_sd_sig-Stays,
}
use mmhashchainsigs.Verifier.Handlers.KeepsInit.{handle_sd_init-Stays}
use mmhashchainsigs.Verifier.Line.{
  dispatch, is_expecting, is_over, msg_buf_len, process_line, with_cert, with_element, with_message,
}
use mmhashchainsigs.Verifier.Line.Grows.{outcome_of}
use mmhashchainsigs.Verifier.State.{Verifier, add_error}

module _ ⦃h : Host⦄ where
  -- The same of a line that may leave the buffers.
  pub record LineStays (a : Held) (r : Res (Outcome Verifier)) : Type 0 where
    pub stays : (o : Outcome Verifier) → r ≡ ok o → Stays a o

  module _ {a : Held} where
    ok-LineStays : (o : Outcome Verifier) → Stays a o → LineStays a (ok o)
    ok-LineStays o g = record {
      stays = λ x e. subst (λ (y : Outcome Verifier). Stays a y) (ap (outcome_of o) e) g;
    }

    fault-LineStays : LineStays a fault
    fault-LineStays = record { stays = λ x e. absurd (ground arith) }

module _ ⦃h : Host⦄ (wide : IsWide) (line : ℕ) where
  dispatch-Stays :
      (sd : SdRecord) (msg der : Bytes) (v : Verifier) → Stays (held v) (dispatch sd msg der v line)
  unfolding dispatch
  dispatch-Stays sd msg der v =
      if-Stays (sd.sd_type == b'I') (handle_sd_init-Stays wide sd msg line der v) (λ i.
        if-Stays (sd.sd_type == b'S') (handle_sd_sig-Stays wide sd msg line v) (λ s.
          if-Stays (sd.sd_type == b'C') (handle_sd_continue-Stays wide sd msg line v) (λ c.
            if-Stays (sd.sd_type == 0) (handle_sd_msg-Stays wide sd msg line v)
              (λ u. reported-Stays v line unknown_type))))

  with_message-Stays :
      (sd : SdRecord) (msg der : Bytes) (v : Verifier)
      → Stays (held v) (with_message sd msg der v line)
  unfolding with_message
  with_message-Stays sd msg der v =
      if-Stays (is_expecting v.state && not (sd.sd_type == b'I'))
        (broken-Stays v line expected_init) (λ i. dispatch-Stays sd msg der v)

  with_cert-LineStays :
      (found : Res (Bytes × Option Bytes)) (sd : SdRecord) (msg : Bytes) (v : Verifier)
      → LineStays (held v) (with_cert found sd msg v line)
  unfolding with_cert
  with_cert-LineStays fault sd msg v = fault-LineStays
  with_cert-LineStays failed sd msg v =
      let w = add_error v line malformed_cert in
      ok-LineStays (with_message sd msg [] w line) (
        after-Stays (with_message sd msg [] w line) (add_error-Keeps v line malformed_cert)
          (with_message-Stays sd msg [] w))
  with_cert-LineStays (ok (payload, none)) sd msg v =
      ok-LineStays (with_message sd payload [] v line) (with_message-Stays sd payload [] v)
  with_cert-LineStays (ok (payload, some der)) sd msg v =
      ok-LineStays (with_message sd payload der v line) (with_message-Stays sd payload der v)

  with_element-LineStays :
      (split : Res (Bytes × SdRecord)) (v : Verifier)
      → LineStays (held v) (with_element split v line)
  unfolding with_element
  with_element-LineStays fault v = fault-LineStays
  with_element-LineStays failed v = elim (Bool-cases (is_expecting v.state)) [
    | inl e ↦
        rw e
          (ok-LineStays (broken_off (add_error v line missing_sd)) (broken-Stays v line missing_sd))
    | inr e ↦
        rw e
          (ok-LineStays (returned (add_error v line missing_sd)) (reported-Stays v line missing_sd))
  ]
  with_element-LineStays (ok (msg, sd)) v =
      with_cert-LineStays (extract_and_strip_cert_sd msg msg_buf_len cert_der_max) sd msg v

  pub process_line-LineStays :
      (v : Verifier) (text : Bytes) (beyond : ℕ)
      → LineStays (held v) (process_line v text beyond line)
  unfolding process_line
  process_line-LineStays v text beyond = elim (Bool-cases (is_over v.state)) [
    | inl e ↦ rw e (ok-LineStays (aborted v) (record { keeps = Keeps-refl (held v) }))
    | inr e ↦ rw e (with_element-LineStays (strip_sd_from_line text beyond msg_buf_len) v)
  ]
