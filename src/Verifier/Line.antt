-- ===== src/Verifier/Line.antt =====
-- `verifier_process_line`.
pub mod Element
pub mod Grows
pub mod Keeps
pub mod Sound
pub mod Total
use mmhashchainsigs.Base.{
  Bool, Bytes, Option, Res, [], failed, false, fault, if◌then◌else◌, none, not, ok, some, true, ℕ,
  ◌&&◌, ◌==◌,
}
use mmhashchainsigs.Crypto.Host.{Host}
use mmhashchainsigs.Format.Element.{cert_der_max}
use mmhashchainsigs.Format.Parse.{SdRecord}
use mmhashchainsigs.Format.Strip.{extract_and_strip_cert_sd, strip_sd_from_line}
use mmhashchainsigs.Verifier.Errors.{expected_init, malformed_cert, missing_sd, unknown_type}
use mmhashchainsigs.Verifier.Handlers.{
  Outcome, aborted, broken_off, handle_sd_continue, handle_sd_init, handle_sd_msg, handle_sd_sig,
  returned,
}
use mmhashchainsigs.Verifier.State.{Verifier, VerifierState, add_error, done, errored, expect_init}

-- `SD_MSG_BUF_LEN`
abbrev pub msg_buf_len : ℕ
msg_buf_len = 8192

module _ ⦃h : Host⦄ where
  -- `switch (sd.type)`
  unfoldable dispatch : SdRecord → Bytes → Bytes → Verifier → ℕ → Outcome Verifier
  dispatch sd msg der v line =
      if sd.sd_type == b'I'
      then handle_sd_init sd msg der v line
      else if sd.sd_type == b'S'
      then handle_sd_sig sd msg v line
      else if sd.sd_type == b'C'
      then handle_sd_continue sd msg v line
      else if sd.sd_type == 0
      then handle_sd_msg sd msg v line
      else returned (add_error v line unknown_type)

  pub is_expecting : VerifierState → Bool
  is_expecting expect_init = true
  is_expecting _ = false

  unfoldable pub is_over : VerifierState → Bool
  is_over errored = true
  is_over done = true
  is_over _ = false

  unfoldable with_message : SdRecord → Bytes → Bytes → Verifier → ℕ → Outcome Verifier
  unfolding dispatch is_expecting
  with_message sd msg der v line =
      if is_expecting v.state && not (sd.sd_type == b'I')
      then broken_off (add_error v line expected_init)
      else dispatch sd msg der v line

  -- What the certificate element leaves; a malformed one is an error and stays in the message.
  unfoldable with_cert :
      Res (Bytes × Option Bytes) → SdRecord → Bytes → Verifier → ℕ → Res (Outcome Verifier)
  unfolding with_message
  with_cert fault sd msg v line = fault
  with_cert failed sd msg v line =
      ok (with_message sd msg [] (add_error v line malformed_cert) line)
  with_cert (ok (msg', none)) sd msg v line = ok (with_message sd msg' [] v line)
  with_cert (ok (msg', some der)) sd msg v line = ok (with_message sd msg' der v line)

  unfoldable with_element : Res (Bytes × SdRecord) → Verifier → ℕ → Res (Outcome Verifier)
  unfolding with_cert is_expecting
  with_element fault v line = fault
  with_element failed v line =
      let w = add_error v line missing_sd in
      if is_expecting v.state then ok (broken_off w) else ok (returned w)
  with_element (ok (msg, sd)) v line =
      with_cert (extract_and_strip_cert_sd msg msg_buf_len cert_der_max) sd msg v line

  -- `fault` is an access outside a buffer; `beyond` is the byte behind the line.
  unfoldable pub process_line : Verifier → Bytes → ℕ → ℕ → Res (Outcome Verifier)
  unfolding with_element is_over
  process_line v line beyond line_num =
      if is_over v.state
      then ok (aborted v)
      else with_element (strip_sd_from_line line beyond msg_buf_len) v line_num
