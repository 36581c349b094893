-- ===== src/Verifier/Line/Total.antt =====
-- Lines that `verifier_process_line` processes to the end.
use mmhashchainsigs.Base.{
  Bool, Bytes, Option, Res, [], failed, false, fault, if◌then◌else◌, none, ok, refl, some, true, ℕ,
  ◌≡◌, ◌≢◌,
}
use mmhashchainsigs.Crypto.Host.{Host}
use mmhashchainsigs.Format.Codec.Room.{IsBlockDecoder}
use mmhashchainsigs.Format.Element.{cert_der_max}
use mmhashchainsigs.Format.Parse.{SdRecord}
use mmhashchainsigs.Format.Strip.{extract_and_strip_cert_sd, strip_sd_from_line}
use mmhashchainsigs.Format.Strip.Room.{
  SplitFits, extract_and_strip_cert_sd-within, line_fits, strip_sd_from_line-SplitFits,
}
use mmhashchainsigs.Verifier.Errors.{malformed_cert, missing_sd}
use mmhashchainsigs.Verifier.Handlers.{Outcome, aborted, broken_off, returned}
use mmhashchainsigs.Verifier.Line.{
  is_expecting, is_over, msg_buf_len, process_line, with_cert, with_element, with_message,
}
use mmhashchainsigs.Verifier.State.{Verifier, add_error}

module _ ⦃h : Host⦄ (dec : IsBlockDecoder) (v : Verifier) (line : ℕ) where
  with_cert-total :
      (found : Res (Bytes × Option Bytes)) (sd : SdRecord) (msg : Bytes) (w : Verifier)
      → found ≢ fault
      → (o : Outcome Verifier) × (with_cert found sd msg w line ≡ ok o)
  unfolding with_cert
  with_cert-total fault sd msg w n = absurd (n refl)
  with_cert-total failed sd msg w n =
      (with_message sd msg [] (add_error w line malformed_cert) line, refl)
  with_cert-total (ok (payload, none)) sd msg w n = (with_message sd payload [] w line, refl)
  with_cert-total (ok (payload, some der)) sd msg w n = (with_message sd payload der w line, refl)

  with_element-total :
      (split : Res (Bytes × SdRecord))
      → SplitFits dec cert_der_max split
      → (o : Outcome Verifier) × (with_element split v line ≡ ok o)
  unfolding with_element
  with_element-total fault s = absurd (s.no_fault refl)
  with_element-total failed s =
      let w = add_error v line missing_sd in
      either (is_expecting v.state) (broken_off w) (returned w)
    where
      either :
          (b : Bool) (x y : Outcome Verifier)
          → (o : Outcome Verifier) × ((if b then ok x else ok y) ≡ ok o)
      either true x y = (x, refl)
      either false x y = (y, refl)
  with_element-total (ok (msg, sd)) s =
      with_cert-total (extract_and_strip_cert_sd msg msg_buf_len cert_der_max) sd msg v
        (extract_and_strip_cert_sd-within dec cert_der_max msg msg_buf_len (s.of_msg msg sd refl))

  pub process_line-total :
      (text : Bytes) (beyond : ℕ)
      → line_fits cert_der_max text ≡ true
      → (o : Outcome Verifier) × (process_line v text beyond line ≡ ok o)
  unfolding process_line
  process_line-total text beyond f = unless_over (is_over v.state) (
      with_element-total (strip_sd_from_line text beyond msg_buf_len)
        (strip_sd_from_line-SplitFits dec cert_der_max text beyond msg_buf_len f))
    where
      unless_over :
          (b : Bool) {r : Res (Outcome Verifier)}
          → ((o : Outcome Verifier) × (r ≡ ok o))
          → (o : Outcome Verifier) × ((if b then ok (aborted v) else r) ≡ ok o)
      unless_over true x = (aborted v, refl)
      unless_over false x = x
