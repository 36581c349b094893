-- ===== src/Verifier/Line/Element.antt =====
-- `verifier_process_line` on a line that begins with a printed element.
use mmhashchainsigs.Base.{
  All, Bytes, IsByte, List, [], arith, length, length-append, none, ok, some, ℕ, ◌*◌, ◌++◌, ◌+◌,
  ◌/◌, ◌<◌, ◌∙◌, ◌≡◌, ◌≤◌, ◌⊎◌,
}
use mmhashchainsigs.Crypto.Host.{Host}
use mmhashchainsigs.Format.Codec.Laws.{IsBase64}
use mmhashchainsigs.Format.Element.{cert_der_max, format_sd_cert, sd_element}
use mmhashchainsigs.Format.Element.Clean.{IsCleanParam}
use mmhashchainsigs.Format.Element.Ids.{cert_prefix, sd_prefix}
use mmhashchainsigs.Format.Parse.{SdRecord, parse_sd}
use mmhashchainsigs.Format.Scan.{find_prefix}
use mmhashchainsigs.Format.Strip.{extract_and_strip_cert_sd}
use mmhashchainsigs.Format.Strip.Cert.{extract_and_strip_cert_sd-format_sd_cert}
use mmhashchainsigs.Format.Strip.Line.{
  extract_and_strip_cert_sd-none, strip_sd_from_line-element, strip_sd_from_line-long,
}
use mmhashchainsigs.Verifier.Errors.{missing_sd}
use mmhashchainsigs.Verifier.Handlers.{handle_sd_init, handle_sd_msg, handle_sd_sig, returned}
use mmhashchainsigs.Verifier.Line.{dispatch, msg_buf_len, process_line}
use mmhashchainsigs.Verifier.State.{Verifier, add_error, expect_init, processing}

module _ ⦃h : Host⦄ (v : Verifier) (ps : List (Bytes × Bytes)) (sd : SdRecord) (payload : Bytes)
    (beyond line : ℕ) (clean : All IsCleanParam ps)
    (parsed : parse_sd (sd_element sd_prefix ps) ≡ ok sd) where
  module _ (absent : find_prefix cert_prefix payload ≡ none) (fit : length payload < msg_buf_len)
      (ready : ((v.state ≡ processing) ⊎ ((v.state ≡ expect_init) × (sd.sd_type ≡ b'I')))) where
    -- The payload behind the element goes to the handler of the element's type.
    process_line-element :
        process_line v (sd_element sd_prefix ps ++ payload) beyond line
        ≡ ok (dispatch sd payload [] v line)
    unfolding process_line
    process_line-element = ground (
      arith,
      strip_sd_from_line-element ps sd payload beyond msg_buf_len clean parsed fit,
      extract_and_strip_cert_sd-none payload msg_buf_len cert_der_max absent fit,
    )

    pub process_line-msg :
        sd.sd_type ≡ 0
        → process_line v (sd_element sd_prefix ps ++ payload) beyond line
          ≡ ok (handle_sd_msg sd payload v line)
    unfolding dispatch
    process_line-msg t = process_line-element ∙ ground arith

    pub process_line-sig :
        sd.sd_type ≡ b'S'
        → process_line v (sd_element sd_prefix ps ++ payload) beyond line
          ≡ ok (handle_sd_sig sd payload v line)
    unfolding dispatch
    process_line-sig t = process_line-element ∙ ground arith

    pub process_line-init :
        sd.sd_type ≡ b'I'
        → process_line v (sd_element sd_prefix ps ++ payload) beyond line
          ≡ ok (handle_sd_init sd payload [] v line)
    unfolding dispatch
    process_line-init t = process_line-element ∙ ground arith

  -- The payload behind an INIT and a certificate element goes to its handler, with the
  -- certificate.
  pub process_line-cert :
      (b64 : IsBase64) (der cert : Bytes) (room : ℕ)
      → All IsByte der
      → format_sd_cert der room ≡ some cert
      → (length der + 2) / 3 * 3 ≤ cert_der_max
      → length (cert ++ payload) < msg_buf_len
      → v.state ≡ expect_init
      → sd.sd_type ≡ b'I'
      → process_line v (sd_element sd_prefix ps ++ (cert ++ payload)) beyond line
        ≡ ok (handle_sd_init sd payload der v line)
  unfolding process_line dispatch
  process_line-cert b64 der cert room bytes printed small fit expecting t = ground (
    arith,
    strip_sd_from_line-element ps sd (cert ++ payload) beyond msg_buf_len clean parsed fit,
    extract_and_strip_cert_sd-format_sd_cert b64 der payload room msg_buf_len cert_der_max bytes
        printed (omega (arith, length-append cert payload)) small,
  )

  -- While processing, a certificate element is taken out of the message wherever it stands.
  module _ (msg der : Bytes)
      (found : extract_and_strip_cert_sd msg msg_buf_len cert_der_max ≡ ok (payload, some der))
      (fit : length msg < msg_buf_len) (in_segment : v.state ≡ processing) where
    process_line-carried :
        process_line v (sd_element sd_prefix ps ++ msg) beyond line
        ≡ ok (dispatch sd payload der v line)
    unfolding process_line
    process_line-carried =
        ground
          (arith, strip_sd_from_line-element ps sd msg beyond msg_buf_len clean parsed fit, found)

    pub process_line-carried_msg :
        sd.sd_type ≡ 0
        → process_line v (sd_element sd_prefix ps ++ msg) beyond line
          ≡ ok (handle_sd_msg sd payload v line)
    unfolding dispatch
    process_line-carried_msg t = process_line-carried ∙ ground arith

    pub process_line-carried_sig :
        sd.sd_type ≡ b'S'
        → process_line v (sd_element sd_prefix ps ++ msg) beyond line
          ≡ ok (handle_sd_sig sd payload v line)
    unfolding dispatch
    process_line-carried_sig t = process_line-carried ∙ ground arith

  -- While processing, a line of a printed element with clean parameters, which parses, and a
  -- message of 8192 bytes or more is not verified, whatever the element says: the line is treated
  -- as one without an element. This error is recorded where fewer than 64 are, and nothing else of
  -- the state changes.
  pub process_line-long :
      v.state ≡ processing
      → msg_buf_len ≤ length payload
      → process_line v (sd_element sd_prefix ps ++ payload) beyond line
        ≡ ok (returned (add_error v line missing_sd))
  unfolding process_line
  process_line-long p long =
      ground (arith, strip_sd_from_line-long ps payload beyond msg_buf_len clean sd parsed long)
