-- ===== src/Format/Strip/Cert.antt =====
-- A certificate element that was printed is found, decoded and stripped.
use mathlib.Core.Path.{subst}
use mmhashchainsigs.Base.{
  All, Bool, Bytes, IsByte, Option, [], ap, append_assoc, arith, bind-some, codes, if◌then◌else◌,
  length, lt→ltb, none, ok, some, strip_prefix, sym, ℕ, ◌*◌, ◌++◌, ◌+◌, ◌/◌, ◌<◌, ◌∙◌, ◌∷◌, ◌≡◌,
  ◌≤◌,
}
use mmhashchainsigs.Cli.Lines.Split.{IsInline}
use mmhashchainsigs.Format.Element.Inline.{cert_element-IsInline}
use mmhashchainsigs.Crypto.Host.{Host}
use mmhashchainsigs.Format.Codec.{b64_encode, fits}
use mmhashchainsigs.Format.Codec.Laws.{IsBase64, b64_decode-encode, IsUnbroken}
use mmhashchainsigs.Format.Element.{format_sd_cert, sd_element}
use mmhashchainsigs.Format.Element.Ids.{cert_prefix}
use mmhashchainsigs.Format.Scan.{find_prefix}
use mmhashchainsigs.Format.Scan.Laws.{quoted-IsPlain}
use mmhashchainsigs.Format.Strip.{extract_and_strip_cert_sd}
use mmhashchainsigs.Format.Strip.Line.{find_prefix-here}

cert_prefix-here : (s : Bytes) → find_prefix cert_prefix (cert_prefix ++ s) ≡ some ([], s)
unfolding cert_prefix
cert_prefix-here s = find_prefix-here b'[' _ s

abbrev pub cert_text : Bytes → Bytes
cert_text v = sd_element cert_prefix ((codes "cert", v) ∷ [])

fits_sound : (room : ℕ) (s : Bytes) {t : Bytes} → fits room s ≡ some t → s ≡ t
fits_sound room s e = ground arith

else_some :
    (b : Bool) (o : Option Bytes) {t : Bytes} → (if b then none else o) ≡ some t → o ≡ some t
else_some b o e = ground arith

value_shape :
    (v payload : Bytes) → ((v ++ b'"' ∷ []) ++ b']' ∷ []) ++ payload ≡ v ++ (b'"' ∷ b']' ∷ payload)
value_shape v payload =
    ap (λ (t : Bytes). t ++ payload) (append_assoc v (b'"' ∷ []) (b']' ∷ []))
    ∙ append_assoc v (b'"' ∷ b']' ∷ []) payload

module _ ⦃h : Host⦄ where
  format_sd_cert-text :
      (der : Bytes) (room : ℕ) {text : Bytes}
      → format_sd_cert der room ≡ some text
      → text ≡ cert_text (h.encode_block der)
  unfolding format_sd_cert b64_encode
  format_sd_cert-text der room e =
      let (v, encoded, rest) =
        bind-some (b64_encode der ((length der + 2) / 3 * 4 + 4)) _ (else_some _ _ e) in
      sym (fits_sound room _ rest) ∙ ap cert_text (sym (same_encoding v encoded))
    where
      same_encoding :
          (v : Bytes)
          → b64_encode der ((length der + 2) / 3 * 4 + 4) ≡ some v
          → h.encode_block der ≡ v
      same_encoding v encoded = fits_sound _ (h.encode_block der) encoded

  pub format_sd_cert-IsInline :
      (unbroken : IsUnbroken) (der : Bytes) (room : ℕ) {text : Bytes}
      → All IsByte der
      → format_sd_cert der room ≡ some text
      → All IsInline text
  format_sd_cert-IsInline unbroken der room bytes e =
      subst (λ (t : Bytes). All IsInline t) (sym (format_sd_cert-text der room e))
        (cert_element-IsInline (h.encode_block der) (unbroken.encode_inline der bytes))

  -- A certificate element in front of a message is taken out again: the message is left and the
  -- certificate decoded, where the element was printed, OpenSSL's base64 is as documented, and the
  -- two buffers have room for the message and for the certificate with the padding of its last
  -- block.
  pub extract_and_strip_cert_sd-format_sd_cert :
      (b64 : IsBase64) (der payload : Bytes) (room msg_room der_room : ℕ) {text : Bytes}
      → All IsByte der
      → format_sd_cert der room ≡ some text
      → length payload < msg_room
      → (length der + 2) / 3 * 3 ≤ der_room
      → extract_and_strip_cert_sd (text ++ payload) msg_room der_room ≡ ok (payload, some der)
  unfolding extract_and_strip_cert_sd strip_prefix
  extract_and_strip_cert_sd-format_sd_cert b64 der payload room msg_room der_room bytes e fit
        small =
      let v = h.encode_block der in
      rw (format_sd_cert-text der room e) (
        rw (append_assoc cert_prefix _ payload) (
          rw (cert_prefix-here _, extract_and_strip_cert_sd)
            (rw (value_shape v payload) (
              rw (quoted-IsPlain v (b']' ∷ payload) (b64.encode_plain der bytes)) (
                rw (b64_decode-encode b64 der der_room bytes small)
                  (rw (lt→ltb (length payload) msg_room fit)))))))
