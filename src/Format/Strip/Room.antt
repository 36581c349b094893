-- ===== src/Format/Strip/Room.antt =====
-- Lines that are read without an access outside a buffer.
use mmhashchainsigs.Base.{
  &&_split, Bool, Bytes, Option, Option-cases, Res, [], ap, arith, codes, failed, false, fault,
  if◌then◌else◌, inl, inr, leb, length, ltb, none, ok, refl, some, strip_prefix, sym, true, ℕ, ◌&&◌,
  ◌*◌, ◌++◌, ◌+◌, ◌==◌, ◌∙◌, ◌∷◌, ◌≡◌, ◌≢◌,
}
use mmhashchainsigs.Crypto.Host.{Host}
use mmhashchainsigs.Format.Codec.{b64_decode}
use mmhashchainsigs.Format.Codec.Room.{IsBlockDecoder, b64_decode-within}
use mmhashchainsigs.Format.Element.Ids.{cert_prefix, sd_prefix}
use mmhashchainsigs.Format.Parse.{SdRecord, parse_sd}
use mmhashchainsigs.Format.Parse.Room.{parse_sd-within, sig_fits}
use mmhashchainsigs.Format.Scan.{
  ScanEnd, closed, ended, find_prefix, outside, overrun, quoted, scan_element,
}
use mmhashchainsigs.Format.Strip.{
  cert_value, extract_and_strip_cert_sd, strip_at, strip_cert, strip_sd_from_line, stripped,
  then_record,
}

-- The value of a certificate element decodes to what the buffer holds.
cert_value_fits : ℕ → Option (Bytes × Bytes) → Bool
cert_value_fits der_room none = true
cert_value_fits der_room (some (v, after)) = leb (3 * length v) (4 * der_room + 3)

unfoldable pub cert_fits : ℕ → Bytes → Bool
unfolding cert_value_fits
cert_fits der_room msg = elim (find_prefix cert_prefix msg) [
  | none ↦ true
  | some (before, rest) ↦ elim (strip_prefix (codes "cert=\"") rest) [
    | none ↦ true
    | some value ↦ cert_value_fits der_room (quoted false value)
  ]
]

-- Each quote of the element is closed.
scan_fits : ℕ → ScanEnd → Bytes → Bytes → Bool
unfolding cert_fits
scan_fits der_room (closed read after) before rest =
    sig_fits read && cert_fits der_room (before ++ after)
scan_fits der_room ended before rest = sig_fits rest && cert_fits der_room (before ++ [])
scan_fits der_room overrun before rest = false

-- The quotes of the line's element are closed, its signature has at most 193 characters, and the
-- certificate behind it no more than the buffer holds when they are decoded.
unfoldable pub line_fits : ℕ → Bytes → Bool
unfolding scan_fits
line_fits der_room line = elim (find_prefix sd_prefix line) [
  | none ↦ true
  | some (before, rest) ↦ scan_fits der_room (scan_element outside rest) before rest
]

module _ ⦃h : Host⦄ (dec : IsBlockDecoder) (der_room : ℕ) where
  -- A line was refused, or was split into an element and a message with a certificate that fits.
  pub record SplitFits (r : Res (Bytes × SdRecord)) : Type 0 where
    pub no_fault : r ≢ fault
    pub of_msg : (msg : Bytes) (sd : SdRecord) → r ≡ ok (msg, sd) → cert_fits der_room msg ≡ true

  abbrev msg_of : Bytes → Res (Bytes × SdRecord) → Bytes
  msg_of m (ok (msg, sd)) = msg
  msg_of m _ = m

  failed-SplitFits : SplitFits failed
  failed-SplitFits = record {
    no_fault = λ f. ground arith;
    of_msg = λ msg sd e. absurd (ground arith);
  }

  ok-SplitFits :
      (msg : Bytes) (sd : SdRecord) → cert_fits der_room msg ≡ true → SplitFits (ok (msg, sd))
  ok-SplitFits msg sd c = record {
    no_fault = λ f. ground arith;
    of_msg = λ m r e. ap (cert_fits der_room) (sym (ap (msg_of m) e)) ∙ c;
  }

  stripped-SplitFits :
      (room : ℕ) (before after : Bytes) (parsed : Res SdRecord)
      → parsed ≢ fault
      → cert_fits der_room (before ++ after) ≡ true
      → SplitFits (then_record parsed (stripped room before after))
  unfolding then_record stripped
  stripped-SplitFits room before after (ok sd) n c =
      either (ltb (length (before ++ after)) room) (ok-SplitFits (before ++ after) sd c)
    where
      either :
          (b : Bool) {x : Res (Bytes × SdRecord)}
          → SplitFits x
          → SplitFits (if b then x else failed)
      either true s = s
      either false s = failed-SplitFits
  stripped-SplitFits room before after failed n c = failed-SplitFits
  stripped-SplitFits room before after fault n c = absurd (n refl)

  strip_at-SplitFits :
      (end : ScanEnd) (before rest : Bytes) (beyond room : ℕ)
      → scan_fits der_room end before rest ≡ true
      → SplitFits (strip_at end before rest beyond room)
  unfolding strip_at scan_fits
  strip_at-SplitFits (closed read after) before rest beyond room f =
      let (s, c) = &&_split (sig_fits read) _ f in
      stripped-SplitFits room before after (parse_sd (sd_prefix ++ read))
        (parse_sd-within dec read s) c
  strip_at-SplitFits ended before rest beyond room f =
      let (s, c) = &&_split (sig_fits rest) _ f in
      stripped-SplitFits room before [] (parse_sd (sd_prefix ++ rest)) (parse_sd-within dec rest s)
        c
  strip_at-SplitFits overrun before rest beyond room f = absurd (ground arith)

  line_fits-scan :
      (line : Bytes) {before rest : Bytes}
      → find_prefix sd_prefix line ≡ some (before, rest)
      → line_fits der_room line ≡ scan_fits der_room (scan_element outside rest) before rest
  unfolding line_fits
  line_fits-scan line e = rw (e, line_fits) refl

  pub strip_sd_from_line-SplitFits :
      (line : Bytes) (beyond room : ℕ)
      → line_fits der_room line ≡ true
      → SplitFits (strip_sd_from_line line beyond room)
  unfolding strip_sd_from_line
  strip_sd_from_line-SplitFits line beyond room f =
      elim (Option-cases (find_prefix sd_prefix line)) [
        | inl e ↦ rw (e, strip_sd_from_line) failed-SplitFits
        | inr ((before, rest), e) ↦
            rw (e, strip_sd_from_line)
              (strip_at-SplitFits (scan_element outside rest) before rest beyond room
                (sym (line_fits-scan line e) ∙ f))
      ]

  strip_cert-within :
      (der : Res Bytes) (msg : Bytes) (room : ℕ) → der ≢ fault → strip_cert der msg room ≢ fault
  unfolding strip_cert
  strip_cert-within (ok der) msg room n = λ f. ground arith
  strip_cert-within failed msg room n = λ f. ground arith
  strip_cert-within fault msg room n = λ f. n refl

  cert_value-within :
      (found : Option (Bytes × Bytes)) (before : Bytes) (room : ℕ)
      → cert_value_fits der_room found ≡ true
      → cert_value found before room der_room ≢ fault
  unfolding cert_value cert_value_fits
  cert_value-within none before room c = λ f. ground arith
  cert_value-within (some (v, [])) before room c = λ f. ground arith
  cert_value-within (some (v, x ∷ after)) before room c = either (x == b']') (
      strip_cert-within (b64_decode v der_room) (before ++ after) room
        (b64_decode-within dec v der_room (ground (arith, c))))
    where
      either :
          (b : Bool) {r : Res (Bytes × Option Bytes)}
          → r ≢ fault
          → (if b then r else failed) ≢ fault
      either true n = n
      either false n = λ f. ground arith

  cert_fits-value :
      (msg : Bytes) {before rest value : Bytes}
      → find_prefix cert_prefix msg ≡ some (before, rest)
      → strip_prefix (codes "cert=\"") rest ≡ some value
      → cert_fits der_room msg ≡ cert_value_fits der_room (quoted false value)
  unfolding cert_fits
  cert_fits-value msg e q = rw (e, cert_fits) (rw q refl)

  pub extract_and_strip_cert_sd-within :
      (msg : Bytes) (room : ℕ)
      → cert_fits der_room msg ≡ true
      → extract_and_strip_cert_sd msg room der_room ≢ fault
  unfolding extract_and_strip_cert_sd
  extract_and_strip_cert_sd-within msg room c = elim (Option-cases (find_prefix cert_prefix msg)) [
    | inl e ↦ rw (e, extract_and_strip_cert_sd) (λ f. ground arith)
    | inr ((before, rest), e) ↦ elim (Option-cases (strip_prefix (codes "cert=\"") rest)) [
      | inl q ↦ rw (e, extract_and_strip_cert_sd) (rw q (λ f. ground arith))
      | inr (value, q) ↦
          rw (e, extract_and_strip_cert_sd)
            (rw q (
              cert_value-within (quoted false value) before room
                (sym (cert_fits-value msg e q) ∙ c)))
    ]
  ]
