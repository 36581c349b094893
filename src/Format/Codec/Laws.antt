-- ===== src/Format/Codec/Laws.antt =====
-- What OpenSSL documents of its block functions, and the round trip of the code over them.
use mmhashchainsigs.Base.{
  All, Bytes, IsByte, ap, arith, false, length, length-append, length-replicate, ltb, lt→ltb, ok,
  replicate, some, take, take-append, ℕ, ◌%◌, ◌*◌, ◌++◌, ◌+◌, ◌-◌, ◌/◌, ◌||◌, ◌∙◌, ◌≡◌, ◌≤◌,
}
use mmhashchainsigs.Cli.Lines.Split.{IsInline}
use mmhashchainsigs.Crypto.Host.{Host}
use mmhashchainsigs.Format.Codec.{b64_decode, b64_encode, padding}
use mmhashchainsigs.Format.Element.{b64_sig_room}
use mmhashchainsigs.Format.Element.Clean.{IsPlain}

-- The padding of `n` bytes to a multiple of three.
abbrev pub pad_len : ℕ → ℕ
pad_len n = (3 - n % 3) % 3

-- `EVP_EncodeBlock` writes four characters of the base64 alphabet for each three bytes, with `=`
-- for what is missing; `EVP_DecodeBlock` counts the padding as zero bytes.
pub record IsBase64 ⦃h : Host⦄ : Type 0 where
  pub encode_plain : (s : Bytes) → All IsByte s → All IsPlain (h.encode_block s)
  pub encode_length : (s : Bytes) → length (h.encode_block s) ≡ (length s + 2) / 3 * 4
  pub encode_padding : (s : Bytes) → padding (h.encode_block s) ≡ pad_len (length s)
  pub decode_encode :
      (s : Bytes)
      → All IsByte s
      → h.decode_block (h.encode_block s) ≡ some (s ++ replicate (pad_len (length s)) 0)

-- `EVP_EncodeBlock` writes no newlines.
pub record IsUnbroken ⦃h : Host⦄ : Type 0 where
  pub encode_inline : (s : Bytes) → All IsByte s → All IsInline (h.encode_block s)

module _ ⦃h : Host⦄ (b64 : IsBase64) (s : Bytes) where
  decoded_room :
      (room : ℕ)
      → (length s + 2) / 3 * 3 ≤ room
      → (ltb room (length (s ++ replicate (pad_len (length s)) 0))
          || ltb (length (s ++ replicate (pad_len (length s)) 0)) (pad_len (length s)))
        ≡ false
  decoded_room room fit =
      rw
        (
          length-append s (replicate (pad_len (length s)) 0),
          length-replicate {A = ℕ} (pad_len (length s)) 0,
        )
        (room_lem (length s) room fit)
    where
      room_lem :
          (n room : ℕ)
          → (n + 2) / 3 * 3 ≤ room
          → (ltb room (n + pad_len n) || ltb (n + pad_len n) (pad_len n)) ≡ false
      room_lem n room fit = ground arith

  decoded_take :
      take
        (length (s ++ replicate (pad_len (length s)) 0) - pad_len (length s))
        (s ++ replicate (pad_len (length s)) 0)
      ≡ s
  decoded_take = ap (λ n. take n (s ++ replicate (pad_len (length s)) 0)) exact ∙ take-append s _
    where
      exact : length (s ++ replicate (pad_len (length s)) 0) - pad_len (length s) ≡ length s
      exact = omega (
        arith,
        length-append s (replicate (pad_len (length s)) 0),
        length-replicate {A = ℕ} (pad_len (length s)) 0,
      )

  -- Encoded bytes are decoded again, without their padding, where OpenSSL's base64 is as
  -- documented and the buffer has room for the bytes and the padding.
  pub b64_decode-encode :
      (room : ℕ)
      → All IsByte s
      → (length s + 2) / 3 * 3 ≤ room
      → b64_decode (h.encode_block s) room ≡ ok s
  unfolding b64_decode
  b64_decode-encode room bytes fit =
      rw (b64.decode_encode s bytes, b64_decode)
        (rw (b64.encode_padding s) (rw (decoded_room room fit) (rw decoded_take)))

  -- The encoding of at most 144 bytes fits the buffer of a SIG element.
  pub b64_encode_sig : length s ≤ 144 → b64_encode s b64_sig_room ≡ some (h.encode_block s)
  unfolding b64_encode
  b64_encode_sig fit =
      rw (lt→ltb (length (h.encode_block s)) 204 (omega (arith, b64.encode_length s)))
