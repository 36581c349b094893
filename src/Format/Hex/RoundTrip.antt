-- ===== src/Format/Hex/RoundTrip.antt =====
-- `hcs_hex_decode` undoes `hcs_hex_encode`; the text of an encoding.
use mmhashchainsigs.Base.{
  All, Bytes, IsByte, [], arith, false, length, ltb, refl, some, ℕ, ◌%◌, ◌*◌, ◌/◌, ◌<◌, ◌==◌, ◌||◌,
  ◌∷◌, ◌≡◌, ◌≢◌, ◌≤◌,
}
use mmhashchainsigs.Format.Hex.{decode_pairs, hex_decode, hex_digit, hex_encode, scan_hex2}

-- A lower-case hexadecimal digit.
abbrev pub IsHex : ℕ → Type 0
IsHex c = (b'0' ≤ c) × (c ≤ b'f') × (c ≢ b'\\') × (c ≢ b']')

scan_hex2_digits :
    (b : ℕ) (s : Bytes) → b < 256 → scan_hex2 (hex_digit (b / 16) ∷ hex_digit (b % 16) ∷ s) ≡ some b
unfolding scan_hex2
scan_hex2_digits b s h = ground arith

decode_pairs-hex_encode : (bs : Bytes) → All IsByte bs → decode_pairs (hex_encode bs) ≡ some bs
unfolding decode_pairs hex_encode
decode_pairs-hex_encode [] h = refl
decode_pairs-hex_encode (b ∷ bs) (hb, hs) =
    ground (arith, scan_hex2_digits b (hex_encode bs) hb, decode_pairs-hex_encode bs hs)

pub length-hex_encode : (bs : Bytes) → length (hex_encode bs) ≡ length bs * 2
unfolding hex_encode
length-hex_encode [] = refl
length-hex_encode (b ∷ bs) = omega (arith, length-hex_encode bs)

hex_room : (n room : ℕ) → n ≤ room → (n * 2 % 2 == 1 || ltb room (n * 2 / 2)) ≡ false
hex_room n room h = ground arith

-- Bytes written in hexadecimal are read back, into any buffer that is large enough.
pub hex_decode-hex_encode :
    (bs : Bytes) (out_len : ℕ)
    → All IsByte bs
    → length bs ≤ out_len
    → hex_decode (hex_encode bs) out_len ≡ some bs
unfolding hex_decode
hex_decode-hex_encode bs out_len h room =
    rw (length-hex_encode bs)
      (rw (hex_room (length bs) out_len room) (decode_pairs-hex_encode bs h))

-- The text of an encoding has hexadecimal digits alone.
pub hex_encode-IsHex : (bs : Bytes) → All IsByte bs → All IsHex (hex_encode bs)
unfolding hex_encode
hex_encode-IsHex [] h = tt
hex_encode-IsHex (b ∷ bs) (hb, hs) = (ground arith, (ground arith, hex_encode-IsHex bs hs))
