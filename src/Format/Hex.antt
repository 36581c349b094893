-- ===== src/Format/Hex.antt =====
-- `hcs_hex_encode` and `hcs_hex_decode`.
pub mod RoundTrip
pub mod Decoded
use mmhashchainsigs.Base.{
  Bytes, Option, [], if◌then◌else◌, leb, length, ltb, none, skip_space, some, ℕ, ◌%◌, ◌&&◌, ◌*◌,
  ◌+◌, ◌-◌, ◌/◌, ◌==◌, ◌>>=◌, ◌||◌, ◌∷◌,
}

-- `hex[n]` of the source's table.
abbrev pub hex_digit : ℕ → ℕ
hex_digit n = if ltb n 10 then b'0' + n else (b'a' - 10) + n

unfoldable pub hex_encode : Bytes → Bytes
hex_encode [] = []
hex_encode (b ∷ bs) = hex_digit (b / 16) ∷ hex_digit (b % 16) ∷ hex_encode bs

-- The value of a hexadecimal digit (`isxdigit`).
unfoldable pub hex_value : ℕ → Option ℕ
hex_value c =
    if leb b'0' c && leb c b'9'
    then some (c - b'0')
    else if leb b'a' c && leb c b'f'
    then some (c - b'a' + 10)
    else if leb b'A' c && leb c b'F'
    then some (c - b'A' + 10)
    else none

-- Two digits, or one in front of something else.
two_digits : ℕ → Option ℕ → ℕ
two_digits a none = a
two_digits a (some b) = a * 16 + b

-- `sscanf(s, "%2x", &byte)` behind the spaces that it skips: at most two characters, a sign among
-- them; `0x` with no digit behind it within the width is no number. The value is cut to a byte.
scan_item : Bytes → Option ℕ
scan_item [] = none
scan_item (c ∷ []) = hex_value c
scan_item (c ∷ d ∷ cs) =
    if c == b'+'
    then hex_value d
    else if c == b'-'
    then (do v ← hex_value d; some ((256 - v) % 256))
    else if c == b'0' && (d == b'x' || d == b'X')
    then none
    else (do v ← hex_value c; some (two_digits v (hex_value d)))

unfoldable pub scan_hex2 : Bytes → Option ℕ
unfolding scan_item two_digits skip_space hex_value
scan_hex2 s = scan_item (skip_space s)

-- One round for each pair; a round reads from its pair on to the end of the text.
decode_pairs : Bytes → Option Bytes
decode_pairs [] = some []
decode_pairs (a ∷ []) = some []
decode_pairs (a ∷ b ∷ s) = do v ← scan_hex2 (a ∷ b ∷ s); out ← decode_pairs s; some (v ∷ out)

-- The result; what has been stored is `hex_stored`.
unfoldable pub hex_decode : Bytes → ℕ → Option Bytes
unfolding decode_pairs scan_hex2
hex_decode s out_len =
    if length s % 2 == 1 || ltb out_len (length s / 2) then none else decode_pairs s

-- The bytes of the rounds in front of the first that fails.
stored_pairs : Bytes → Bytes
stored_pairs [] = []
stored_pairs (a ∷ []) = []
stored_pairs (a ∷ b ∷ s) =
    let later = stored_pairs s in elim (scan_hex2 (a ∷ b ∷ s)) [ none ↦ [] | some v ↦ v ∷ later ]

-- What is written at `out`, where the call fails too.
unfoldable pub hex_stored : Bytes → ℕ → Bytes
unfolding stored_pairs scan_hex2
hex_stored s out_len =
    if length s % 2 == 1 || ltb out_len (length s / 2) then [] else stored_pairs s
