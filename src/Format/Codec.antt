-- ===== src/Format/Codec.antt =====
-- `hcs_b64_encode` and `hcs_b64_decode`, over OpenSSL's block functions.
pub mod Laws
pub mod Room
use mmhashchainsigs.Base.{
  Bytes, Option, Res, [], failed, fault, if◌then◌else◌, length, ltb, none, ok, some, take, unsnoc,
  ℕ, ◌+◌, ◌-◌, ◌==◌, ◌||◌,
}
use mmhashchainsigs.Crypto.Host.{Host}

-- How many of the last two bytes are `=`.
pad_at : Option (Bytes × ℕ) → ℕ
pad_at none = 0
pad_at (some (s, c)) = if c == b'=' then 1 else 0

before_last : Option (Bytes × ℕ) → Bytes
before_last none = []
before_last (some (s, c)) = s

unfoldable pub padding : Bytes → ℕ
unfolding pad_at before_last
padding s = pad_at (unsnoc s) + pad_at (unsnoc (before_last (unsnoc s)))

-- The text as it is kept: a buffer of `room` bytes holds it and a NUL, or the call returns -1.
abbrev pub fits : ℕ → Bytes → Option Bytes
fits room s = if ltb (length s) room then some s else none

module _ ⦃h : Host⦄ where
  unfoldable pub b64_encode : Bytes → ℕ → Option Bytes
  b64_encode s room = fits room (h.encode_block s)

  -- The source does not compare the decoded length with the room at `out`, which is `room` here:
  -- a longer result is written past the end.
  unfoldable pub b64_decode : Bytes → ℕ → Res Bytes
  unfolding padding
  b64_decode s room = elim (h.decode_block s) [
    | none ↦ failed
    | some d ↦
        if ltb room (length d) || ltb (length d) (padding s)
        then fault
        else ok (take (length d - padding s) d)
  ]
