-- ===== src/Format/Element/Clean.antt =====
-- Texts that need no quoting inside a parameter, and parameters made of such.
use mathlib.Core.Logic.{◌≢◌}
use mmhashchainsigs.Base.{All, All-weaken, Bytes, IsByte, arith, ℕ}
use mmhashchainsigs.Format.Element.{msg_params, opening_params, sig_params}
use mmhashchainsigs.Format.Hex.{hex_encode}
use mmhashchainsigs.Format.Hex.RoundTrip.{IsHex, hex_encode-IsHex}
use mmhashchainsigs.Format.Number.{print_ulong}
use mmhashchainsigs.Format.Number.RoundTrip.{IsDigit, print_ulong-IsDigit}

-- No space, quote, backslash or closing bracket.
abbrev pub IsPlain : ℕ → Type 0
IsPlain c = (c ≢ b' ') × (c ≢ b'"') × (c ≢ b'\\') × (c ≢ b']')

-- A key also holds no `=`.
abbrev pub IsKeyByte : ℕ → Type 0
IsKeyByte c = IsPlain c × (c ≢ b'=')

abbrev pub IsCleanParam : Bytes × Bytes → Type 0
IsCleanParam (k, v) = All IsKeyByte k × All IsPlain v

pub IsHex-IsPlain : (c : ℕ) → IsHex c → IsPlain c
IsHex-IsPlain c h = omega arith

pub IsDigit-IsPlain : (c : ℕ) → IsDigit c → IsPlain c
IsDigit-IsPlain c h = omega arith

pub key_byte-IsPlain : (k : Bytes) → All IsKeyByte k → All IsPlain k
key_byte-IsPlain k h = All-weaken (λ c p. p.0) k h

pub print_ulong-IsPlain : (n : ℕ) → All IsPlain (print_ulong n)
print_ulong-IsPlain n = All-weaken IsDigit-IsPlain (print_ulong n) (print_ulong-IsDigit n)

pub hex_encode-IsPlain : (bs : Bytes) → All IsByte bs → All IsPlain (hex_encode bs)
hex_encode-IsPlain bs h = All-weaken IsHex-IsPlain (hex_encode bs) (hex_encode-IsHex bs h)

-- The parameters of each element are clean where the hashes are bytes.
module _ (seq : ℕ) (chain_hash : Bytes) (bytes : All IsByte chain_hash) where
  pub opening_params-IsClean :
      (t fp : Bytes)
      → All IsPlain t
      → All IsByte fp
      → All IsCleanParam (opening_params t seq chain_hash fp)
  opening_params-IsClean t fp ht hf = (
    (omega arith, ht),
    (
      (omega arith, print_ulong-IsPlain seq),
      (
        (omega arith, hex_encode-IsPlain chain_hash bytes),
        ((omega arith, hex_encode-IsPlain fp hf), tt),
      ),
    ),
  )

  pub msg_params-IsClean : All IsCleanParam (msg_params seq chain_hash)
  msg_params-IsClean = (
    (omega arith, print_ulong-IsPlain seq),
    ((omega arith, hex_encode-IsPlain chain_hash bytes), tt),
  )

  pub sig_params-IsClean :
      (from to : ℕ) (s : Bytes)
      → All IsPlain s
      → All IsCleanParam (sig_params seq chain_hash from to s)
  sig_params-IsClean from to s hs = (
    (omega arith, omega arith),
    (
      (omega arith, print_ulong-IsPlain seq),
      (
        (omega arith, hex_encode-IsPlain chain_hash bytes),
        (
          (omega arith, print_ulong-IsPlain from),
          ((omega arith, print_ulong-IsPlain to), ((omega arith, hs), tt)),
        ),
      ),
    ),
  )
