-- ===== src/Format/Hex/Decoded.antt =====
-- What `hcs_hex_decode` stores: bytes, one for each two characters.
use mathlib.Core.Path.{subst}
use mmhashchainsigs.Base.{
  All, Bool, Bytes, IsByte, Option, [], arith, if◌then◌else◌, length, none, refl, skip_space, some,
  suc, ℕ, ◌/◌, ◌<◌, ◌>>=◌, ◌-◌, ◌%◌, ◌∷◌, ◌≡◌,
}
use mmhashchainsigs.Format.Hex.{
  decode_pairs, hex_decode, hex_value, scan_hex2, scan_item, two_digits,
}

-- The values of single digits and of two.
hex_value-lt : (c : ℕ) {v : ℕ} → hex_value c ≡ some v → v < 16
unfolding hex_value
hex_value-lt c e = ground arith

abbrev IsSmall : Option ℕ → Type 0
IsSmall o = (v : ℕ) → o ≡ some v → v < 16

-- Two characters with the values `x` and `y`, on every way through the tests.
pair_value-IsByte :
    (plus minus hex : Bool) (x y : Option ℕ) {r : ℕ}
    → IsSmall x
    → IsSmall y
    → (if plus
        then y
        else if minus
        then (do v ← y; some ((256 - v) % 256))
        else if hex
        then none
        else (do v ← x; some (two_digits v y)))
      ≡ some r
    → IsByte r
unfolding two_digits
pair_value-IsByte plus minus hex none none bx by e = absurd (ground arith)
pair_value-IsByte plus minus hex none (some b) bx by e = ground (arith, by b refl)
pair_value-IsByte plus minus hex (some a) none bx by e = ground (arith, bx a refl)
pair_value-IsByte plus minus hex (some a) (some b) bx by e = ground (arith, bx a refl, by b refl)

scan_item-IsByte : (s : Bytes) {v : ℕ} → scan_item s ≡ some v → IsByte v
unfolding scan_item
scan_item-IsByte [] e = absurd (ground arith)
scan_item-IsByte (c ∷ []) {v} e = omega (arith, hex_value-lt c e)
scan_item-IsByte (c ∷ d ∷ cs) e =
    pair_value-IsByte _ _ _ (hex_value c) (hex_value d) (λ v e. hex_value-lt c e)
      (λ v e. hex_value-lt d e) e

scan_hex2-IsByte : (s : Bytes) {v : ℕ} → scan_hex2 s ≡ some v → IsByte v
unfolding scan_hex2
scan_hex2-IsByte s e = scan_item-IsByte (skip_space s) e

-- As many bytes, where there is a result.
abbrev IsDecoded : ℕ → Option Bytes → Type 0
IsDecoded n none = Unit {0}
IsDecoded n (some out) = All IsByte out × (length out ≡ n)

one_more-IsDecoded :
    (n : ℕ) (o : Option ℕ) (r : Option Bytes)
    → ((v : ℕ) → o ≡ some v → IsByte v)
    → IsDecoded n r
    → IsDecoded (suc n) (do v ← o; out ← r; some (v ∷ out))
one_more-IsDecoded n none r b d = tt
one_more-IsDecoded n (some v) none b d = tt
one_more-IsDecoded n (some v) (some out) b (bytes, len) = ((b v refl, bytes), omega (arith, len))

-- One byte for each pair.
decode_pairs-IsDecoded : (s : Bytes) → IsDecoded (length s / 2) (decode_pairs s)
unfolding decode_pairs
decode_pairs-IsDecoded [] = (tt, omega arith)
decode_pairs-IsDecoded (a ∷ []) = (tt, omega arith)
decode_pairs-IsDecoded (a ∷ b ∷ s) =
    subst (λ (n : ℕ). IsDecoded n (decode_pairs (a ∷ b ∷ s))) half
      (one_more-IsDecoded (length s / 2) (scan_hex2 (a ∷ b ∷ s)) (decode_pairs s)
        (λ v e. scan_hex2-IsByte (a ∷ b ∷ s) e) (decode_pairs-IsDecoded s))
  where
    half : suc (length s / 2) ≡ length (a ∷ b ∷ s) / 2
    half = omega arith

decoded_sound :
    (n : ℕ) (o : Option Bytes) {out : Bytes}
    → IsDecoded n o
    → o ≡ some out
    → All IsByte out × (length out ≡ n)
decoded_sound n o d e = subst (λ (r : Option Bytes). IsDecoded n r) e d

pub hex_decode-IsDecoded :
    (s : Bytes) (room : ℕ) {out : Bytes}
    → hex_decode s room ≡ some out
    → All IsByte out × (length out ≡ length s / 2)
unfolding hex_decode
hex_decode-IsDecoded s room e =
    decoded_sound (length s / 2) (decode_pairs s) (decode_pairs-IsDecoded s) (kept _ e)
  where
    kept :
        (b : Bool) {r : Option Bytes} {out : Bytes}
        → (if b then none else r) ≡ some out
        → r ≡ some out
    kept b e = ground arith
