-- ===== src/Format/Codec/Room.antt =====
-- When `hcs_b64_decode` stays inside the buffer that it is given.
use mmhashchainsigs.Base.{
  Bool-cases, Bytes, Option, Res, [], failed, ok, take, zero, suc, ◌∷◌, ◌-◌, if◌then◌else◌, arith,
  false, fault, inl, inr, length, ltb, ltb→lt, none, refl, some, unsnoc, ℕ, ◌*◌, ◌+◌, ◌<◌, ◌||◌,
  ◌≡◌, ◌≢◌, ◌≤◌,
}
use mmhashchainsigs.Crypto.Host.{Host}
use mmhashchainsigs.Format.Codec.{b64_decode, before_last, pad_at, padding}

-- What `EVP_DecodeBlock` gives for a text: three bytes for each four characters that are left
-- without the blanks around them, of which a padded text has some.
pub record IsBlocks (s d : Bytes) : Type 0 where
  pub count : ℕ
  pub exact : length d ≡ 3 * count
  pub within : 4 * count ≤ length s
  pub padded : 0 < padding s → 0 < count

pub record IsBlockDecoder ⦃h : Host⦄ : Type 0 where
  pub blocks : (s : Bytes) {d : Bytes} → h.decode_block s ≡ some d → IsBlocks s d

padding-le : (s : Bytes) → padding s ≤ 2
unfolding padding
padding-le s = omega (arith, pad_at-le (unsnoc s), pad_at-le (unsnoc (before_last (unsnoc s))))
  where
    pad_at-le : (o : Option (Bytes × ℕ)) → pad_at o ≤ 1
    pad_at-le none = omega arith
    pad_at-le (some (t, c)) = ground arith

take-le : (n : ℕ) (s : Bytes) → length (take n s) ≤ length s
take-le zero s = omega arith
take-le (suc n) [] = omega arith
take-le (suc n) (c ∷ s) = omega (arith, take-le n s)

-- What is decoded fits the room, whatever OpenSSL gives.
pub b64_decode-room :
    ⦃h : Host⦄ (s : Bytes) (room : ℕ) {out : Bytes} → b64_decode s room ≡ ok out → length out ≤ room
unfolding b64_decode
b64_decode-room ⦃h⦄ s room {out} = decoded (h.decode_block s)
  where
    decoded :
        (o : Option Bytes)
        → (elim o as (λ (o : Option Bytes). Res Bytes) [
          | none ↦ failed
          | some d ↦
              if ltb room (length d) || ltb (length d) (padding s)
              then fault
              else ok (take (length d - padding s) d)
        ])
          ≡ ok out
        → length out ≤ room
    decoded none e = absurd (ground arith)
    decoded (some d) e = ground (arith, take-le (length d - padding s) d)

module _ ⦃h : Host⦄ (dec : IsBlockDecoder) where
  block_room :
      (s d : Bytes) (room : ℕ)
      → IsBlocks s d
      → 3 * length s ≤ 4 * room + 3
      → (ltb room (length d) || ltb (length d) (padding s)) ≡ false
  block_room s d room b small =
      let count : length d ≤ room = omega (arith, b.exact, b.within, small) in
      let pad : padding s ≤ length d = padded (padding s) (padding-le s) b.padded in
      ground (arith, count, pad)
    where
      padded : (n : ℕ) → n ≤ 2 → (0 < n → 0 < b.count) → n ≤ length d
      padded n two some_count = elim (Bool-cases (ltb 0 n)) [
        | inl p ↦ omega (arith, two, b.exact, some_count (ltb→lt 0 n p))
        | inr p ↦ ground arith
      ]

  -- A text of few enough characters is decoded or refused.
  pub b64_decode-within :
      (s : Bytes) (room : ℕ) → 3 * length s ≤ 4 * room + 3 → b64_decode s room ≢ fault
  unfolding b64_decode
  b64_decode-within s room small = of_block (h.decode_block s) refl
    where
      of_block : (o : Option Bytes) → h.decode_block s ≡ o → b64_decode s room ≢ fault
      of_block none e = rw (e, b64_decode) (λ f. ground arith)
      of_block (some d) e =
          rw (e, b64_decode) (rw (block_room s d room (dec.blocks s e) small) (λ f. ground arith))
