-- ===== src/Tests/ToyLaws.antt =====
-- The small host behaves as the theorems ask.
use mmhashchainsigs.Base.{
  All, Bytes, IsByte, Option, Option-cases, [], ap, arith, bind-some, bytes_eq_refl, if_true, inl,
  inr, length, length-replicate, none, refl, replicate, some, suc, sym, unsnoc, zero, ℕ, ◌*◌, ◌++◌,
  ◌+◌, ◌/◌, ◌<◌, ◌∙◌, ◌∷◌, ◌≡◌, ◌≤◌,
}
use mmhashchainsigs.Cli.Lines.Split.{IsInline}
use mmhashchainsigs.Crypto.Alg.{hash_len}
use mmhashchainsigs.Crypto.Hash.Laws.{IsDigest, IsKeyPair}
use mmhashchainsigs.Crypto.Keys.{pick_md}
use mmhashchainsigs.Format.Codec.{padding}
use mmhashchainsigs.Format.Codec.Laws.{IsBase64, pad_len, IsUnbroken}
use mmhashchainsigs.Format.Codec.Room.{IsBlockDecoder, IsBlocks}
use mmhashchainsigs.Format.Element.Clean.{IsPlain}
use mmhashchainsigs.Verifier.Handlers.Keeps.{IsWide}
use mmhashchainsigs.Tests.Toy.{check_sum, toy, toy_decode, toy_encode, toy_hash, toy_sign}

check_sum-lt : (m : Bytes) → check_sum m < 256
unfolding check_sum
check_sum-lt [] = omega arith
check_sum-lt (c ∷ cs) = omega arith

All-replicate : (n c : ℕ) → IsByte c → All IsByte (replicate n c)
All-replicate zero c h = tt
All-replicate (suc n) c h = (h, All-replicate n c h)

pub toy-IsDigest : IsDigest ⦃h = toy⦄ toy_hash
unfolding toy_hash
toy-IsDigest = record {
  digest_total = λ a m. refl;
  hash_width = λ a m. length-replicate {A = ℕ} (hash_len a) (check_sum m);
  hash_bytes = λ a m. All-replicate (hash_len a) (check_sum m) (check_sum-lt m);
}

pub toy-IsWide : IsWide ⦃h = toy⦄
toy-IsWide = record { digest_width = λ a m e. ground (arith, toy-IsDigest.hash_width a m, e) }

toy_encode-IsPlain : (s : Bytes) → All IsByte s → All IsPlain (toy_encode s)
unfolding toy_encode
toy_encode-IsPlain [] h = tt
toy_encode-IsPlain (a ∷ []) h = omega arith
toy_encode-IsPlain (a ∷ b ∷ []) h = omega arith
toy_encode-IsPlain (a ∷ b ∷ c ∷ s) (ha, (hb, (hc, hs))) =
    (omega arith, (omega arith, (omega arith, (omega arith, toy_encode-IsPlain s hs))))

toy_encode-IsInline : (s : Bytes) → All IsByte s → All IsInline (toy_encode s)
unfolding toy_encode
toy_encode-IsInline [] h = tt
toy_encode-IsInline (a ∷ []) h = omega arith
toy_encode-IsInline (a ∷ b ∷ []) h = omega arith
toy_encode-IsInline (a ∷ b ∷ c ∷ s) (ha, (hb, (hc, hs))) =
    (omega arith, (omega arith, (omega arith, (omega arith, toy_encode-IsInline s hs))))

pub toy-IsUnbroken : IsUnbroken ⦃h = toy⦄
toy-IsUnbroken = record { encode_inline = toy_encode-IsInline }

encode_length : (s : Bytes) → length (toy_encode s) ≡ (length s + 2) / 3 * 4
unfolding toy_encode
encode_length [] = refl
encode_length (a ∷ []) = refl
encode_length (a ∷ b ∷ []) = refl
encode_length (a ∷ b ∷ c ∷ s) = omega (arith, encode_length s)

padding-cons : (c : ℕ) (s : Bytes) → 2 ≤ length s → padding (c ∷ s) ≡ padding s
unfolding padding
padding-cons c [] h = absurd (omega arith)
padding-cons c (x ∷ []) h = absurd (omega arith)
padding-cons c (x ∷ y ∷ t) h = elim (Option-cases (unsnoc (y ∷ t))) [
  | inl e ↦ rw e
  | inr ((l, z), e) ↦ rw e (ground arith)
]

pad_len-suc : (n : ℕ) → pad_len (suc (suc (suc n))) ≡ pad_len n
pad_len-suc n = omega arith

decode_encode :
    (s : Bytes)
    → All IsByte s
    → toy_decode (toy_encode s) ≡ some (s ++ replicate (pad_len (length s)) 0)
unfolding toy_encode toy_decode
decode_encode [] h = refl
decode_encode (a ∷ []) h = ground arith
decode_encode (a ∷ b ∷ []) h = ground arith
decode_encode (a ∷ b ∷ c ∷ s) (ha, (hb, (hc, hs))) =
    ground (arith, decode_encode s hs, pad_len-suc (length s))

padding_group : (x y z : ℕ) (s : Bytes) → 2 ≤ length s → padding (x ∷ y ∷ z ∷ 1000 ∷ s) ≡ padding s
padding_group x y z s h =
    padding-cons x (y ∷ z ∷ 1000 ∷ s) (omega arith)
    ∙ padding-cons y (z ∷ 1000 ∷ s) (omega arith)
    ∙ padding-cons z (1000 ∷ s) (omega arith)
    ∙ padding-cons 1000 s h

at_least : (s : Bytes) → 0 < length s → 2 ≤ length (toy_encode s)
at_least s h = omega (arith, encode_length s)

encode_padding : (s : Bytes) → padding (toy_encode s) ≡ pad_len (length s)
unfolding toy_encode padding
encode_padding [] = refl
encode_padding (a ∷ []) = ground arith
encode_padding (a ∷ b ∷ []) = ground arith
encode_padding (a ∷ b ∷ c ∷ []) = ground arith
encode_padding (a ∷ b ∷ c ∷ e ∷ s) =
    padding_group (a + 1000) (b + 1000) (c + 1000) (toy_encode (e ∷ s))
      (at_least (e ∷ s) (omega arith))
    ∙ encode_padding (e ∷ s)
    ∙ sym (pad_len-suc (length (e ∷ s)))

pub toy-IsBase64 : IsBase64
toy-IsBase64 = record {
  encode_plain = toy_encode-IsPlain;
  encode_length = encode_length;
  encode_padding = encode_padding;
  decode_encode = decode_encode;
}

pub toy-IsKeyPair : IsKeyPair tt tt toy_sign
unfolding toy_sign pick_md
toy-IsKeyPair = record {
  md = none;
  md_private = refl;
  md_public = refl;
  signs = λ m. refl;
  short = λ m. omega arith;
  bytes = λ m. (check_sum-lt m, (omega arith, tt));
  verifies = λ m. if_true _ _ (bytes_eq_refl (toy_sign m));
}

toy_decode-IsBlocks : (s : Bytes) {d : Bytes} → toy_decode s ≡ some d → IsBlocks s d
unfolding toy_decode padding
toy_decode-IsBlocks [] e = record {
  count = 0;
  exact = ap count_of (sym e);
  within = omega arith;
  padded = λ p. p;
}
  where
    count_of : Option Bytes → ℕ
    count_of none = 0
    count_of (some d) = length d
toy_decode-IsBlocks (a ∷ b ∷ c ∷ x ∷ s) e =
    let (rest, decoded, same) = bind-some (toy_decode s) _ e in
    let t = toy_decode-IsBlocks s decoded in
    record {
      count = suc t.count;
      exact = ground (arith, same, t.exact);
      within = omega (arith, t.within);
      padded = λ p. omega arith;
    }
toy_decode-IsBlocks (a ∷ []) e = absurd (ground arith)
toy_decode-IsBlocks (a ∷ b ∷ []) e = absurd (ground arith)
toy_decode-IsBlocks (a ∷ b ∷ c ∷ []) e = absurd (ground arith)

pub toy-IsBlockDecoder : IsBlockDecoder ⦃h = toy⦄
toy-IsBlockDecoder = record { blocks = toy_decode-IsBlocks }
