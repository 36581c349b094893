-- ===== src/Format/Params/Typed.antt =====
-- The values that are extracted fit where they are stored.
use mmhashchainsigs.Base.{
  All, Bool, Bytes, IsByte, Option, arith, bind-some, c_string, codes, false, if◌then◌else◌, length,
  ltb, none, not, some, u64_mod, ℕ, ◌*◌, ◌<◌, ◌==◌, ◌≡◌,
}
use mmhashchainsigs.Crypto.Alg.{HashAlg, alg_from_hex_len, alg_from_hex_len_sound, hash_len}
use mmhashchainsigs.Format.Hex.Decoded.{hex_decode-IsDecoded}
use mmhashchainsigs.Format.Number.Range.{strtoull-lt}
use mmhashchainsigs.Format.Params.{
  extract_chain_hash, extract_hex, extract_uint64, get_param, uint64_value,
}

uint64_value-lt : (v : Bytes) (old : ℕ) → old < u64_mod → (uint64_value v old).0 < u64_mod
unfolding uint64_value
uint64_value-lt v old small = ground (arith, strtoull-lt (c_string v))

pub extract_uint64-lt :
    (body key : Bytes) (old : ℕ) → old < u64_mod → (extract_uint64 body key old).0 < u64_mod
unfolding extract_uint64
extract_uint64-lt body key old small =
    elim (get_param body key)
      as (λ (o : Option Bytes).
        (elim o as (λ (o : Option Bytes). ℕ × Bool) [
          | none ↦ (old, false)
          | some v ↦ uint64_value v old
        ]).0
        < u64_mod) [ none ↦ small | some v ↦ uint64_value-lt v old small ]

-- A guard in front of a result.
unguarded :
    (b : Bool) {r : Option Bytes} {out : Bytes}
    → (if b then none else r) ≡ some out
    → (b ≡ false) × (r ≡ some out)
unguarded b e = ground arith

pub extract_hex-width :
    (body key : Bytes) (n : ℕ) {out : Bytes}
    → extract_hex body key n ≡ some out
    → All IsByte out × (length out ≡ n)
unfolding extract_hex
extract_hex-width body key n e =
    let (v, found, r) = bind-some (get_param body key) _ e in
    let (exact, s) = unguarded (not (length v == n * 2)) r in
    let (room, t) = unguarded (ltb 128 (length v)) s in
    let (bytes, len) = hex_decode-IsDecoded v n t in (bytes, ground (arith, len, exact))

pub extract_chain_hash-width :
    (body : Bytes) {out : Bytes}
    → extract_chain_hash body ≡ some out
    → (a : HashAlg) × All IsByte out × (length out ≡ hash_len a)
unfolding extract_chain_hash
extract_chain_hash-width body e =
    let (v, found, r) = bind-some (get_param body (codes "h")) _ e in
    let (a, named, s) = bind-some (alg_from_hex_len (length v)) _ r in
    let (room, t) = unguarded (ltb 128 (length v)) s in
    let (bytes, len) = hex_decode-IsDecoded v (hash_len a) t in
    (a, bytes, omega (arith, len, alg_from_hex_len_sound (length v) a named))
