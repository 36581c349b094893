-- ===== src/Format/Parse/Typed.antt =====
-- What `hcs_parse_sd` leaves in a record fits the types and the arrays of the record.
use mathlib.Core.Path.{subst}
use mmhashchainsigs.Base.{
  All, Bool, Bytes, IsByte, Option, Res, arith, failed, false, fault, if◌then◌else◌, leb, length,
  none, ok, refl, some, strip_prefix, true, u64_mod, unsnoc, ℕ, ◌<◌, ◌==◌, ◌≡◌, ◌≤◌, codes,
}
use mmhashchainsigs.Crypto.Alg.{HashAlg, fp_len, hash_len}
use mmhashchainsigs.Crypto.Host.{Host}
use mmhashchainsigs.Format.Codec.{b64_decode}
use mmhashchainsigs.Format.Codec.Room.{b64_decode-room}
use mmhashchainsigs.Format.Element.{b64_sig_room}
use mmhashchainsigs.Format.Element.Ids.{sd_prefix}
use mmhashchainsigs.Format.Params.{extract_chain_hash, extract_hex, extract_uint64, get_param}
use mmhashchainsigs.Format.Params.Typed.{
  extract_chain_hash-width, extract_hex-width, extract_uint64-lt,
}
use mmhashchainsigs.Format.Parse.{
  SdRecord, assemble, closing, decoded, parse_body, parse_sd, sig_len_max, with_fp, with_signature,
}

-- The numbers are 64 bits wide, the chain hash has the width of an algorithm, the fingerprint its
-- 32 bytes, and the signature stays in its array.
pub record IsTyped (r : SdRecord) : Type 0 where
  pub seqs : (r.seq < u64_mod) × (r.seq_from < u64_mod) × (r.seq_to < u64_mod)
  pub hash_bytes : All IsByte r.chain_hash
  pub hash_alg : (a : HashAlg) × (length r.chain_hash ≡ hash_len a)
  pub fp_bytes : All IsByte r.pubkey_fp
  pub fp_width : r.has_pubkey_fp ≡ true → length r.pubkey_fp ≡ fp_len
  pub sig_room : length r.signature ≤ sig_len_max

abbrev IsTypedRes : Res SdRecord → Type 0
IsTypedRes (ok r) = IsTyped r
IsTypedRes failed = Unit {0}
IsTypedRes fault = Unit {0}

with_fp-IsTyped :
    (o : Option Bytes) (r : SdRecord)
    → ((fp : Bytes) → o ≡ some fp → All IsByte fp × (length fp ≡ fp_len))
    → IsTyped r
    → IsTyped (with_fp o r)
unfolding with_fp
with_fp-IsTyped none r fits t = t
with_fp-IsTyped (some fp) r fits t =
    let (bytes, width) = fits fp refl in
    record {
      seqs = t.seqs;
      hash_bytes = t.hash_bytes;
      hash_alg = t.hash_alg;
      fp_bytes = bytes;
      fp_width = λ e. width;
      sig_room = t.sig_room;
    }

module _ ⦃h : Host⦄ where
  decoded-IsTyped :
      (o : Res Bytes) (r : SdRecord)
      → ((sig : Bytes) → o ≡ ok sig → length sig ≤ sig_len_max)
      → IsTyped r
      → IsTypedRes (decoded o r)
  unfolding decoded
  decoded-IsTyped failed r fits t = tt
  decoded-IsTyped fault r fits t = tt
  decoded-IsTyped (ok sig) r fits t = record {
    seqs = t.seqs;
    hash_bytes = t.hash_bytes;
    hash_alg = t.hash_alg;
    fp_bytes = t.fp_bytes;
    fp_width = t.fp_width;
    sig_room = fits sig refl;
  }

  with_signature-IsTyped :
      (o : Option Bytes) (r : SdRecord) → IsTyped r → IsTypedRes (with_signature o r)
  unfolding with_signature
  with_signature-IsTyped none r t = t
  with_signature-IsTyped (some v) r t = by_room (leb b64_sig_room (length v))
    where
      by_room : (b : Bool) → IsTypedRes (if b then failed else decoded (b64_decode v sig_len_max) r)
      by_room true = tt
      by_room false =
          decoded-IsTyped (b64_decode v sig_len_max) r (λ sig e. b64_decode-room v sig_len_max e) t

  -- The record before the signature.
  assemble-IsTyped :
      (t : Option Bytes) (seq : ℕ × Bool) (hash fp : Option Bytes) (from to : ℕ × Bool)
      (sig : Option Bytes)
      → (seq.0 < u64_mod) × (from.0 < u64_mod) × (to.0 < u64_mod)
      → ((v : Bytes) → hash ≡ some v → (a : HashAlg) × All IsByte v × (length v ≡ hash_len a))
      → ((v : Bytes) → fp ≡ some v → All IsByte v × (length v ≡ fp_len))
      → IsTypedRes (assemble t seq hash fp from to sig)
  unfolding assemble
  assemble-IsTyped t (seq, false) hash fp from to sig numbers h f = tt
  assemble-IsTyped t (seq, true) none fp from to sig numbers h f = tt
  assemble-IsTyped t (seq, true) (some hash) fp from to sig numbers h f =
      let (a, bytes, width) = h hash refl in
      with_signature-IsTyped sig _ (
        with_fp-IsTyped fp _ f (record {
          seqs = numbers;
          hash_bytes = bytes;
          hash_alg = (a, width);
          fp_bytes = tt;
          fp_width = λ e. absurd (ground arith);
          sig_room = omega arith;
        }))

  parse_body-IsTyped : (body : Bytes) → IsTypedRes (parse_body body)
  unfolding parse_body
  parse_body-IsTyped body =
      assemble-IsTyped (get_param body (codes "t")) (extract_uint64 body (codes "q") 0)
        (extract_chain_hash body) (extract_hex body (codes "f") fp_len)
        (extract_uint64 body (codes "qf") 0) (extract_uint64 body (codes "qt") 0)
        (get_param body (codes "s"))
        (
          extract_uint64-lt body (codes "q") 0 (omega arith),
          extract_uint64-lt body (codes "qf") 0 (omega arith),
          extract_uint64-lt body (codes "qt") 0 (omega arith),
        )
        (λ v e. extract_chain_hash-width body e)
        (λ v e. extract_hex-width body (codes "f") fp_len e)

  closing-IsTyped : (o : Option (Bytes × ℕ)) → IsTypedRes (closing o)
  unfolding closing
  closing-IsTyped none = tt
  closing-IsTyped (some (body, last)) = by_last (last == b']')
    where
      by_last : (b : Bool) → IsTypedRes (if b then parse_body body else failed)
      by_last true = parse_body-IsTyped body
      by_last false = tt

  parsed-IsTyped : (sd : Bytes) → IsTypedRes (parse_sd sd)
  unfolding parse_sd
  parsed-IsTyped sd =
      elim (strip_prefix sd_prefix sd)
        as (λ (o : Option Bytes). IsTypedRes (elim o as (λ (o : Option Bytes). Res SdRecord) [
          | none ↦ failed
          | some rest ↦ closing (unsnoc rest)
        ])) [ none ↦ tt | some rest ↦ closing-IsTyped (unsnoc rest) ]

  -- Whatever bytes `hcs_parse_sd` is given, a record that it returns fits its C types: the three
  -- numbers are below 2 to the 64th, the chain hash is bytes of the width of an algorithm, the
  -- fingerprint is bytes, 32 of them where it is present, and the signature has at most 144 bytes.
  pub parse_sd-IsTyped : (sd : Bytes) (r : SdRecord) → parse_sd sd ≡ ok r → IsTyped r
  parse_sd-IsTyped sd r e = subst (λ (o : Res SdRecord). IsTypedRes o) e (parsed-IsTyped sd)
