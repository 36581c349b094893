-- ===== src/Format/Parse.antt =====
-- `hcs_parse_sd`.
pub mod RoundTrip
pub mod Room
pub mod Typed
use mmhashchainsigs.Base.{
  Bool, Bytes, Option, Res, [], codes, failed, false, fault, if◌then◌else◌, leb, length, none, ok,
  some, strip_prefix, true, unsnoc, ℕ, ◌==◌, ◌∷◌,
}
use mmhashchainsigs.Crypto.Alg.{fp_len}
use mmhashchainsigs.Crypto.Host.{Host}
use mmhashchainsigs.Format.Codec.{b64_decode}
use mmhashchainsigs.Format.Element.{b64_sig_room}
use mmhashchainsigs.Format.Element.Ids.{sd_prefix}
use mmhashchainsigs.Format.Params.{extract_chain_hash, extract_hex, extract_uint64, get_param}

-- `hcs_sd_record_t`. The type is the byte itself, 0 for a plain message; the lengths are those of
-- the byte strings.
pub record SdRecord : Type 0 where
  pub sd_type : ℕ
  pub seq : ℕ
  pub chain_hash : Bytes
  pub pubkey_fp : Bytes
  pub has_pubkey_fp : Bool
  pub seq_from : ℕ
  pub seq_to : ℕ
  pub signature : Bytes
  pub has_signature : Bool

-- `sizeof(out->signature)`
abbrev pub sig_len_max : ℕ
sig_len_max = 144

-- `memset(out, 0, sizeof(*out))`
abbrev pub empty_record : SdRecord
empty_record = record {
  sd_type = 0;
  seq = 0;
  chain_hash = [];
  pubkey_fp = [];
  has_pubkey_fp = false;
  seq_from = 0;
  seq_to = 0;
  signature = [];
  has_signature = false;
}

type_of : Option Bytes → ℕ
type_of (some (c ∷ [])) = c
type_of _ = 0

with_fp : Option Bytes → SdRecord → SdRecord
with_fp none r = r
with_fp (some fp) r = record r { pubkey_fp = fp; has_pubkey_fp = true }

module _ ⦃h : Host⦄ where
  decoded : Res Bytes → SdRecord → Res SdRecord
  decoded (ok sig) r = ok (record r { signature = sig; has_signature = true })
  decoded failed r = failed
  decoded fault r = fault

  with_signature : Option Bytes → SdRecord → Res SdRecord
  unfolding decoded
  with_signature none r = ok r
  with_signature (some v) r =
      if leb b64_sig_room (length v) then failed else decoded (b64_decode v sig_len_max) r

  -- The fields in the order in which the source reads them: `q`, the chain hash, the fingerprint,
  -- `qf`, `qt` and the signature, with the type in front.
  assemble :
      Option Bytes
      → ℕ × Bool
      → Option Bytes
      → Option Bytes
      → ℕ × Bool
      → ℕ × Bool
      → Option Bytes
      → Res SdRecord
  unfolding type_of with_fp with_signature
  assemble t (seq, false) hash fp from to sig = failed
  assemble t (seq, true) none fp from to sig = failed
  assemble t (seq, true) (some hash) fp from to sig = with_signature sig (
      with_fp fp (record empty_record {
        sd_type = type_of t;
        seq = seq;
        chain_hash = hash;
        seq_from = from.0;
        seq_to = to.0;
      }))

  -- From `sd_get_param(body, end, "t", &vlen)` on. What `sd_extract_uint64` returns for `qf` and
  -- `qt` is not looked at.
  unfoldable pub parse_body : Bytes → Res SdRecord
  unfolding assemble
  parse_body body =
      assemble (get_param body (codes "t")) (extract_uint64 body (codes "q") 0)
        (extract_chain_hash body) (extract_hex body (codes "f") fp_len)
        (extract_uint64 body (codes "qf") 0) (extract_uint64 body (codes "qt") 0)
        (get_param body (codes "s"))

  -- The last byte must be `]`; the body stands in front of it.
  closing : Option (Bytes × ℕ) → Res SdRecord
  closing none = failed
  closing (some (body, last)) = if last == b']' then parse_body body else failed

  unfoldable pub parse_sd : Bytes → Res SdRecord
  unfolding closing
  parse_sd sd = elim (strip_prefix sd_prefix sd) [
    | none ↦ failed
    | some rest ↦ closing (unsnoc rest)
  ]
