-- ===== src/Format/Parse/Room.antt =====
-- When `hcs_parse_sd` stays inside the record's buffers.
use mmhashchainsigs.Base.{
  Bool, Bytes, Option, Res, arith, codes, failed, false, fault, if◌then◌else◌, leb, length, none,
  ok, refl, some, strip_prefix-append, true, unsnoc, ℕ, ◌*◌, ◌++◌, ◌+◌, ◌==◌, ◌≡◌, ◌≢◌,
}
use mmhashchainsigs.Crypto.Alg.{fp_len}
use mmhashchainsigs.Crypto.Host.{Host}
use mmhashchainsigs.Format.Codec.{b64_decode}
use mmhashchainsigs.Format.Codec.Room.{IsBlockDecoder, b64_decode-within}
use mmhashchainsigs.Format.Element.{b64_sig_room}
use mmhashchainsigs.Format.Element.Ids.{sd_prefix}
use mmhashchainsigs.Format.Params.{extract_chain_hash, extract_hex, extract_uint64, get_param}
use mmhashchainsigs.Format.Parse.{
  SdRecord, assemble, closing, decoded, parse_body, parse_sd, sig_len_max, with_signature,
}

-- The value of a SIG element decodes to 144 bytes at most.
sig_value_fits : Option Bytes → Bool
sig_value_fits none = true
sig_value_fits (some v) = leb (3 * length v) (4 * sig_len_max + 3)

body_fits : Option (Bytes × ℕ) → Bool
unfolding sig_value_fits
body_fits none = true
body_fits (some (body, last)) = sig_value_fits (get_param body (codes "s"))

-- An element, given from behind its identifier on.
unfoldable pub sig_fits : Bytes → Bool
unfolding body_fits
sig_fits rest = body_fits (unsnoc rest)

module _ ⦃h : Host⦄ (dec : IsBlockDecoder) where
  decoded-within : (b : Res Bytes) (r : SdRecord) → b ≢ fault → decoded b r ≢ fault
  unfolding decoded
  decoded-within (ok sig) r n = λ f. ground arith
  decoded-within failed r n = λ f. ground arith
  decoded-within fault r n = λ f. n refl

  with_signature-within :
      (sig : Option Bytes) (r : SdRecord) → sig_value_fits sig ≡ true → with_signature sig r ≢ fault
  unfolding with_signature sig_value_fits
  with_signature-within none r s = λ f. ground arith
  with_signature-within (some v) r s = either (leb b64_sig_room (length v)) (
      decoded-within (b64_decode v sig_len_max) r
        (b64_decode-within dec v sig_len_max (ground (arith, s))))
    where
      either : (b : Bool) {x : Res SdRecord} → x ≢ fault → (if b then failed else x) ≢ fault
      either true n = λ f. ground arith
      either false n = n

  assemble-within :
      (t : Option Bytes) (seq : ℕ × Bool) (hash fp : Option Bytes) (from to : ℕ × Bool)
      (sig : Option Bytes)
      → sig_value_fits sig ≡ true
      → assemble t seq hash fp from to sig ≢ fault
  unfolding assemble
  assemble-within t (seq, false) hash fp from to sig s = λ f. ground arith
  assemble-within t (seq, true) none fp from to sig s = λ f. ground arith
  assemble-within t (seq, true) (some hash) fp from to sig s = with_signature-within sig _ s

  parse_body-within :
      (body : Bytes) → sig_value_fits (get_param body (codes "s")) ≡ true → parse_body body ≢ fault
  unfolding parse_body
  parse_body-within body s =
      assemble-within (get_param body (codes "t")) (extract_uint64 body (codes "q") 0)
        (extract_chain_hash body) (extract_hex body (codes "f") fp_len)
        (extract_uint64 body (codes "qf") 0) (extract_uint64 body (codes "qt") 0)
        (get_param body (codes "s")) s

  closing-within : (u : Option (Bytes × ℕ)) → body_fits u ≡ true → closing u ≢ fault
  unfolding closing body_fits
  closing-within none s = λ f. ground arith
  closing-within (some (body, last)) s = either (last == b']') (parse_body-within body s)
    where
      either : (b : Bool) {x : Res SdRecord} → x ≢ fault → (if b then x else failed) ≢ fault
      either true n = n
      either false n = λ f. ground arith

  pub parse_sd-within : (rest : Bytes) → sig_fits rest ≡ true → parse_sd (sd_prefix ++ rest) ≢ fault
  unfolding parse_sd sig_fits
  parse_sd-within rest s =
      rw (strip_prefix-append sd_prefix rest, parse_sd) (closing-within (unsnoc rest) s)
