-- ===== src/Tests/Texts.antt =====
-- The theorems on texts and buffers, at concrete texts.
use mmhashchainsigs.Base.{
  All, Bool, Bytes, IsByte, arith, codes, false, length, ok, refl, some, strip_prefix, true, ◌++◌,
  ◌∷◌, ◌≡◌, ◌≤◌,
}
use mmhashchainsigs.Crypto.Alg.{fp_len, hash_len, hash_len-le, hash_len_max, sha256}
use mmhashchainsigs.Format.Element.{
  format_sd_sig, join_params, msg_params, opening_params, sd_element, sig_params,
}
use mmhashchainsigs.Format.Element.Bounds.{format_sd_sig_total}
use mmhashchainsigs.Format.Element.Clean.{msg_params-IsClean}
use mmhashchainsigs.Format.Element.Ids.{prefix_of, sd_id, sd_prefix}
use mmhashchainsigs.Format.Header.{escape_param}
use mmhashchainsigs.Format.Header.Escape.{quoted-escape_param, unescaped}
use mmhashchainsigs.Format.Params.{get_param}
use mmhashchainsigs.Format.Params.Lookup.{get_param-join_params, value_of}
use mmhashchainsigs.Format.Parse.{SdRecord, empty_record, parse_sd}
use mmhashchainsigs.Format.Parse.RoundTrip.{parse_sd-msg, parse_sd-opening, parse_sd-sig}
use mmhashchainsigs.Format.Parse.Typed.{IsTyped, parse_sd-IsTyped}
use mmhashchainsigs.Format.Scan.{find_prefix, quoted}
use mmhashchainsigs.Format.Strip.{strip_all_sd, strip_sd_from_line}
use mmhashchainsigs.Format.Strip.All.{strip_all_sd-absent, strip_all_sd-total}
use mmhashchainsigs.Format.Strip.Line.{strip_sd_from_line-element}
use mmhashchainsigs.Tests.Toy.{toy, toy_hash, toy_key, toy_sign}
use mmhashchainsigs.Tests.ToyLaws.{toy-IsBase64, toy-IsDigest, toy-IsKeyPair}

abbrev some_hash : Bytes
some_hash = toy_hash sha256 (codes "one")

abbrev pub some_fp : Bytes
some_fp = toy_hash sha256 toy_key

some_hash_width : length some_hash ≡ hash_len sha256
some_hash_width = toy-IsDigest.hash_width sha256 (codes "one")

some_hash_bytes : All IsByte some_hash
some_hash_bytes = toy-IsDigest.hash_bytes sha256 (codes "one")

pub fp_width : length some_fp ≡ fp_len
unfolding hash_len
fp_width = toy-IsDigest.hash_width sha256 toy_key

get_param-join_params_example :
    get_param (join_params (msg_params 5 some_hash)) (codes "q")
    ≡ value_of (codes "q") (msg_params 5 some_hash)
get_param-join_params_example =
    get_param-join_params (msg_params 5 some_hash) (codes "q")
      (msg_params-IsClean 5 some_hash some_hash_bytes) (omega arith)

parse_sd-opening_example :
    parse_sd ⦃h = toy⦄ (sd_element sd_prefix (opening_params (codes "I") 5 some_hash some_fp))
    ≡ ok (record empty_record {
      sd_type = b'I';
      seq = 5;
      chain_hash = some_hash;
      pubkey_fp = some_fp;
      has_pubkey_fp = true;
    })
parse_sd-opening_example =
    parse_sd-opening ⦃h = toy⦄ sha256 5 some_hash (omega arith) some_hash_width some_hash_bytes b'I'
      some_fp (omega arith) fp_width (toy-IsDigest.hash_bytes sha256 toy_key)

abbrev sig_element : Bytes
sig_element =
    sd_element sd_prefix (sig_params 5 some_hash 2 5 (toy.encode_block (toy_sign some_hash)))

abbrev sig_read : SdRecord
sig_read = record empty_record {
  sd_type = b'S';
  seq = 5;
  chain_hash = some_hash;
  seq_from = 2;
  seq_to = 5;
  signature = toy_sign some_hash;
  has_signature = true;
}

parse_sd-sig_example : parse_sd ⦃h = toy⦄ sig_element ≡ ok sig_read
parse_sd-sig_example =
    parse_sd-sig ⦃h = toy⦄ sha256 5 some_hash (omega arith) some_hash_width some_hash_bytes
      toy-IsBase64 2 5 (toy_sign some_hash) (omega arith) (omega arith)
      (toy-IsKeyPair.bytes some_hash) (toy-IsKeyPair.short some_hash)

parse_sd-IsTyped_example : IsTyped sig_read
parse_sd-IsTyped_example = parse_sd-IsTyped ⦃h = toy⦄ sig_element sig_read sig_is_read
  where
    sig_is_read : parse_sd ⦃h = toy⦄ sig_element ≡ ok sig_read
    sig_is_read =
        parse_sd-sig ⦃h = toy⦄ sha256 5 some_hash (omega arith) some_hash_width some_hash_bytes
          toy-IsBase64 2 5 (toy_sign some_hash) (omega arith) (omega arith)
          (toy-IsKeyPair.bytes some_hash) (toy-IsKeyPair.short some_hash)

strip_sd_from_line-element_example :
    strip_sd_from_line ⦃h = toy⦄
      (sd_element sd_prefix (msg_params 5 some_hash) ++ codes " hello")
      0
      8192
    ≡ ok (codes " hello", record empty_record { seq = 5; chain_hash = some_hash })
strip_sd_from_line-element_example =
    strip_sd_from_line-element ⦃h = toy⦄ (msg_params 5 some_hash)
      (record empty_record { seq = 5; chain_hash = some_hash }) (codes " hello") 0 8192
      (msg_params-IsClean 5 some_hash some_hash_bytes) parse_sd-msg_lem (omega arith)
  where
    parse_sd-msg_lem :
        parse_sd ⦃h = toy⦄ (sd_element sd_prefix (msg_params 5 some_hash))
        ≡ ok (record empty_record { seq = 5; chain_hash = some_hash })
    parse_sd-msg_lem =
        parse_sd-msg ⦃h = toy⦄ sha256 5 some_hash (omega arith) some_hash_width some_hash_bytes

format_sd_sig_total_example :
    format_sd_sig ⦃h = toy⦄ 5 some_hash 2 5 (toy_sign some_hash) 512
    ≡ some
        (sd_element sd_prefix (sig_params 5 some_hash 2 5 (toy.encode_block (toy_sign some_hash))))
format_sd_sig_total_example =
    format_sd_sig_total 5 some_hash 512 (hash_le) (omega arith) ⦃h = toy⦄ toy-IsBase64 2 5
      (toy_sign some_hash) (toy-IsKeyPair.short some_hash)
  where
    hash_le : length some_hash ≤ hash_len_max
    hash_le = omega (arith, some_hash_width, hash_len-le sha256)

abbrev field_text : Bytes
field_text = codes "a]b"

quoted-escape_param_example :
    (quoted false (codes "a\\]b" ++ b'"' ∷ codes " x") ≡ some (codes "a\\]b", codes " x"))
    × (unescaped false (codes "a\\]b") ≡ field_text)
unfolding escape_param
quoted-escape_param_example =
    quoted-escape_param field_text (codes " x") 136 {t = codes "a\\]b"} refl

abbrev client_sd : Bytes
client_sd = codes "[mmhashchainsigs@32473 q=\"1\"][x@1 a=\"b\"]"

strip_all_sd-total_example :
    (t : Bytes) × (removed : Bool) × (strip_all_sd client_sd sd_id 100 ≡ some (t, removed))
    × (length t ≤ length client_sd)
unfolding prefix_of sd_id
strip_all_sd-total_example =
    strip_all_sd-total client_sd sd_id 100 (omega arith) (omega arith) (omega arith)

strip_all_sd-absent_example :
    strip_all_sd (codes "[x@1 a=\"b\"]") sd_id 100 ≡ some (codes "[x@1 a=\"b\"]", false)
unfolding prefix_of sd_id find_prefix strip_prefix
strip_all_sd-absent_example =
    strip_all_sd-absent (codes "[x@1 a=\"b\"]") sd_id 100 (omega arith) refl (omega arith)
