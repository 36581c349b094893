-- ===== src/Format/Parse/RoundTrip.antt =====
-- `hcs_parse_sd` reads back the elements that `hcs_format_sd_*` print.
use mmhashchainsigs.Base.{
  All, Bytes, IsByte, List, [], arith, bytes_eq, codes, false, leb, length, le→ltb, ltb, none, ok,
  some, strip_prefix-append, true, u64_mod, unsnoc-concat, ℕ, ◌*◌, ◌++◌, ◌<◌, ◌∙◌, ◌∷◌, ◌≡◌, ◌≤◌,
}
use mmhashchainsigs.Crypto.Alg.{HashAlg, alg_from_hex_len-hash_len, fp_len, hash_len, hash_len-le}
use mmhashchainsigs.Crypto.Host.{Host}
use mmhashchainsigs.Format.Codec.Laws.{IsBase64, b64_decode-encode}
use mmhashchainsigs.Format.Element.{
  b64_sig_room, join_params, msg_params, opening_params, sd_element, sig_params,
}
use mmhashchainsigs.Format.Element.Clean.{
  IsKeyByte, IsPlain, msg_params-IsClean, opening_params-IsClean, sig_params-IsClean,
}
use mmhashchainsigs.Format.Element.Ids.{sd_prefix}
use mmhashchainsigs.Format.Hex.{hex_encode}
use mmhashchainsigs.Format.Hex.RoundTrip.{hex_decode-hex_encode, length-hex_encode}
use mmhashchainsigs.Format.Number.{print_ulong}
use mmhashchainsigs.Format.Number.RoundTrip.{
  c_string-IsDigit, length-print_ulong, print_ulong-IsDigit, strtoull-print_ulong,
}
use mmhashchainsigs.Format.Params.{extract_chain_hash, extract_hex, extract_uint64, get_param}
use mmhashchainsigs.Format.Params.Lookup.{get_param-join_params}
use mmhashchainsigs.Format.Parse.{
  SdRecord, empty_record, parse_body, parse_sd, sig_len_max, with_signature,
}

extract_uint64-print :
    (body key : Bytes) (n old : ℕ)
    → get_param body key ≡ some (print_ulong n)
    → n < u64_mod
    → extract_uint64 body key old ≡ (n, true)
unfolding extract_uint64
extract_uint64-print body key n old g h =
    rw (g, extract_uint64)
      (rw (c_string-IsDigit (print_ulong n) (print_ulong-IsDigit n))
        (rw (strtoull-print_ulong n h) (ground (arith, length-print_ulong n))))

extract_uint64-none :
    (body key : Bytes) (old : ℕ)
    → get_param body key ≡ none
    → extract_uint64 body key old ≡ (old, false)
unfolding extract_uint64
extract_uint64-none body key old g = rw (g, extract_uint64)

extract_chain_hash-hex :
    (body chain_hash : Bytes) (alg : HashAlg)
    → get_param body (codes "h") ≡ some (hex_encode chain_hash)
    → length chain_hash ≡ hash_len alg
    → All IsByte chain_hash
    → extract_chain_hash body ≡ some chain_hash
unfolding extract_chain_hash
extract_chain_hash-hex body chain_hash alg g l b = rw g (
    rw (length-hex_encode chain_hash, l, alg_from_hex_len-hash_len alg)
      (rw (hash_len_le alg) (hex_decode-hex_encode chain_hash (hash_len alg) b (omega (arith, l)))))
  where
    hash_len_le : (alg : HashAlg) → ltb 128 (hash_len alg * 2) ≡ false
    hash_len_le alg = le→ltb 128 _ (omega (arith, hash_len-le alg))

extract_hex-hex :
    (body key fp : Bytes)
    → get_param body key ≡ some (hex_encode fp)
    → length fp ≡ fp_len
    → All IsByte fp
    → extract_hex body key fp_len ≡ some fp
unfolding extract_hex
extract_hex-hex body key fp g l b =
    rw g (rw (length-hex_encode fp, l) (hex_decode-hex_encode fp fp_len b (omega arith)))

extract_hex-none :
    (body key : Bytes) (n : ℕ) → get_param body key ≡ none → extract_hex body key n ≡ none
unfolding extract_hex
extract_hex-none body key n g = rw g

module _ ⦃h : Host⦄ where
  -- The closing bracket is found, and what is between is the body.
  parse_sd-element :
      (ps : List (Bytes × Bytes)) → parse_sd (sd_element sd_prefix ps) ≡ parse_body (join_params ps)
  unfolding parse_sd
  parse_sd-element ps =
      rw (strip_prefix-append sd_prefix (join_params ps ++ b']' ∷ []), parse_sd)
        (rw (unsnoc-concat (join_params ps) b']'))

  module _ (alg : HashAlg) (seq : ℕ) (chain_hash : Bytes) (small : seq < u64_mod)
      (width : length chain_hash ≡ hash_len alg) (bytes : All IsByte chain_hash) where
    -- An INIT or CONTINUE element is read as it was printed: its type (a plain byte), a 64-bit
    -- number, a hash of the algorithm's width and a fingerprint of 32 bytes.
    pub parse_sd-opening :
        (t : ℕ) (fp : Bytes)
        → IsPlain t
        → length fp ≡ fp_len
        → All IsByte fp
        → parse_sd (sd_element sd_prefix (opening_params (t ∷ []) seq chain_hash fp))
          ≡ ok (record empty_record {
            sd_type = t;
            seq = seq;
            chain_hash = chain_hash;
            pubkey_fp = fp;
            has_pubkey_fp = true;
          })
    unfolding parse_body bytes_eq
    parse_sd-opening t fp ht lf bf =
        let ps = opening_params (t ∷ []) seq chain_hash fp in
        let clean = opening_params-IsClean seq chain_hash bytes (t ∷ []) fp (ht, tt) bf in
        let get = λ (key : Bytes) (k : All IsKeyByte key). get_param-join_params ps key clean k in
        parse_sd-element ps
        ∙ rw (get (codes "t") (omega arith), parse_body)
            (rw
              (extract_uint64-print (join_params ps) (codes "q") seq 0 (get _ (omega arith)) small)
              (rw
                (extract_chain_hash-hex (join_params ps) chain_hash alg (get _ (omega arith)) width
                  bytes)
                (rw (extract_hex-hex (join_params ps) (codes "f") fp (get _ (omega arith)) lf bf) (
                  rw (extract_uint64-none (join_params ps) (codes "qf") 0 (get _ (omega arith))) (
                    rw (extract_uint64-none (join_params ps) (codes "qt") 0 (get _ (omega arith)))
                      (rw (get (codes "s") (omega arith))))))))

    -- A plain element is read as it was printed, for a 64-bit number and a hash of the
    -- algorithm's width.
    pub parse_sd-msg :
        parse_sd (sd_element sd_prefix (msg_params seq chain_hash))
        ≡ ok (record empty_record { seq = seq; chain_hash = chain_hash })
    unfolding parse_body bytes_eq
    parse_sd-msg =
        let ps = msg_params seq chain_hash in
        let clean = msg_params-IsClean seq chain_hash bytes in
        let get = λ (key : Bytes) (k : All IsKeyByte key). get_param-join_params ps key clean k in
        parse_sd-element ps
        ∙ rw (get (codes "t") (omega arith), parse_body)
            (rw
              (extract_uint64-print (join_params ps) (codes "q") seq 0 (get _ (omega arith)) small)
              (rw
                (extract_chain_hash-hex (join_params ps) chain_hash alg (get _ (omega arith)) width
                  bytes)
                (rw (extract_hex-none (join_params ps) (codes "f") fp_len (get _ (omega arith))) (
                  rw (extract_uint64-none (join_params ps) (codes "qf") 0 (get _ (omega arith))) (
                    rw (extract_uint64-none (join_params ps) (codes "qt") 0 (get _ (omega arith)))
                      (rw (get (codes "s") (omega arith))))))))

    sig_text :
        (sig : Bytes)
        → IsBase64
        → All IsByte sig
        → length sig ≤ sig_len_max
        → (r : SdRecord)
        → with_signature (some (h.encode_block sig)) r
          ≡ ok (record r { signature = sig; has_signature = true })
    unfolding with_signature
    sig_text sig b64 b fit r =
        rw (short sig b64 fit, with_signature)
          (rw (b64_decode-encode b64 sig sig_len_max b (omega arith)))
      where
        short :
            (sig : Bytes)
            → (b64 : IsBase64) → length sig ≤ sig_len_max
            → leb b64_sig_room (length (h.encode_block sig)) ≡ false
        short sig b64 fit = ground (arith, b64.encode_length sig)

    -- A SIG element is read as it was printed, for 64-bit numbers, a hash of the algorithm's
    -- width and a signature of at most 144 bytes, where OpenSSL's base64 is as documented.
    pub parse_sd-sig :
        (b64 : IsBase64) (from to : ℕ) (sig : Bytes)
        → from < u64_mod
        → to < u64_mod
        → All IsByte sig
        → length sig ≤ sig_len_max
        → parse_sd (sd_element sd_prefix (sig_params seq chain_hash from to (h.encode_block sig)))
          ≡ ok (record empty_record {
            sd_type = b'S';
            seq = seq;
            chain_hash = chain_hash;
            seq_from = from;
            seq_to = to;
            signature = sig;
            has_signature = true;
          })
    unfolding parse_body bytes_eq
    parse_sd-sig b64 from to sig hf ht bs fit =
        let ps = sig_params seq chain_hash from to (h.encode_block sig) in
        let clean =
          sig_params-IsClean seq chain_hash bytes from to (h.encode_block sig)
            (b64.encode_plain sig bs) in
        let get = λ (key : Bytes) (k : All IsKeyByte key). get_param-join_params ps key clean k in
        parse_sd-element ps
        ∙ rw (get (codes "t") (omega arith), parse_body)
            (rw
              (extract_uint64-print (join_params ps) (codes "q") seq 0 (get _ (omega arith)) small)
              (rw
                (extract_chain_hash-hex (join_params ps) chain_hash alg (get _ (omega arith)) width
                  bytes)
                (rw (extract_hex-none (join_params ps) (codes "f") fp_len (get _ (omega arith))) (
                  rw
                    (extract_uint64-print (join_params ps) (codes "qf") from 0 (get _ (omega arith))
                      hf)
                    (rw
                      (extract_uint64-print (join_params ps) (codes "qt") to 0 (get _ (omega arith))
                        ht)
                      (rw (get (codes "s") (omega arith)) (sig_text sig b64 bs fit _)))))))
