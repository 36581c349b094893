-- ===== src/Format/Element/Bounds.antt =====
-- The buffer of `HCS_SD_MAX_LEN` bytes holds every element but the certificate's.
use mmhashchainsigs.Base.{
  Bytes, List, [], arith, codes, length, length-append, le→ltb, lt→ltb, refl, some, ℕ, ◌++◌, ◌+◌,
  ◌<◌, ◌∷◌, ◌≡◌, ◌≤◌,
}
use mmhashchainsigs.Crypto.Alg.{fp_len, hash_len_max}
use mmhashchainsigs.Crypto.Host.{Host}
use mmhashchainsigs.Format.Codec.{fits}
use mmhashchainsigs.Format.Codec.Laws.{IsBase64, b64_encode_sig}
use mmhashchainsigs.Format.Element.{
  format_sd_init, format_sd_msg, format_sd_sig, join_params, msg_params, opening_params, sd_element,
  sig_params,
}
use mmhashchainsigs.Format.Element.Ids.{sd_prefix}
use mmhashchainsigs.Format.Hex.RoundTrip.{length-hex_encode}
use mmhashchainsigs.Format.Number.RoundTrip.{length-print_ulong}

abbrev pub sd_max_len : ℕ
sd_max_len = 512

length-sd_prefix : length sd_prefix ≡ 23
unfolding sd_prefix
length-sd_prefix = refl

-- The length of a printed parameter, and of a list of them, without the text.
length-param :
    (k v : Bytes) → length (k ++ (b'=' ∷ b'"' ∷ (v ++ (b'"' ∷ [])))) ≡ length k + length v + 3
length-param k v =
    omega (arith, length-append k (b'=' ∷ b'"' ∷ (v ++ (b'"' ∷ []))), length-append v (b'"' ∷ []))

abbrev params_len : List (Bytes × Bytes) → ℕ
params_len [] = 0
params_len ((k, v) ∷ ps) = length k + length v + 4 + params_len ps

length-join_params : (ps : List (Bytes × Bytes)) → length (join_params ps) ≤ params_len ps
length-join_params [] = omega arith
length-join_params ((k, v) ∷ []) = omega (arith, length-param k v)
length-join_params ((k, v) ∷ p ∷ ps) = omega (
  arith,
  length-param k v,
  length-join_params (p ∷ ps),
  length-append (k ++ (b'=' ∷ b'"' ∷ (v ++ (b'"' ∷ [])))) (b' ' ∷ join_params (p ∷ ps)),
)

length-sd_element :
    (ps : List (Bytes × Bytes)) → length (sd_element sd_prefix ps) ≤ params_len ps + 24
length-sd_element ps = omega (
  arith,
  length-join_params ps,
  length-sd_prefix,
  length-append sd_prefix (join_params ps ++ b']' ∷ []),
  length-append (join_params ps) (b']' ∷ []),
)

module _ (seq : ℕ) (chain_hash : Bytes) (room : ℕ) (narrow : length chain_hash ≤ hash_len_max)
    (enough : sd_max_len ≤ room) where
  fits_lem :
      (ps : List (Bytes × Bytes))
      → params_len ps + 24 < sd_max_len
      → fits room (sd_element sd_prefix ps) ≡ some (sd_element sd_prefix ps)
  fits_lem ps short =
      rw (lt→ltb (length (sd_element sd_prefix ps)) room (omega (arith, length-sd_element ps)))

  pub length-opening :
      (t fp : Bytes)
      → length t ≡ 1
      → length fp ≡ fp_len
      → length (sd_element sd_prefix (opening_params t seq chain_hash fp)) < sd_max_len
  length-opening t fp ht hf = omega (
    arith,
    length-sd_element (opening_params t seq chain_hash fp),
    length-print_ulong seq,
    length-hex_encode chain_hash,
    length-hex_encode fp,
  )

  -- INIT and CONTINUE elements, with a fingerprint of 32 bytes.
  pub opening_fits :
      (t fp : Bytes)
      → length t ≡ 1
      → length fp ≡ fp_len
      → fits room (sd_element sd_prefix (opening_params t seq chain_hash fp))
        ≡ some (sd_element sd_prefix (opening_params t seq chain_hash fp))
  opening_fits t fp ht hf =
      fits_lem (opening_params t seq chain_hash fp)
        (omega (arith, length-print_ulong seq, length-hex_encode chain_hash, length-hex_encode fp))

  pub format_sd_init_total :
      (fp : Bytes)
      → length fp ≡ fp_len
      → format_sd_init seq chain_hash fp room
        ≡ some (sd_element sd_prefix (opening_params (codes "I") seq chain_hash fp))
  unfolding format_sd_init
  format_sd_init_total fp hf =
      rw (le→ltb 64 (length chain_hash) narrow, format_sd_init)
        (opening_fits (codes "I") fp refl hf)

  pub format_sd_msg_total :
      format_sd_msg seq chain_hash room ≡ some (sd_element sd_prefix (msg_params seq chain_hash))
  unfolding format_sd_msg
  format_sd_msg_total =
      rw (le→ltb 64 (length chain_hash) narrow, format_sd_msg)
        (fits_lem (msg_params seq chain_hash)
          (omega (arith, length-print_ulong seq, length-hex_encode chain_hash)))

  -- A buffer of 512 bytes or more holds every SIG element with a hash of at most 64 bytes and a
  -- signature of at most 144 bytes, for all numbers, where OpenSSL's base64 is as documented:
  -- hcs_format_sd_sig does not fail, and writes the element of the four numbers and hashes.
  pub format_sd_sig_total :
      ⦃h : Host⦄
      → (b64 : IsBase64) (from to : ℕ) (sig : Bytes) → length sig ≤ 144
      → format_sd_sig seq chain_hash from to sig room
        ≡ some (sd_element sd_prefix (sig_params seq chain_hash from to (h.encode_block sig)))
  unfolding format_sd_sig
  format_sd_sig_total ⦃h⦄ b64 from to sig short =
      rw (le→ltb 64 (length chain_hash) narrow, format_sd_sig)
        (rw (b64_encode_sig b64 sig short) (
          fits_lem (sig_params seq chain_hash from to (h.encode_block sig)) (
            omega (
              arith,
              length-print_ulong seq,
              length-print_ulong from,
              length-print_ulong to,
              length-hex_encode chain_hash,
              b64.encode_length sig,
            ))))
