-- ===== src/Worker/StateFile/RoundTrip.antt =====
-- What `mmhashchainsigs_load_state` makes of the text that `mmhashchainsigs_save_state` writes.
use mmhashchainsigs.Base.{
  All, Bytes, IsByte, List, [], ap, append-nil, append_assoc, arith, codes, drop, length, refl,
  replicate, some, strip_prefix-append, sym, u64_mod, ◌++◌, ◌+◌, ◌<◌, ◌∙◌, ◌∷◌, ◌≡◌,
}
use mmhashchainsigs.Crypto.Alg.{HashAlg, fp_len, hash_len, hash_name, sha256, sha384, sha512}
use mmhashchainsigs.Format.Hex.{hex_encode, hex_stored}
use mmhashchainsigs.Format.Hex.RoundTrip.{length-hex_encode}
use mmhashchainsigs.Format.Number.{print_ulong}
use mmhashchainsigs.Format.Number.RoundTrip.{length-print_ulong}
use mmhashchainsigs.Worker.State.{SavedState}
use mmhashchainsigs.Worker.StateFile.{
  Loading, blank, complete, fgets_lines, state_line, load_from, load_from_lines, load_line,
  load_lines, load_seq, load_state, state_magic, state_text, store_fp, store_hash,
}
use mmhashchainsigs.Worker.StateFile.Lines.{
  IsGraphic, fgets_field, fgets_line, hash_len-bounds, hex-IsGraphic, load_line-alg, load_line-fp,
  load_line-from, load_line-hash, load_line-seq, number-IsGraphic,
}

load_cons :
    (l : Loading) (s : Bytes) {m : Loading} (ss : List Bytes)
    → load_line l s ≡ some m
    → load_lines l (s ∷ ss) ≡ load_lines m ss
unfolding load_lines
load_cons l s ss e = rw e

load_nil : (l : Loading) → load_lines l [] ≡ some l
unfolding load_lines
load_nil l = refl

-- A line in front of a text that is already cut.
fgets_more :
    (key value rest : Bytes) (ls : List Bytes)
    → All IsGraphic key
    → All IsGraphic value
    → length key + length value < 255
    → fgets_lines 255 rest ≡ ls
    → fgets_lines 255 (state_line key value ++ rest) ≡ state_line key value ∷ ls
fgets_more key value rest ls gk gv f e =
    fgets_field key value rest gk gv f ∙ ap (◌∷◌ (state_line key value)) e

fgets_last :
    (key value : Bytes)
    → All IsGraphic key
    → All IsGraphic value
    → length key + length value < 255
    → fgets_lines 255 (state_line key value) ≡ state_line key value ∷ []
unfolding fgets_lines
fgets_last key value gk gv f =
    ap (fgets_lines 255) (sym (append-nil (state_line key value)))
    ∙ fgets_field key value [] gk gv f

magic-IsGraphic : All IsGraphic state_magic
unfolding state_magic
magic-IsGraphic = omega arith

magic_short : length state_magic < 255
unfolding state_magic
magic_short = omega arith

hash_name-IsGraphic : (alg : HashAlg) → All IsGraphic (hash_name alg)
unfolding hash_name
hash_name-IsGraphic sha256 = omega arith
hash_name-IsGraphic sha384 = omega arith
hash_name-IsGraphic sha512 = omega arith

length-hash_name : (alg : HashAlg) → length (hash_name alg) ≡ 6
unfolding hash_name
length-hash_name sha256 = refl
length-hash_name sha384 = refl
length-hash_name sha512 = refl

-- The lines of the file.
module _ (st : SavedState) (width : length st.chain_hash ≡ hash_len st.hash_alg)
    (bytes : All IsByte st.chain_hash) (fp_width : length st.pubkey_fp ≡ fp_len)
    (fp_bytes : All IsByte st.pubkey_fp) (seq_small : st.seq < u64_mod)
    (from_small : st.sig_seq_from < u64_mod) where
  abbrev field_lines : List Bytes
  field_lines =
      state_line (codes "hashalgo=") (hash_name st.hash_alg)
      ∷ state_line (codes "chain_hash=") (hex_encode st.chain_hash)
      ∷ state_line (codes "seq=") (print_ulong st.seq)
      ∷ state_line (codes "sig_seq_from=") (print_ulong st.sig_seq_from)
      ∷ state_line (codes "pubkey_fp=") (hex_encode st.pubkey_fp)
      ∷ []

  fgets-state_text : fgets_lines 255 (state_text st) ≡ (state_magic ++ b'\n' ∷ []) ∷ field_lines
  unfolding state_text
  fgets-state_text =
      ap (fgets_lines 255) (append_assoc state_magic (b'\n' ∷ []) _)
      ∙ fgets_line state_magic _ 255 magic-IsGraphic magic_short
      ∙ ap (λ (ls : List Bytes). (state_magic ++ b'\n' ∷ []) ∷ ls)
          (fgets_more (codes "hashalgo=") (hash_name st.hash_alg) _ _ (omega arith)
            (hash_name-IsGraphic st.hash_alg) (omega (arith, length-hash_name st.hash_alg))
            (fgets_more (codes "chain_hash=") (hex_encode st.chain_hash) _ _ (omega arith)
              (hex-IsGraphic st.chain_hash bytes)
              (omega (arith, width, length-hex_encode st.chain_hash, hash_len-bounds st.hash_alg))
              (fgets_more (codes "seq=") (print_ulong st.seq) _ _ (omega arith)
                (number-IsGraphic st.seq) (omega (arith, length-print_ulong st.seq))
                (fgets_more (codes "sig_seq_from=") (print_ulong st.sig_seq_from) _ _ (omega arith)
                  (number-IsGraphic st.sig_seq_from)
                  (omega (arith, length-print_ulong st.sig_seq_from))
                  (fgets_last (codes "pubkey_fp=") (hex_encode st.pubkey_fp) (omega arith)
                    (hex-IsGraphic st.pubkey_fp fp_bytes)
                    (omega (arith, fp_width, length-hex_encode st.pubkey_fp)))))))

  load-field_lines :
      load_lines blank field_lines
      ≡ some (
          store_fp
            (load_from
              (load_seq
                (store_hash
                  (record blank {
                    st = record (blank.st) {
                      hash_alg = st.hash_alg;
                      hash_len = hash_len st.hash_alg;
                    };
                  })
                  (hex_stored (hex_encode st.chain_hash) (hash_len st.hash_alg))
                  (some st.chain_hash))
                st.seq)
              st.sig_seq_from)
            (hex_stored (hex_encode st.pubkey_fp) fp_len)
            (some st.pubkey_fp))
  load-field_lines =
      load_cons blank _ _ (load_line-alg blank st.hash_alg)
      ∙ load_cons _ _ _ (load_line-hash _ st.hash_alg st.chain_hash bytes width)
      ∙ load_cons _ _ _ (load_line-seq _ st.seq seq_small)
      ∙ load_cons _ _ _ (load_line-from _ st.sig_seq_from from_small)
      ∙ load_cons _ _ [] (load_line-fp _ st.pubkey_fp fp_bytes fp_width)
      ∙ load_nil _

  -- The saved text of a state is read back whole: the algorithm, its width, the chain hash in front
  -- of the zeros of the 64-byte array, both numbers and the fingerprint. The hash has the
  -- algorithm's width, the fingerprint 32 bytes, and the numbers are below 2^64.
  pub load_state-state_text :
      load_state (some (state_text st))
      ≡ some (record {
        hash_alg = st.hash_alg;
        hash_len = hash_len st.hash_alg;
        chain_hash = st.chain_hash ++ drop (length st.chain_hash) (replicate 64 0);
        seq = st.seq;
        sig_seq_from = st.sig_seq_from;
        pubkey_fp = st.pubkey_fp;
      })
  unfolding load_state load_from_lines complete store_fp load_from load_seq store_hash
  load_state-state_text =
      rw fgets-state_text
        (rw (strip_prefix-append state_magic (b'\n' ∷ [])) (rw load-field_lines refl))
