-- ===== src/Worker/StateFile/Lines.antt =====
-- The lines of the state file: how `fgets` cuts them and what `mmhashchainsigs_load_state` makes of
-- each.
use mmhashchainsigs.Base.{
  All, All-append, All-weaken, Bytes, IsByte, [], ap, append_assoc, arith, c_string, codes, length,
  length-append, refl, skip_space, some, strip_prefix, suc, sym, u64_mod, zero, ℕ, ◌*◌, ◌++◌, ◌+◌,
  ◌-◌, ◌<◌, ◌∷◌, ◌≡◌, ◌≤◌,
}
use mmhashchainsigs.Crypto.Alg.{
  HashAlg, alg_from_hex_len-hash_len, fp_len, hash_from_name, hash_len, hash_name, sha256, sha384,
  sha512,
}
use mmhashchainsigs.Format.Hex.{hex_encode, hex_stored}
use mmhashchainsigs.Format.Hex.RoundTrip.{
  IsHex, hex_decode-hex_encode, hex_encode-IsHex, length-hex_encode,
}
use mmhashchainsigs.Format.Number.{print_ulong}
use mmhashchainsigs.Format.Number.RoundTrip.{
  IsDigit, length-print_ulong, print_ulong-IsDigit, strtoull-print_ulong_line,
}
use mmhashchainsigs.Worker.StateFile.{
  Loading, cons_to, fgets_lines, state_line, load_alg, load_first, load_fourth, load_fp, load_from,
  load_hash, load_last, load_line, load_second, load_seq, load_third, scan_ulong, scan_word,
  store_fp, store_hash, word, word_found,
}

-- A byte of a line of the file: no space and no NUL.
abbrev pub IsGraphic : ℕ → Type 0
IsGraphic c = (b'!' ≤ c) × (c < 256)

-- The lines are cut behind their newlines, where they are short enough.
pub fgets_line :
    (l rest : Bytes) (room : ℕ)
    → All IsGraphic l
    → length l < room
    → fgets_lines room (l ++ b'\n' ∷ rest) ≡ (l ++ b'\n' ∷ []) ∷ fgets_lines 255 rest
unfolding fgets_lines cons_to
fgets_line [] rest room g f = ground arith
fgets_line (c ∷ l) rest room (gc, gl) f = ground (arith, fgets_line l rest (room - 1))

c_string-state_line : (l : Bytes) → All IsGraphic l → c_string (l ++ b'\n' ∷ []) ≡ l ++ b'\n' ∷ []
unfolding c_string
c_string-state_line [] g = refl
c_string-state_line (c ∷ l) (gc, gl) = ground (arith, c_string-state_line l gl)

word-state_line :
    (n : ℕ) (w : Bytes) → All IsGraphic w → length w ≤ n → word n (w ++ b'\n' ∷ []) ≡ w
unfolding word
word-state_line zero [] g f = refl
word-state_line (suc n) [] g f = ground arith
word-state_line zero (c ∷ w) g f = absurd (omega arith)
word-state_line (suc n) (c ∷ w) (gc, gw) f = ground (arith, word-state_line n w gw)

pub scan_word-state_line :
    (n : ℕ) (w : Bytes)
    → All IsGraphic w
    → 0 < length w
    → length w ≤ n
    → scan_word n (w ++ b'\n' ∷ []) ≡ some w
unfolding scan_word skip_space word_found
scan_word-state_line n [] g p f = absurd (omega arith)
scan_word-state_line n (c ∷ w) (gc, gw) p f = ground (arith, word-state_line n (c ∷ w) (gc, gw) f)

pub scan_ulong-state_line :
    (n : ℕ) → n < u64_mod → scan_ulong (print_ulong n ++ b'\n' ∷ []) ≡ some n
unfolding scan_ulong
scan_ulong-state_line n h =
    rw (strtoull-print_ulong_line n h)
      (ground (arith, length-append (print_ulong n) (b'\n' ∷ []), length-print_ulong n))

-- A line of a key and a value.
pub fgets_field :
    (key value rest : Bytes)
    → All IsGraphic key
    → All IsGraphic value
    → length key + length value < 255
    → fgets_lines 255 (state_line key value ++ rest) ≡ state_line key value ∷ fgets_lines 255 rest
fgets_field key value rest gk gv f =
    rw
      (
        append_assoc key (value ++ b'\n' ∷ []) rest,
        append_assoc value (b'\n' ∷ []) rest,
        sym (append_assoc key value (b'\n' ∷ rest)),
        sym (append_assoc key value (b'\n' ∷ [])),
      )
      (fgets_line (key ++ value) rest 255 (All-append IsGraphic key value gk gv)
        (omega (arith, length-append key value)))

c_string-field :
    (key value : Bytes)
    → All IsGraphic key
    → All IsGraphic value
    → c_string (state_line key value) ≡ state_line key value
c_string-field key value gk gv =
    rw (sym (append_assoc key value (b'\n' ∷ [])))
      (c_string-state_line (key ++ value) (All-append IsGraphic key value gk gv))

pub number-IsGraphic : (n : ℕ) → All IsGraphic (print_ulong n)
number-IsGraphic n =
    All-weaken {P = IsDigit} {Q = IsGraphic} (λ c p. omega arith) (print_ulong n)
      (print_ulong-IsDigit n)

pub hex-IsGraphic : (b : Bytes) → All IsByte b → All IsGraphic (hex_encode b)
hex-IsGraphic b h =
    All-weaken {P = IsHex} {Q = IsGraphic} (λ c p. omega arith) (hex_encode b)
      (hex_encode-IsHex b h)

-- The widths fit the format's `%128s`.
pub hash_len-bounds : (alg : HashAlg) → (0 < hash_len alg) × (hash_len alg ≤ 64)
unfolding hash_len
hash_len-bounds sha256 = omega arith
hash_len-bounds sha384 = omega arith
hash_len-bounds sha512 = omega arith

double :
    (b : Bytes) (alg : HashAlg) → length b ≡ hash_len alg → length (hex_encode b) ≡ hash_len alg * 2
double b alg width = omega (arith, width, length-hex_encode b)

module _ (l : Loading) where
  pub load_line-alg :
      (alg : HashAlg)
      → load_line l (state_line (codes "hashalgo=") (hash_name alg))
        ≡ some (record l { st = record (l.st) { hash_alg = alg; hash_len = hash_len alg } })
  unfolding load_line load_first load_alg strip_prefix hash_name hash_from_name c_string scan_word
      skip_space word word_found
  load_line-alg sha256 = refl
  load_line-alg sha384 = refl
  load_line-alg sha512 = refl

  pub load_line-seq :
      (n : ℕ)
      → n < u64_mod
      → load_line l (state_line (codes "seq=") (print_ulong n)) ≡ some (load_seq l n)
  unfolding load_line load_first load_second load_third strip_prefix
  load_line-seq n h =
      rw (c_string-field (codes "seq=") (print_ulong n) (omega arith) (number-IsGraphic n))
        (rw (scan_ulong-state_line n h))

  pub load_line-from :
      (n : ℕ)
      → n < u64_mod
      → load_line l (state_line (codes "sig_seq_from=") (print_ulong n)) ≡ some (load_from l n)
  unfolding load_line load_first load_second load_third load_fourth strip_prefix
  load_line-from n h =
      rw (c_string-field (codes "sig_seq_from=") (print_ulong n) (omega arith) (number-IsGraphic n))
        (rw (scan_ulong-state_line n h))

  load_hash-hex_encode :
      (alg : HashAlg) (b : Bytes)
      → All IsByte b
      → length b ≡ hash_len alg
      → load_hash l (hex_encode b)
        ≡ store_hash l (hex_stored (hex_encode b) (hash_len alg)) (some b)
  unfolding load_hash
  load_hash-hex_encode alg b bytes width =
      rw (double b alg width, alg_from_hex_len-hash_len alg, load_hash)
        (rw (hex_decode-hex_encode b (hash_len alg) bytes (omega (arith, width))))

  pub load_line-hash :
      (alg : HashAlg) (b : Bytes)
      → All IsByte b
      → length b ≡ hash_len alg
      → load_line l (state_line (codes "chain_hash=") (hex_encode b))
        ≡ some (store_hash l (hex_stored (hex_encode b) (hash_len alg)) (some b))
  unfolding load_line load_first load_second strip_prefix
  load_line-hash alg b bytes width =
      rw (c_string-field (codes "chain_hash=") (hex_encode b) (omega arith) (hex-IsGraphic b bytes))
        (rw
          (scan_word-state_line 128 (hex_encode b) (hex-IsGraphic b bytes)
            (omega (arith, width, length-hex_encode b, hash_len-bounds alg))
            (omega (arith, width, length-hex_encode b, hash_len-bounds alg)))
          (ap some (load_hash-hex_encode alg b bytes width)))

  pub load_line-fp :
      (fp : Bytes)
      → All IsByte fp
      → length fp ≡ fp_len
      → load_line l (state_line (codes "pubkey_fp=") (hex_encode fp))
        ≡ some (store_fp l (hex_stored (hex_encode fp) fp_len) (some fp))
  unfolding load_line load_first load_second load_third load_fourth load_last load_fp strip_prefix
  load_line-fp fp bytes width =
      rw
        (c_string-field (codes "pubkey_fp=") (hex_encode fp) (omega arith) (hex-IsGraphic fp bytes))
        (rw
          (scan_word-state_line 64 (hex_encode fp) (hex-IsGraphic fp bytes)
            (omega (arith, width, length-hex_encode fp))
            (omega (arith, width, length-hex_encode fp)))
          (rw (length-hex_encode fp, width)
            (rw (hex_decode-hex_encode fp 32 bytes (omega (arith, width))))))
