-- ===== src/Crypto/Alg.antt =====
-- The hash algorithms of hcs_crypto.c: lengths, names, and detection by the width of the hex text.
use mmhashchainsigs.Base.{
  Bool, Bytes, Option, [], arith, codes, false, if◌then◌else◌, leb, none, refl, some, true, ℕ, ◌&&◌,
  ◌*◌, ◌+◌, ◌==◌, ◌∷◌, ◌≡◌, ◌≤◌,
}

-- `hcs_hash_alg_t`
pub data HashAlg : Type 0 where
  sha256 sha384 sha512 : HashAlg

unfoldable pub alg_eq : HashAlg → HashAlg → Bool
alg_eq sha256 sha256 = true
alg_eq sha384 sha384 = true
alg_eq sha512 sha512 = true
alg_eq _ _ = false

abbrev pub hash_len_max : ℕ
hash_len_max = 64

-- The length of a fingerprint, always SHA-256.
abbrev pub fp_len : ℕ
fp_len = 32

unfoldable pub hash_len : HashAlg → ℕ
hash_len sha256 = 32
hash_len sha384 = 48
hash_len sha512 = 64

unfoldable pub hash_name : HashAlg → Bytes
hash_name sha256 = codes "sha256"
hash_name sha384 = codes "sha384"
hash_name sha512 = codes "sha512"

-- `strcasecmp(a, b) == 0`, in the C locale.
abbrev to_lower : ℕ → ℕ
to_lower c = if leb b'A' c && leb c b'Z' then c + 32 else c

case_eq : Bytes → Bytes → Bool
case_eq [] [] = true
case_eq (x ∷ xs) (y ∷ ys) = to_lower x == to_lower y && case_eq xs ys
case_eq _ _ = false

-- `none` is a null name.
unfoldable pub hash_from_name : Option Bytes → Option HashAlg
unfolding case_eq hash_name
hash_from_name none = none
hash_from_name (some name) =
    if case_eq name (codes "sha256")
    then some sha256
    else if case_eq name (codes "sha384")
    then some sha384
    else if case_eq name (codes "sha512")
    then some sha512
    else none

unfoldable pub alg_from_hex_len : ℕ → Option HashAlg
alg_from_hex_len n =
    if n == 64
    then some sha256
    else if n == 96
    then some sha384
    else if n == 128
    then some sha512
    else none

pub alg_eq_refl : (a : HashAlg) → alg_eq a a ≡ true
unfolding alg_eq
alg_eq_refl sha256 = refl
alg_eq_refl sha384 = refl
alg_eq_refl sha512 = refl

pub alg_from_hex_len-hash_len : (a : HashAlg) → alg_from_hex_len (hash_len a * 2) ≡ some a
unfolding alg_from_hex_len hash_len
alg_from_hex_len-hash_len sha256 = refl
alg_from_hex_len-hash_len sha384 = refl
alg_from_hex_len-hash_len sha512 = refl

pub hash_from_name-hash_name : (a : HashAlg) → hash_from_name (some (hash_name a)) ≡ some a
unfolding hash_from_name
hash_from_name-hash_name sha256 = refl
hash_from_name-hash_name sha384 = refl
hash_from_name-hash_name sha512 = refl

-- An algorithm that is detected by the length of a hexadecimal hash has digests of half that
-- length.
pub alg_from_hex_len_sound :
    (n : ℕ) (a : HashAlg) → alg_from_hex_len n ≡ some a → n ≡ hash_len a * 2
unfolding alg_from_hex_len hash_len
alg_from_hex_len_sound n sha256 h = ground arith
alg_from_hex_len_sound n sha384 h = ground arith
alg_from_hex_len_sound n sha512 h = ground arith

pub hash_len-le : (a : HashAlg) → hash_len a ≤ hash_len_max
unfolding hash_len
hash_len-le sha256 = omega arith
hash_len-le sha384 = omega arith
hash_len-le sha512 = omega arith
