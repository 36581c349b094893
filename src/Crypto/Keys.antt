-- ===== src/Crypto/Keys.antt =====
-- Keys and certificates of hcs_crypto.c: the supported kinds, loading, signing, verification and
-- the fingerprint. A `goto done` that frees a context returns what it returns here.
use mmhashchainsigs.Base.{
  ℕ, Bool, true, false, ◌||◌, not, Option, none, some, Bytes, codes, bytes_eq, ◌==◌, if◌then◌else◌,
  ◌>>=◌,
}
use mmhashchainsigs.Crypto.Alg.{HashAlg, sha256, sha384, sha512}
use mmhashchainsigs.Crypto.Hash.{sha256_of}
use mmhashchainsigs.Crypto.Host.{
  Host, KeyId, ed25519, ec, other_id, VerifyStatus, valid, invalid, verify_error,
}

-- The bit size that a group name stands for, or 0.
unfoldable pub curve_bits_of : Bytes → ℕ
curve_bits_of group =
    if bytes_eq group (codes "prime256v1")
      || bytes_eq group (codes "P-256")
      || bytes_eq group (codes "secp256r1")
    then 256
    else if bytes_eq group (codes "secp384r1") || bytes_eq group (codes "P-384")
    then 384
    else if bytes_eq group (codes "secp521r1") || bytes_eq group (codes "P-521")
    then 521
    else 0

-- The result of `hcs_verify`: 0, 1 or -1.
pub data Verdict : Type 0 where
  good bad broken : Verdict

abbrev verdict_of : VerifyStatus → Verdict
verdict_of valid = good
verdict_of invalid = bad
verdict_of verify_error = broken

module _ ⦃h : Host⦄ where
  unfoldable pub ec_curve_bits : h.Pkey → ℕ
  unfolding curve_bits_of
  ec_curve_bits key = elim (h.group_name key) [ none ↦ 0 | some group ↦ curve_bits_of group ]

  supported_id : KeyId → h.Pkey → Bool
  supported_id ed25519 key = true
  supported_id ec key = not (ec_curve_bits key == 0)
  supported_id other_id key = false

  unfoldable pub key_is_supported : h.Pkey → Bool
  unfolding supported_id
  key_is_supported key = supported_id (h.pkey_id key) key

  -- What the loaders do with a key that was read: an unsupported one is freed.
  supported : h.Pkey → Option h.Pkey
  supported key = if key_is_supported key then some key else none

  unfoldable pub load_private_key : Bytes → Option h.Pkey
  unfolding supported
  load_private_key path = do file ← h.read_file path; key ← h.read_private_key file; supported key

  unfoldable pub load_public_key : Bytes → Option h.Pkey
  unfolding supported
  load_public_key path = do file ← h.read_file path; key ← h.read_pubkey file; supported key

  unfoldable pub load_x509_cert : Bytes → Option h.Cert
  load_x509_cert path = do file ← h.read_file path; h.read_x509 file

  unfoldable pub x509_get_pubkey : h.Cert → Option h.Pkey
  unfolding supported
  x509_get_pubkey cert = do key ← h.x509_pubkey cert; supported key

  unfoldable pub x509_check_keypair : h.Cert → h.Pkey → Bool
  x509_check_keypair cert key = h.x509_check_private_key cert key

  -- The digest paired with the key, inside `some`; `none` inside for Ed25519.
  md_for_bits : ℕ → Option (Option HashAlg)
  md_for_bits bits =
      if bits == 256
      then some (some sha256)
      else if bits == 384
      then some (some sha384)
      else if bits == 521
      then some (some sha512)
      else none

  pick_md_for : KeyId → h.Pkey → Option (Option HashAlg)
  unfolding md_for_bits
  pick_md_for ed25519 key = some none
  pick_md_for ec key = md_for_bits (ec_curve_bits key)
  pick_md_for other_id key = none

  unfoldable pub pick_md : h.Pkey → Option (Option HashAlg)
  unfolding pick_md_for
  pick_md key = pick_md_for (h.pkey_id key) key

  unfoldable pub hcs_sign : h.Pkey → Bytes → Option Bytes
  hcs_sign key msg = do md ← pick_md key; h.digest_sign md key msg

  unfoldable pub hcs_verify : h.Pkey → Bytes → Bytes → Verdict
  hcs_verify key msg sig = elim (pick_md key) [
    | none ↦ broken
    | some md ↦ verdict_of (h.digest_verify md key msg sig)
  ]

  fingerprint_for : KeyId → h.Pkey → Option Bytes
  fingerprint_for ed25519 key = do raw ← h.raw_public_key key; sha256_of raw
  fingerprint_for ec key = do raw ← h.public_point key; sha256_of raw
  fingerprint_for other_id key = none

  unfoldable pub pubkey_fingerprint : h.Pkey → Option Bytes
  unfolding fingerprint_for
  pubkey_fingerprint key = fingerprint_for (h.pkey_id key) key
