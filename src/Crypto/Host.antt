-- ===== src/Crypto/Host.antt =====
-- What the code calls and does not implement: OpenSSL (libcrypto) and the file system. Nothing is
-- assumed of them here; a theorem that relies on documented behaviour names it as a hypothesis.
use mmhashchainsigs.Base.{Bool, Bytes, Option, ℕ}
use mmhashchainsigs.Crypto.Alg.{HashAlg}

-- `EVP_PKEY_id`, by the cases that the code tells apart.
pub data KeyId : Type 0 where
  ed25519 ec other_id : KeyId

-- The result of `EVP_DigestVerify` and `EVP_DigestVerifyFinal`: 1, 0 or negative.
pub data VerifyStatus : Type 0 where
  valid invalid verify_error : VerifyStatus

-- `X509_verify_cert`, with the text of `X509_verify_cert_error_string` for a refusal.
pub data ChainStatus : Type 0 where
  init_failed : ChainStatus
  trusted : ChainStatus
  untrusted : Bytes → ChainStatus

pub record Host : Type 1 where
  -- `EVP_PKEY`, `X509` and `X509_STORE`
  pub Pkey : Type 0
  pub Cert : Type 0
  pub TrustStore : Type 0
  -- a whole `EVP_Digest` run over the bytes; `none` if one of the calls fails
  pub digest : HashAlg → Bytes → Option Bytes
  pub pkey_id : Pkey → KeyId
  -- `EVP_PKEY_get_group_name`
  pub group_name : Pkey → Option Bytes
  -- `EVP_PKEY_get_raw_public_key` into 32 bytes
  pub raw_public_key : Pkey → Option Bytes
  -- `EVP_PKEY_get_octet_string_param` of `OSSL_PKEY_PARAM_PUB_KEY` into 256 bytes
  pub public_point : Pkey → Option Bytes
  -- `EVP_DigestSign*` and `EVP_DigestVerify*`; no algorithm means the single-shot calls
  pub digest_sign : Option HashAlg → Pkey → Bytes → Option Bytes
  pub digest_verify : Option HashAlg → Pkey → Bytes → Bytes → VerifyStatus
  -- `EVP_EncodeBlock`; `EVP_DecodeBlock`, whose result is all that it writes, `none` if negative
  pub encode_block : Bytes → Bytes
  pub decode_block : Bytes → Option Bytes
  -- `PEM_read_PrivateKey`, `PEM_read_PUBKEY` and `PEM_read_X509` on the contents of a file
  pub read_private_key : Bytes → Option Pkey
  pub read_pubkey : Bytes → Option Pkey
  pub read_x509 : Bytes → Option Cert
  -- `X509_get_pubkey`, `X509_check_private_key`, `i2d_X509`, `d2i_X509`
  pub x509_pubkey : Cert → Option Pkey
  pub x509_check_private_key : Cert → Pkey → Bool
  pub i2d : Cert → Option Bytes
  pub d2i : Bytes → Option Cert
  -- `X509_STORE_new`, `X509_STORE_load_file`, `X509_STORE_set_flags` for CRL checks
  pub new_store : Option TrustStore
  pub load_file : TrustStore → Bytes → Option TrustStore
  pub set_crl_flags : TrustStore → TrustStore
  -- `X509_STORE_CTX_new`: whether it gives a context
  pub new_store_ctx : Bool
  -- `X509_STORE_CTX_init` and `X509_verify_cert`
  pub verify_cert : TrustStore → Cert → ChainStatus
  -- `fopen(path, "r")` with the contents, and the mode bits of `stat`
  pub read_file : Bytes → Option Bytes
  -- `strerror(errno)` behind an `fopen` of the path that has failed
  pub open_failure : Bytes → Bytes
  pub file_mode : Bytes → Option ℕ
