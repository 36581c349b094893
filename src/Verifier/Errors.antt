-- ===== src/Verifier/Errors.antt =====
-- The messages that verifier.c records, one constructor for each call of `add_error`.
use mmhashchainsigs.Base.{Bytes, codes, take, ℕ, ◌++◌}
use mmhashchainsigs.Crypto.Alg.{HashAlg, hash_name}
use mmhashchainsigs.Format.Number.{print_ulong}

pub data VerifyIssue : Type 0 where
  cert_unparsed store_ctx_failed cert_key_unsupported cert_fp_failed : VerifyIssue
  cert_untrusted : Bytes → VerifyIssue
  seq_mismatch : ℕ → ℕ → VerifyIssue
  hash_len_changed : ℕ → ℕ → VerifyIssue
  hash_mismatch : ℕ → VerifyIssue
  init_without_fp cert_required no_pubkey init_fp_mismatch : VerifyIssue
  unsigned_before_segment : ℕ → VerifyIssue
  bad_hash_len : ℕ → VerifyIssue
  alg_changed : HashAlg → HashAlg → VerifyIssue
  msg_before_init sig_before_init sig_missing : VerifyIssue
  sig_from_mismatch : ℕ → ℕ → VerifyIssue
  sig_to_mismatch : ℕ → ℕ → VerifyIssue
  sig_invalid : ℕ → ℕ → VerifyIssue
  sig_error : ℕ → ℕ → VerifyIssue
  continue_before_init continue_fp_mismatch : VerifyIssue
  missing_sd malformed_cert expected_init unknown_type empty_file : VerifyIssue
  unsigned_tail : ℕ → VerifyIssue

text : VerifyIssue → Bytes
text cert_unparsed = codes "failed to parse embedded certificate"
text store_ctx_failed = codes "X509_STORE_CTX_init failed"
text cert_key_unsupported = codes "unsupported public key algorithm in certificate"
text cert_fp_failed = codes "failed to compute pubkey fingerprint from cert"
text (cert_untrusted why) = codes "certificate chain validation failed: " ++ why
text (seq_mismatch got want) =
    codes "SD seq=" ++ print_ulong got ++ codes ", expected " ++ print_ulong want
text (hash_len_changed got want) =
    codes "chain hash length changed mid-chain (got "
    ++ print_ulong got
    ++ codes ", expected "
    ++ print_ulong want
    ++ codes ")"
text (hash_mismatch seq) = codes "chain hash mismatch at seq " ++ print_ulong seq
text init_without_fp = codes "INIT SD missing fingerprint"
text cert_required =
    codes
      "CA-bundle mode requires an embedded certificate on INIT (configure embedcert=on at the signer)"
text no_pubkey = codes "no public key available to verify INIT"
text init_fp_mismatch = codes "INIT fingerprint mismatch"
text (unsigned_before_segment n) = print_ulong n ++ codes " messages unsigned before new segment"
text (bad_hash_len n) = codes "INIT chain hash has unsupported length " ++ print_ulong n
text (alg_changed was now) =
    codes "hash algorithm changed mid-file (was "
    ++ hash_name was
    ++ codes ", INIT now "
    ++ hash_name now
    ++ codes ")"
text msg_before_init = codes "message before INIT"
text sig_before_init = codes "SIG before INIT"
text sig_missing = codes "SIG SD missing signature"
text (sig_from_mismatch got want) =
    codes "SIG qf=" ++ print_ulong got ++ codes ", expected " ++ print_ulong want
text (sig_to_mismatch got want) =
    codes "SIG qt=" ++ print_ulong got ++ codes ", expected " ++ print_ulong want
text (sig_invalid from to) =
    codes "invalid signature at seq " ++ print_ulong from ++ codes "-" ++ print_ulong to
text (sig_error from to) =
    codes "signature verification error at seq " ++ print_ulong from ++ codes "-" ++ print_ulong to
text continue_before_init = codes "CONTINUE before INIT"
text continue_fp_mismatch = codes "CONTINUE fingerprint mismatch"
text missing_sd = codes "missing mmhashchainsigs SD element"
text malformed_cert = codes "malformed embedded cert SD element"
text expected_init = codes "expected INIT SD record"
text unknown_type = codes "unknown SD type"
text empty_file = codes "empty file: no INIT record found"
text (unsigned_tail n) = print_ulong n ++ codes " messages at tail are unsigned"

-- `vsnprintf` into 256 bytes cuts a longer message.
unfoldable pub message : VerifyIssue → Bytes
unfolding text
message e = take 255 (text e)
