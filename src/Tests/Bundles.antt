-- ===== src/Tests/Bundles.antt =====
-- Certificates inside a log.
use mmhashchainsigs.Base.{
  Bytes, List, [], arith, codes, length, ltb, not, ok, refl, some, true, ℕ, ◌&&◌, ◌++◌, ◌<◌, ◌∷◌,
  ◌≡◌, concat,
}
use mmhashchainsigs.Cli.Lines.{run_lines, file_lines}
use mmhashchainsigs.Crypto.Alg.{hash_len, sha256}
use mmhashchainsigs.Crypto.Hash.{chain_init_hash, sha256_of}
use mmhashchainsigs.Crypto.Keys.{key_is_supported, pubkey_fingerprint, x509_get_pubkey}
use mmhashchainsigs.Format.Codec.{b64_encode}
use mmhashchainsigs.Format.Element.{format_sd_cert}
use mmhashchainsigs.Format.Element.Bounds.{length-opening}
use mmhashchainsigs.Format.Element.Ids.{cert_prefix}
use mmhashchainsigs.Format.Strip.{extract_and_strip_cert_sd}
use mmhashchainsigs.Format.Strip.Cert.{cert_text, extract_and_strip_cert_sd-format_sd_cert}
use mmhashchainsigs.Pipeline.{stored_lines}
use mmhashchainsigs.Pipeline.Bundle.{IsEmbedding, IsTrusting, embedded_log_passes}
use mmhashchainsigs.Pipeline.Opening.{IsNew}
use mmhashchainsigs.Signer.{signer_get_cert_der}
use mmhashchainsigs.Tests.Logs.{fresh_worker, small_instance, one-IsStored}
use mmhashchainsigs.Tests.States.{first_width}
use mmhashchainsigs.Tests.Toy.{toy, toy_encode, toy_hash, toy_key, toy_sign}
use mmhashchainsigs.Tests.ToyLaws.{toy-IsBase64, toy-IsDigest, toy-IsKeyPair, toy-IsUnbroken}
use mmhashchainsigs.Verifier.State.{
  Verifier, fresh, unsigned_count, verifier_finalize, verifier_passed,
}
use mmhashchainsigs.Worker.Instance.{default_instance}
use mmhashchainsigs.Worker.State.{Active, Instance}

-- The bytes of a certificate, which the small host takes as they are.
abbrev some_der : Bytes
some_der = codes "abc"

abbrev some_cert_text : Bytes
some_cert_text = cert_text (toy_encode some_der)

printed_cert :
    (room : ℕ) → 100 < room → format_sd_cert ⦃h = toy⦄ some_der room ≡ some some_cert_text
unfolding format_sd_cert b64_encode toy_encode cert_prefix
printed_cert room wide = ground arith

extract_and_strip_cert_sd-format_sd_cert_example :
    extract_and_strip_cert_sd ⦃h = toy⦄ (some_cert_text ++ codes "one") 8192 4096
    ≡ ok (codes "one", some some_der)
extract_and_strip_cert_sd-format_sd_cert_example =
    extract_and_strip_cert_sd-format_sd_cert ⦃h = toy⦄ toy-IsBase64 some_der (codes "one") 3584 8192
      4096 (omega arith) (printed_cert 3584 (omega arith)) (omega arith) (omega arith)

abbrev embedding_instance : Instance
embedding_instance = record (small_instance) { embedcert = true }

abbrev embedding_worker : Active ⦃h = toy⦄
embedding_worker = record fresh_worker {
  signer = record (fresh_worker.signer) { cert = some some_der; cert_der = some some_der };
}

abbrev bundle_verifier : Verifier ⦃h = toy⦄
bundle_verifier = record (fresh ⦃h = toy⦄ true) { trust_store = some tt }

embedding_worker-IsNew : IsNew ⦃h = toy⦄ sha256 embedding_worker
unfolding chain_init_hash hash_len
embedding_worker-IsNew = record {
  is_first = refl;
  alg_is = refl;
  seq_one = refl;
  from_one = refl;
  start = refl;
  fp_width = toy-IsDigest.hash_width sha256 toy_key;
  fp_bytes = toy-IsDigest.hash_bytes sha256 toy_key;
}

bundle_verifier-IsTrusting :
    IsTrusting ⦃h = toy⦄ tt (toy_hash sha256 toy_key) some_der bundle_verifier
unfolding x509_get_pubkey key_is_supported pubkey_fingerprint sha256_of
bundle_verifier-IsTrusting = record {
  store = tt;
  cert = some_der;
  has_store = refl;
  no_key = refl;
  parsed = refl;
  has_ctx = refl;
  is_trusted = refl;
  certified = refl;
  printed = refl;
  expecting = refl;
  no_alg = refl;
  none_signed = refl;
  no_errors = refl;
}

embedding :
    (sd : Bytes)
    → length sd < 512
    → IsEmbedding ⦃h = toy⦄ 3584 sd embedding_worker some_der (codes "one")
unfolding signer_get_cert_der toy_encode cert_prefix
embedding sd short = record {
  signer = embedding_worker.signer;
  text = some_cert_text;
  given = refl;
  same_privkey = refl;
  shown = printed_cert _ (omega (arith, short));
  bytes = omega arith;
  some_byte = omega arith;
  small = omega arith;
  fits_both = omega arith;
}

embedded_log_passes_example :
    (lines : List Bytes) × (after : Verifier ⦃h = toy⦄) × (stored_lines embedding_instance
        embedding_worker
        (codes "one" ∷ codes "one" ∷ [])
        3584
      ≡ some lines)
    × (run_lines bundle_verifier (file_lines (concat lines)) 1 ≡ ok after)
    × (after.errors ≡ [])
    × (verifier_passed (verifier_finalize after) ≡ not (true && ltb 0 (unsigned_count after)))
unfolding default_instance hash_len
embedded_log_passes_example =
    embedded_log_passes toy-IsDigest toy-IsBase64 toy-IsUnbroken embedding_instance 3584
      (omega arith) sha256 tt toy_sign embedding_worker bundle_verifier (codes "one")
      (codes "one" ∷ []) (one-IsStored, (one-IsStored, tt)) embedding_worker-IsNew some_der refl
      bundle_verifier-IsTrusting
      (embedding _ (
        length-opening 1 _ 512 (omega (arith, first_width)) (omega arith) (codes "I") _ refl
          (toy-IsDigest.hash_width sha256 toy_key)))
      toy-IsKeyPair (omega arith)
