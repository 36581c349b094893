-- ===== src/Tests/Logs.antt =====
-- Logs of the small host, written and verified.
use mmhashchainsigs.Base.{
  Bytes, List, [], arith, codes, ltb, none, not, ok, refl, some, strip_prefix, true, ◌&&◌, ◌∷◌, ◌≡◌,
  concat,
}
use mmhashchainsigs.Cli.Lines.{chomp, run_lines, file_lines}
use mmhashchainsigs.Crypto.Alg.{hash_len, sha256}
use mmhashchainsigs.Crypto.Hash.{chain_init_hash, chain_iv}
use mmhashchainsigs.Format.Element.Ids.{cert_prefix}
use mmhashchainsigs.Format.Scan.{find_prefix}
use mmhashchainsigs.Pipeline.{IsStorable, stored_lines, IsStored}
use mmhashchainsigs.Pipeline.Opening.{IsFresh}
use mmhashchainsigs.Pipeline.Run.{honest_log_passes}
use mmhashchainsigs.Tests.Toy.{toy, toy_hash, toy_key, toy_sign}
use mmhashchainsigs.Tests.ToyLaws.{toy-IsBase64, toy-IsDigest, toy-IsKeyPair, toy-IsUnbroken}
use mmhashchainsigs.Verifier.State.{
  Verifier, fresh, unsigned_count, verifier_finalize, verifier_passed,
}
use mmhashchainsigs.Worker.Instance.{default_instance}
use mmhashchainsigs.Worker.State.{Active, Instance}

abbrev pub small_instance : Instance
small_instance = record (default_instance) { sign_interval = 2 }

abbrev pub fresh_worker : Active ⦃h = toy⦄
fresh_worker = record {
  chain = record {
    alg = sha256;
    hash_len = 32;
    current = toy_hash sha256 chain_iv;
    seq = 1;
    msg_count = 0;
  };
  signer = record {
    privkey = tt;
    cert = none;
    cert_der = none;
    pubkey_fp = toy_hash sha256 toy_key;
  };
  sig_seq_from = 1;
  is_first = true;
}

abbrev pub fresh_verifier : Verifier ⦃h = toy⦄
fresh_verifier = record (fresh ⦃h = toy⦄ true) {
  pubkey = some tt;
  pubkey_fp = toy_hash sha256 toy_key;
  have_pubkey = true;
}

states-IsFresh : IsFresh ⦃h = toy⦄ sha256 tt fresh_worker fresh_verifier
unfolding chain_init_hash hash_len
states-IsFresh = record {
  worker_new = record {
    is_first = refl;
    alg_is = refl;
    seq_one = refl;
    from_one = refl;
    start = refl;
    fp_width = toy-IsDigest.hash_width sha256 toy_key;
    fp_bytes = toy-IsDigest.hash_bytes sha256 toy_key;
  };
  holding = record { no_store = refl; have_pubkey = refl; has_key = refl; same_fp = refl };
  expecting = refl;
  no_alg = refl;
  none_signed = refl;
  no_errors = refl;
}

pub one-IsStorable : IsStorable (codes "one")
unfolding find_prefix cert_prefix strip_prefix chomp
one-IsStorable = record {
  no_cert = refl;
  short = omega arith;
  end_kept = refl;
  some_byte = omega arith;
}

pub one-IsStored : IsStored (codes "one")
one-IsStored = record { storable = one-IsStorable; inline = omega arith }

honest_log_passes_example :
    (lines : List Bytes) × (after : Verifier ⦃h = toy⦄) × (stored_lines small_instance fresh_worker
        (codes "one" ∷ codes "one" ∷ codes "one" ∷ [])
        512
      ≡ some lines)
    × (run_lines fresh_verifier (file_lines (concat lines)) 1 ≡ ok after)
    × (after.errors ≡ [])
    × (verifier_passed (verifier_finalize after) ≡ not (true && ltb 0 (unsigned_count after)))
unfolding default_instance
honest_log_passes_example =
    honest_log_passes toy-IsDigest toy-IsBase64 toy-IsUnbroken small_instance 512 sha256 tt toy_sign
      fresh_worker fresh_verifier (codes "one") (codes "one" ∷ codes "one" ∷ []) (omega arith)
      states-IsFresh refl toy-IsKeyPair (one-IsStored, (one-IsStored, (one-IsStored, tt)))
      (omega arith)
