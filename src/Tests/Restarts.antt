-- ===== src/Tests/Restarts.antt =====
-- The theorem on restarts, behind a log of one line.
use mmhashchainsigs.Base.{
  Bytes, List, [], arith, codes, false, inc64, ltb, none, not, ok, refl, some, true, ◌&&◌, ◌+◌, ◌∷◌,
  ◌≡◌, concat,
}
use mmhashchainsigs.Cli.Lines.{run_lines, file_lines}
use mmhashchainsigs.Crypto.Alg.{hash_len, sha256}
use mmhashchainsigs.Crypto.Hash.{chain_init_hash, sha256_of}
use mmhashchainsigs.Crypto.Keys.{key_is_supported, load_private_key, pubkey_fingerprint}
use mmhashchainsigs.HashChain.{chain_init}
use mmhashchainsigs.Pipeline.{IsSynced}
use mmhashchainsigs.Pipeline.Opening.{IsNew}
use mmhashchainsigs.Pipeline.Restart.{IsSavable}
use mmhashchainsigs.Pipeline.Restart.Crash.{crashed_log_passes}
use mmhashchainsigs.Pipeline.Restart.Log.{restarted_log_passes}
use mmhashchainsigs.Pipeline.Restart.Resume.{running, worker_lines}
use mmhashchainsigs.Signer.{check_privkey_perms, signer_init}
use mmhashchainsigs.Tests.Logs.{fresh_worker, small_instance, one-IsStored}
use mmhashchainsigs.Tests.Passing.{read_verifier}
use mmhashchainsigs.Tests.States.{first_hash, first_width}
use mmhashchainsigs.Tests.Toy.{toy, toy_key, toy_sign}
use mmhashchainsigs.Tests.ToyLaws.{toy-IsBase64, toy-IsDigest, toy-IsKeyPair, toy-IsUnbroken}
use mmhashchainsigs.Verifier.State.{Verifier, unsigned_count, verifier_finalize, verifier_passed}
use mmhashchainsigs.Worker.Instance.{create_worker, default_instance, free_worker}
use mmhashchainsigs.Worker.Process.{worker_init, process_next}
use mmhashchainsigs.Worker.Process.Interval.{Signs, process_next-Signs, worker_after}
use mmhashchainsigs.Worker.State.{Active, Instance, Worker}

-- With a directory for the state.
abbrev kept_instance : Instance
kept_instance = record (small_instance) { statefiledir = some (codes "/var/lib") }

-- A worker that has emitted one message.
abbrev pub one_behind : Active ⦃h = toy⦄
one_behind = record fresh_worker {
  chain = record (fresh_worker.chain) { current = first_hash; seq = 2; msg_count = 1 };
  is_first = false;
}

kept_init : worker_init ⦃h = toy⦄ kept_instance ≡ some fresh_worker
unfolding default_instance worker_init signer_init check_privkey_perms load_private_key
    pubkey_fingerprint key_is_supported sha256_of chain_init chain_init_hash hash_len
kept_init = refl

one_behind-IsSavable : IsSavable ⦃h = toy⦄ one_behind
unfolding hash_len
one_behind-IsSavable = record {
  width = first_width;
  bytes = toy-IsDigest.hash_bytes sha256 _;
  fp_width = toy-IsDigest.hash_width sha256 toy_key;
  fp_bytes = toy-IsDigest.hash_bytes sha256 toy_key;
  seq_small = omega arith;
  from_small = omega arith;
}

pub one_behind-IsSynced : IsSynced ⦃h = toy⦄ sha256 tt one_behind read_verifier
unfolding hash_len inc64
one_behind-IsSynced = record {
  is_open = refl;
  alg_is = refl;
  verifier_alg = refl;
  verifier_len = refl;
  same_hash = refl;
  same_seq = refl;
  same_range = refl;
  from_small = omega arith;
  in_segment = refl;
  has_key = refl;
  no_errors = refl;
}

restarted_log_passes_example :
    (created : Worker ⦃h = toy⦄) × (lines : List Bytes) × (after : Verifier ⦃h = toy⦄)
    × (create_worker 0 kept_instance
          ((free_worker 1 (running kept_instance none one_behind) true true true).1.state_file)
        ≡ (1, some created))
    × (worker_lines created (codes "one" ∷ codes "one" ∷ []) 512 ≡ some lines)
    × (run_lines read_verifier (file_lines (concat lines)) 2 ≡ ok after)
    × (after.errors ≡ [])
    × (verifier_passed (verifier_finalize after)
        ≡ not (read_verifier.strict && ltb 0 (unsigned_count after)))
unfolding default_instance
restarted_log_passes_example =
    restarted_log_passes toy-IsDigest toy-IsBase64 kept_instance 512 (omega arith) tt toy_sign
      toy-IsUnbroken one_behind fresh_worker read_verifier one_behind-IsSavable one_behind-IsSynced
      toy-IsKeyPair refl (codes "/var/lib") (codes "one") (codes "one") [] 2 none refl (omega arith)
      kept_init refl
      (record { no_store = refl; have_pubkey = refl; has_key = refl; same_fp = refl })
      (one-IsStored, (one-IsStored, tt)) (omega arith)

process_next-Signs_example :
    (b : Active ⦃h = toy⦄) × (text : Bytes) × (process_next
        (record small_instance { sign_interval = 3 })
        (worker_after
          (record small_instance { sign_interval = 3 })
          one_behind
          (codes "one" ∷ [])
          512)
        (codes "one")
        512
      ≡ (b, some text))
    × Signs ⦃h = toy⦄ tt 1 (2 + 1) text b
process_next-Signs_example =
    process_next-Signs toy-IsDigest toy-IsBase64 (record small_instance { sign_interval = 3 }) 512
      (omega arith) toy_sign (codes "one" ∷ []) (codes "one") one_behind toy-IsKeyPair refl
      (omega arith) (omega arith) (omega arith) (omega arith)

fresh_worker-IsNew : IsNew ⦃h = toy⦄ sha256 fresh_worker
unfolding chain_init_hash hash_len
fresh_worker-IsNew = record {
  is_first = refl;
  alg_is = refl;
  seq_one = refl;
  from_one = refl;
  start = refl;
  fp_width = toy-IsDigest.hash_width sha256 toy_key;
  fp_bytes = toy-IsDigest.hash_bytes sha256 toy_key;
}

crashed_log_passes_example :
    (created : Worker ⦃h = toy⦄) × (lines : List Bytes) × (after : Verifier ⦃h = toy⦄)
    × (create_worker 0 kept_instance none ≡ (1, some created))
    × (worker_lines created (codes "one" ∷ codes "one" ∷ []) 512 ≡ some lines)
    × (run_lines read_verifier (file_lines (concat lines)) 2 ≡ ok after)
    × (verifier_passed (verifier_finalize after) ≡ true)
unfolding default_instance
crashed_log_passes_example =
    crashed_log_passes toy-IsDigest toy-IsBase64 toy-IsUnbroken kept_instance 512 tt toy_sign
      fresh_worker read_verifier (codes "one") (codes "one" ∷ []) 2 (omega arith) kept_init
      fresh_worker-IsNew refl
      (record { no_store = refl; have_pubkey = refl; has_key = refl; same_fp = refl })
      (refl, refl, refl) refl toy-IsKeyPair (one-IsStored, (one-IsStored, tt)) (omega arith)
