-- ===== src/Tests/Chains.antt =====
-- The theorems on the chain, the worker, the signer and the state file, at concrete states.
use mmhashchainsigs.Base.{
  [], arith, codes, drop, false, inc64, length, none, refl, replicate, some, true, ℕ, ◌%◌, ◌++◌,
  ◌/◌, ◌∷◌, ◌≡◌, ◌⊎◌,
}
use mmhashchainsigs.Crypto.Alg.{hash_len, sha256}
use mmhashchainsigs.Crypto.Hash.{chain_init_hash, chain_iv, hash_chain, sha256_of}
use mmhashchainsigs.Crypto.Keys.{
  key_is_supported, load_private_key, load_x509_cert, pubkey_fingerprint, x509_check_keypair,
  x509_get_pubkey,
}
use mmhashchainsigs.HashChain.{HashChain, chain_init, chain_update}
use mmhashchainsigs.HashChain.Binding.{
  Collision, chain_updates, chain_updates-binding, hashed_texts,
}
use mmhashchainsigs.HashChain.Ends.{SameEnd, SameEnd-binds, chain_texts}
use mmhashchainsigs.Signer.{Signer, check_privkey_perms, signer_init_x509}
use mmhashchainsigs.Signer.Init.{signer_init_x509_sound}
use mmhashchainsigs.Tests.States.{first_hash, first_width}
use mmhashchainsigs.Tests.Toy.{toy, toy_hash, toy_key, toy_log}
use mmhashchainsigs.Tests.ToyLaws.{toy-IsDigest}
use mmhashchainsigs.Worker.Instance.{default_instance}
use mmhashchainsigs.Worker.Process.{final_sign, process_next}
use mmhashchainsigs.Worker.Process.Ranges.{IsCounted, final_sign-IsCounted, process_next-IsCounted}
use mmhashchainsigs.Worker.State.{Active, SavedState}
use mmhashchainsigs.Worker.StateFile.{load_state, state_text}
use mmhashchainsigs.Worker.StateFile.RoundTrip.{load_state-state_text}

abbrev start_chain : HashChain
start_chain = record {
  alg = sha256;
  hash_len = 32;
  current = toy_hash sha256 chain_iv;
  seq = 1;
  msg_count = 0;
}

abbrev end_chain : HashChain
end_chain = record { alg = sha256; hash_len = 32; current = first_hash; seq = 2; msg_count = 1 }

one_update : chain_updates ⦃h = toy⦄ start_chain (codes "one" ∷ []) ≡ some end_chain
unfolding chain_updates chain_update hash_chain inc64
one_update = refl

start_width : length start_chain.current ≡ hash_len sha256
start_width = toy-IsDigest.hash_width sha256 chain_iv

chain_updates-binding_example :
    ((start_chain.current ≡ start_chain.current) × ((codes "one" ∷ []) ≡ (codes "one" ∷ [])))
    ⊎ Collision toy_hash sha256
        (hashed_texts ⦃h = toy⦄ toy_hash start_chain (codes "one" ∷ []))
        (hashed_texts ⦃h = toy⦄ toy_hash start_chain (codes "one" ∷ []))
chain_updates-binding_example =
    chain_updates-binding ⦃h = toy⦄ toy-IsDigest sha256 start_chain start_chain (codes "one" ∷ [])
      (codes "one" ∷ []) refl refl refl start_width start_width refl one_update one_update refl

one_from_start :
    chain_updates ⦃h = toy⦄ ((chain_init ⦃h = toy⦄ sha256).0) (codes "one" ∷ []) ≡ some end_chain
unfolding chain_updates chain_init chain_init_hash chain_update hash_chain inc64 hash_len
one_from_start = refl

one_and_one : SameEnd ⦃h = toy⦄ toy-IsDigest sha256 sha256 (codes "one" ∷ []) (codes "one" ∷ [])
one_and_one = record {
  one = end_chain;
  other = end_chain;
  one_hashed = one_from_start;
  other_hashed = one_from_start;
  one_more = (omega arith, omega arith);
  other_more = (omega arith, omega arith);
  same = refl;
}

SameEnd-binds_example :
    ((codes "one" ∷ []) ≡ (codes "one" ∷ []))
    ⊎ Collision toy_hash sha256
        (chain_texts ⦃h = toy⦄ toy_hash sha256 (codes "one" ∷ []))
        (chain_texts ⦃h = toy⦄ toy_hash sha256 (codes "one" ∷ []))
SameEnd-binds_example =
    SameEnd-binds ⦃h = toy⦄ toy-IsDigest sha256 sha256 (codes "one" ∷ []) (codes "one" ∷ [])
      one_and_one

abbrev first_worker : Active ⦃h = toy⦄
first_worker = record {
  chain = start_chain;
  signer = record {
    privkey = tt;
    cert = none;
    cert_der = none;
    pubkey_fp = toy_hash sha256 toy_key;
  };
  sig_seq_from = 1;
  is_first = true;
}

process_next-IsCounted_example :
    IsCounted ⦃h = toy⦄ ((process_next ⦃h = toy⦄ default_instance first_worker (codes "one") 512).0)
process_next-IsCounted_example =
    process_next-IsCounted ⦃h = toy⦄ default_instance first_worker (codes "one") 512
      (record { range = refl; above = omega arith }) (omega arith)

abbrev toy_signer : Signer ⦃h = toy⦄
toy_signer = record {
  privkey = tt;
  cert = some toy_log;
  cert_der = none;
  pubkey_fp = toy_hash sha256 toy_key;
}

toy_signer_lem : signer_init_x509 ⦃h = toy⦄ (codes "k") (codes "c") ≡ some toy_signer
unfolding signer_init_x509 check_privkey_perms load_private_key load_x509_cert x509_get_pubkey
    x509_check_keypair pubkey_fingerprint key_is_supported sha256_of
toy_signer_lem = refl

signer_init_x509_sound_example :
    (mode : ℕ) × (cert : toy.Cert) × (pk : toy.Pkey) × (toy.file_mode (codes "k") ≡ some mode)
    × (mode / 4 % 2 ≡ 0)
    × (load_private_key ⦃h = toy⦄ (codes "k") ≡ some tt)
    × (some toy_log ≡ some cert)
    × (x509_get_pubkey ⦃h = toy⦄ cert ≡ some pk)
    × (x509_check_keypair ⦃h = toy⦄ cert tt ≡ true)
    × (pubkey_fingerprint ⦃h = toy⦄ tt ≡ some (toy_hash sha256 toy_key))
signer_init_x509_sound_example =
    signer_init_x509_sound ⦃h = toy⦄ (codes "k") (codes "c") {s = toy_signer} toy_signer_lem

abbrev small_state : SavedState
small_state = record {
  hash_alg = sha256;
  hash_len = 32;
  chain_hash = first_hash;
  seq = 2;
  sig_seq_from = 1;
  pubkey_fp = toy_hash sha256 toy_key;
}

load_state-state_text_example :
    load_state (some (state_text small_state))
    ≡ some (record small_state {
      chain_hash = first_hash ++ drop (length first_hash) (replicate 64 0);
    })
unfolding hash_len
load_state-state_text_example =
    load_state-state_text small_state first_width (toy-IsDigest.hash_bytes sha256 _)
      (toy-IsDigest.hash_width sha256 toy_key) (toy-IsDigest.hash_bytes sha256 toy_key)
      (omega arith) (omega arith)

abbrev busy_worker : Active ⦃h = toy⦄
busy_worker = record first_worker { chain = end_chain; is_first = false }

final_sign-IsCounted_example : IsCounted ⦃h = toy⦄ ((final_sign ⦃h = toy⦄ busy_worker 512).0)
final_sign-IsCounted_example =
    final_sign-IsCounted ⦃h = toy⦄ busy_worker 512 (record { range = refl; above = omega arith })
      (omega arith)
