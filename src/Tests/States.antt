-- ===== src/Tests/States.antt =====
-- The theorems on the states of the verifier, at concrete states.
use mmhashchainsigs.Base.{
  Bytes, arith, codes, false, inc64, length, length-replicate, ok, refl, replicate, some, sub64,
  true, ℕ, ◌++◌, ◌≡◌,
}
use mmhashchainsigs.Crypto.Alg.{hash_len, sha256}
use mmhashchainsigs.Crypto.Hash.{chain_iv, hash_chain}
use mmhashchainsigs.Crypto.Hash.Laws.{hash_chain-link, hcs_verify-sign, link}
use mmhashchainsigs.Crypto.Keys.{good, hcs_verify}
use mmhashchainsigs.Format.Element.{msg_params, sd_element}
use mmhashchainsigs.Format.Element.Clean.{msg_params-IsClean}
use mmhashchainsigs.Format.Element.Ids.{sd_prefix}
use mmhashchainsigs.Format.Parse.{SdRecord, empty_record}
use mmhashchainsigs.Format.Parse.RoundTrip.{parse_sd-msg}
use mmhashchainsigs.Tests.Toy.{toy, toy_hash, toy_key, toy_sign}
use mmhashchainsigs.Tests.ToyLaws.{toy-IsDigest, toy-IsKeyPair}
use mmhashchainsigs.Verifier.Errors.{missing_sd}
use mmhashchainsigs.Verifier.Handlers.{returned}
use mmhashchainsigs.Verifier.Handlers.Accept.{advanced, handle_sd_sig-good, verify_sd_msg_hash-good}
use mmhashchainsigs.Verifier.Handlers.Sound.{Agrees, handle_sd_sig_sound, verify_sd_msg_hash_sound}
use mmhashchainsigs.Verifier.Line.{process_line}
use mmhashchainsigs.Verifier.Line.Element.{process_line-long}
use mmhashchainsigs.Verifier.State.{Verifier, add_error, fresh, processing}

abbrev pub first_hash : Bytes
first_hash = link ⦃h = toy⦄ toy_hash sha256 (toy_hash sha256 chain_iv) 1 (codes "one")

abbrev open_verifier : Verifier ⦃h = toy⦄
open_verifier = record (fresh ⦃h = toy⦄ false) {
  pubkey = some tt;
  pubkey_fp = toy_hash sha256 toy_key;
  have_pubkey = true;
  hash_alg = sha256;
  hash_len = 32;
  have_hash_alg = true;
  chain_hash = toy_hash sha256 chain_iv;
  state = processing;
}

abbrev first_record : SdRecord
first_record = record empty_record {
  sd_type = b'S';
  seq = 1;
  chain_hash = first_hash;
  seq_from = 1;
  seq_to = 1;
  signature = toy_sign first_hash;
  has_signature = true;
}

pub first_width : length first_hash ≡ 32
unfolding hash_len
first_width = toy-IsDigest.hash_width sha256 _

pub first_hashed :
    hash_chain ⦃h = toy⦄ sha256 (toy_hash sha256 chain_iv) 1 (codes "one") ≡ some first_hash
first_hashed =
    hash_chain-link ⦃h = toy⦄ toy-IsDigest sha256 (toy_hash sha256 chain_iv) 1 (codes "one")

verify_sd_msg_hash_sound_example :
    Agrees ⦃h = toy⦄ first_record (codes "one") open_verifier
    × (advanced ⦃h = toy⦄ open_verifier first_hash ≡ advanced ⦃h = toy⦄ open_verifier first_hash)
verify_sd_msg_hash_sound_example =
    verify_sd_msg_hash_sound ⦃h = toy⦄ first_record (codes "one") open_verifier 7
      (verify_sd_msg_hash-good ⦃h = toy⦄ first_record (codes "one") open_verifier 7 refl first_width
        first_hashed)
      refl

handle_sd_sig_sound_example :
    Agrees ⦃h = toy⦄ first_record (codes "one") open_verifier
    × (1 ≡ inc64 0)
    × (1 ≡ sub64 (inc64 1) 1)
    × ((key : Unit {0}) × (some tt ≡ some key)
        × (hcs_verify ⦃h = toy⦄ key first_hash (toy_sign first_hash) ≡ good))
unfolding inc64 sub64
handle_sd_sig_sound_example =
    handle_sd_sig_sound ⦃h = toy⦄ first_record (codes "one") open_verifier 7
      (handle_sd_sig-good ⦃h = toy⦄ first_record (codes "one") open_verifier 7 refl first_width
        first_hashed tt refl refl refl refl refl
        (hcs_verify-sign ⦃h = toy⦄ toy-IsKeyPair first_hash))
      refl

abbrev pub first_init : SdRecord
first_init = record empty_record {
  sd_type = b'I';
  seq = 1;
  chain_hash = first_hash;
  pubkey_fp = toy_hash sha256 toy_key;
  has_pubkey_fp = true;
}

process_line-long_example :
    process_line ⦃h = toy⦄ open_verifier
      (sd_element sd_prefix (msg_params 5 first_hash) ++ replicate 8192 b'x')
      0
      7
    ≡ ok (returned (add_error ⦃h = toy⦄ open_verifier 7 missing_sd))
unfolding hash_len
process_line-long_example =
    process_line-long ⦃h = toy⦄ open_verifier (msg_params 5 first_hash)
      (record empty_record { seq = 5; chain_hash = first_hash }) (replicate 8192 b'x') 0 7
      (msg_params-IsClean 5 first_hash (toy-IsDigest.hash_bytes sha256 _))
      (parse_sd-msg ⦃h = toy⦄ sha256 5 first_hash (omega arith) first_width
        (toy-IsDigest.hash_bytes sha256 _))
      refl (omega (arith, length-replicate {A = ℕ} 8192 b'x'))
