-- ===== src/Tests/Strict.antt =====
-- The theorem on strict mode, at a log of two lines.
use mmhashchainsigs.Base.{
  Bytes, List, [], arith, codes, inc64, inl, none, ok, refl, some, sub64, true, ℕ, ◌++◌, ◌∷◌, ◌≡◌,
}
use mmhashchainsigs.Cli.Lines.{run_lines}
use mmhashchainsigs.Cli.Lines.Trace.{Trace}
use mmhashchainsigs.Crypto.Alg.{sha256}
use mmhashchainsigs.Crypto.Hash.{sha256_of}
use mmhashchainsigs.Crypto.Keys.{key_is_supported, load_public_key, pubkey_fingerprint}
use mmhashchainsigs.Pipeline.{IsSynced}
use mmhashchainsigs.Pipeline.Covered.{Covered, run_lines-Covered}
use mmhashchainsigs.Pipeline.Run.{run_cons}
use mmhashchainsigs.Pipeline.Step.{behind_sig, sig_accepted, sig_text}
use mmhashchainsigs.Tests.Logs.{one-IsStorable, small_instance}
use mmhashchainsigs.Tests.Passing.{first_line, first_text, in_mode, key_verifier, read_verifier}
use mmhashchainsigs.Tests.Restarts.{one_behind, one_behind-IsSynced}
use mmhashchainsigs.Tests.Toy.{toy, toy_sign}
use mmhashchainsigs.Tests.ToyLaws.{toy-IsBase64, toy-IsDigest, toy-IsKeyPair}
use mmhashchainsigs.Verifier.Handlers.{returned}
use mmhashchainsigs.Verifier.Handlers.Keeps.{Keeps}
use mmhashchainsigs.Verifier.Line.{process_line}
use mmhashchainsigs.Verifier.State.{
  Verifier, VerifierOpts, unsigned_count, verifier_finalize, verifier_init, verifier_passed,
}

abbrev pub behind_first : Verifier ⦃h = toy⦄
behind_first = in_mode true read_verifier

pub behind_first-IsSynced : IsSynced ⦃h = toy⦄ sha256 tt one_behind behind_first
behind_first-IsSynced = record {
  is_open = refl;
  alg_is = refl;
  verifier_alg = refl;
  verifier_len = refl;
  same_hash = refl;
  same_seq = one_behind-IsSynced.same_seq;
  same_range = one_behind-IsSynced.same_range;
  from_small = one_behind-IsSynced.from_small;
  in_segment = refl;
  has_key = refl;
  no_errors = refl;
}

-- The element of the second message, a signature.
abbrev pub second_text : Bytes
second_text =
    sig_text ⦃h = toy⦄ toy-IsDigest toy-IsBase64 small_instance 512 (omega arith) sha256 tt
      one_behind behind_first (codes "one") 2 one-IsStorable (omega arith) behind_first-IsSynced
      toy_sign

abbrev pub behind_second : Verifier ⦃h = toy⦄
behind_second =
    behind_sig ⦃h = toy⦄ toy-IsDigest toy-IsBase64 small_instance 512 (omega arith) sha256 tt
      one_behind behind_first (codes "one") 2 one-IsStorable (omega arith) behind_first-IsSynced

abbrev pub signed_lines : List Bytes
signed_lines = (second_text ++ (codes "one" ++ b'\n' ∷ [])) ∷ []

abbrev pub signed_log : List Bytes
signed_log = (first_text ++ (codes "one" ++ b'\n' ∷ [])) ∷ signed_lines

second_line :
    (beyond : ℕ)
    → process_line ⦃h = toy⦄ behind_first (second_text ++ codes "one") beyond 2
      ≡ ok (returned behind_second)
second_line beyond =
    sig_accepted ⦃h = toy⦄ toy-IsDigest toy-IsBase64 small_instance 512 (omega arith) sha256 tt
      one_behind behind_first (codes "one") 2 one-IsStorable (omega arith) behind_first-IsSynced
      toy_sign toy-IsKeyPair beyond

pub signed_log_read :
    run_lines ⦃h = toy⦄ (in_mode true key_verifier) signed_log 1 ≡ ok behind_second
unfolding inc64
signed_log_read =
    run_cons ⦃h = toy⦄ (in_mode true key_verifier) behind_first first_text (codes "one")
      signed_lines 1 one-IsStorable (first_line true)
      (run_cons ⦃h = toy⦄ behind_first behind_second second_text (codes "one") [] 2 one-IsStorable
        second_line (unfold run_lines in refl))

abbrev pub strict_opts : VerifierOpts
strict_opts = record {
  pubkey_path = some (codes "key");
  cert_path = none;
  ca_bundle_path = none;
  crl_file = none;
  strict = true;
}

pub strict_start : verifier_init ⦃h = toy⦄ strict_opts ≡ some (in_mode true key_verifier)
unfolding verifier_init load_public_key pubkey_fingerprint key_is_supported sha256_of
strict_start = refl

run_lines-Covered_example :
    (t : Trace ⦃h = toy⦄ (in_mode true key_verifier) signed_log behind_second) × Covered ⦃h = toy⦄ t
unfolding verifier_passed verifier_finalize unsigned_count sub64 inc64
run_lines-Covered_example =
    run_lines-Covered ⦃h = toy⦄ toy-IsDigest strict_opts signed_log strict_start refl (inl refl)
      (omega arith) signed_log_read refl
