-- ===== src/Tests/Programs.antt =====
-- The theorems on the whole program, at a log of one line.
use mmhashchainsigs.Base.{[], ap, codes, inc64, ok, refl, some, ◌∙◌, ◌∷◌, ◌≡◌, ◌⊎◌}
use mmhashchainsigs.Cli.{
  Ended, crl_allowed, exits, initial_cli, one_anchor, opt_publickey, parse_options, run_main,
}
use mmhashchainsigs.Cli.Lines.{file_lines, run_lines}
use mmhashchainsigs.Cli.Report.{exit_code, report}
use mmhashchainsigs.Cli.Sound.{Verified, run_main_sound}
use mmhashchainsigs.Crypto.Alg.{hash_len}
use mmhashchainsigs.Crypto.Hash.{chain_iv, sha256_of, uint64_to_be}
use mmhashchainsigs.Crypto.Keys.{key_is_supported, load_public_key, pubkey_fingerprint}
use mmhashchainsigs.Format.Element.Ids.{sd_prefix}
use mmhashchainsigs.Format.Hex.{hex_encode}
use mmhashchainsigs.Format.Number.{digits, print_ulong}
use mmhashchainsigs.Tests.Passing.{key_verifier, read_verifier, short_log, short_log_read}
use mmhashchainsigs.Tests.Toy.{toy, toy_hash, toy_log}
use mmhashchainsigs.Tests.ToyLaws.{toy-IsDigest}
use mmhashchainsigs.Verifier.State.{
  done, unsigned_count, verifier_finalize, verifier_init, verifier_passed,
}

toy_log_lines : file_lines toy_log ≡ short_log
unfolding file_lines hex_encode toy_hash print_ulong hash_len sd_prefix uint64_to_be digits chain_iv
toy_log_lines = refl

key_init :
    verifier_init ⦃h = toy⦄ (record (initial_cli.opts) { pubkey_path = some (codes "key") })
    ≡ some key_verifier
unfolding verifier_init load_public_key pubkey_fingerprint key_is_supported sha256_of
key_init = refl

-- The last state and what is printed.
abbrev good_end : Ended
good_end = record {
  code = 0;
  out = codes "PASS: 1 messages verified, 0 signature blocks\n";
  err = [];
  verifier = some (record (read_verifier) { state = done });
}

log_read : run_lines key_verifier (file_lines toy_log) 1 ≡ ok read_verifier
log_read = ap (λ ls. run_lines key_verifier ls 1) toy_log_lines ∙ short_log_read

good_run :
    run_main (codes "verify") (opt_publickey (codes "key") ∷ []) (some (codes "log")) ≡ ok good_end
unfolding run_main parse_options one_anchor crl_allowed verifier_finalize exit_code report
    print_ulong digits unsigned_count verifier_passed inc64
good_run = rw key_init (rw log_read refl)

run_main_sound_example :
    (parse_options initial_cli (opt_publickey (codes "key") ∷ []) ≡ exits 0)
    ⊎ Verified (opt_publickey (codes "key") ∷ []) (some (codes "log"))
run_main_sound_example =
    run_main_sound toy-IsDigest (codes "verify") (opt_publickey (codes "key") ∷ [])
      (some (codes "log")) good_run refl
