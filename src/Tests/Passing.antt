-- ===== src/Tests/Passing.antt =====
-- The theorems on logs that pass, at a log of one line.
use mmhashchainsigs.Base.{
  Bool, Bytes, List, [], ap, arith, codes, false, inl, inr, ok, refl, some, true, ℕ, ◌++◌, ◌∙◌, ◌∷◌,
  ◌≡◌, ◌⊎◌,
}
use mmhashchainsigs.Cli.Lines.{run_lines}
use mmhashchainsigs.Cli.Lines.Grows.{run_lines-Extends}
use mmhashchainsigs.Cli.Lines.Trace.{Trace, payloads, run_lines_sound}
use mmhashchainsigs.Crypto.Alg.{hash_len, sha256}
use mmhashchainsigs.Crypto.Hash.{chain_init_hash, chain_iv}
use mmhashchainsigs.Format.Element.{opening_params, sd_element}
use mmhashchainsigs.Format.Element.Clean.{opening_params-IsClean}
use mmhashchainsigs.Format.Element.Ids.{sd_prefix}
use mmhashchainsigs.Format.Parse.{parse_sd}
use mmhashchainsigs.Format.Parse.RoundTrip.{parse_sd-opening}
use mmhashchainsigs.HashChain.Binding.{Collision}
use mmhashchainsigs.HashChain.Ends.{chain_texts}
use mmhashchainsigs.Pipeline.Run.{run_cons}
use mmhashchainsigs.Pipeline.Segments.{LastSegment}
use mmhashchainsigs.Pipeline.Tamper.{passing_logs_agree}
use mmhashchainsigs.Tests.Logs.{one-IsStorable}
use mmhashchainsigs.Tests.States.{first_hash, first_hashed, first_init, first_width}
use mmhashchainsigs.Tests.Texts.{fp_width, some_fp}
use mmhashchainsigs.Tests.Toy.{toy, toy_hash, toy_key}
use mmhashchainsigs.Tests.ToyLaws.{toy-IsDigest}
use mmhashchainsigs.Verifier.Handlers.{returned}
use mmhashchainsigs.Verifier.Handlers.Accept.{advanced, handle_sd_init-first, opened}
use mmhashchainsigs.Verifier.Handlers.Grows.{Extends}
use mmhashchainsigs.Verifier.Line.{is_over, process_line}
use mmhashchainsigs.Verifier.Line.Element.{process_line-init}
use mmhashchainsigs.Verifier.State.{Verifier, fresh}

abbrev pub first_text : Bytes
first_text = sd_element sd_prefix (opening_params (codes "I") 1 first_hash some_fp)

abbrev pub short_log : List Bytes
short_log = (first_text ++ (codes "one" ++ b'\n' ∷ [])) ∷ []

abbrev pub key_verifier : Verifier ⦃h = toy⦄
key_verifier = record (fresh ⦃h = toy⦄ false) {
  pubkey = some tt;
  pubkey_fp = toy_hash sha256 toy_key;
  have_pubkey = true;
}

abbrev pub read_verifier : Verifier ⦃h = toy⦄
read_verifier =
    advanced ⦃h = toy⦄ (opened ⦃h = toy⦄ sha256 (toy_hash sha256 chain_iv) key_verifier) first_hash

first_init_parsed : parse_sd ⦃h = toy⦄ first_text ≡ ok first_init
unfolding hash_len
first_init_parsed =
    parse_sd-opening ⦃h = toy⦄ sha256 1 first_hash (omega arith) first_width
      (toy-IsDigest.hash_bytes sha256 _) b'I' some_fp (omega arith) fp_width
      (toy-IsDigest.hash_bytes sha256 toy_key)

abbrev pub in_mode : Bool → Verifier ⦃h = toy⦄ → Verifier ⦃h = toy⦄
in_mode strict v = record v { strict = strict }

pub first_line :
    (strict : Bool) (beyond : ℕ)
    → process_line ⦃h = toy⦄ (in_mode strict key_verifier) (first_text ++ codes "one") beyond 1
      ≡ ok (returned (in_mode strict read_verifier))
unfolding hash_len chain_init_hash
first_line strict beyond =
    process_line-init ⦃h = toy⦄ (in_mode strict key_verifier)
      (opening_params (codes "I") 1 first_hash some_fp) first_init (codes "one") beyond 1
      (opening_params-IsClean 1 first_hash (toy-IsDigest.hash_bytes sha256 _) (codes "I") some_fp
        (omega arith) (toy-IsDigest.hash_bytes sha256 toy_key))
      first_init_parsed one-IsStorable.no_cert one-IsStorable.short (inr (refl, refl)) refl
    ∙ ap ok (
        handle_sd_init-first ⦃h = toy⦄ first_init (codes "one") 1 sha256 (toy_hash sha256 chain_iv)
          first_width refl refl first_hashed [] (in_mode strict key_verifier) refl refl refl refl
          refl refl)

pub short_log_read : run_lines ⦃h = toy⦄ key_verifier short_log 1 ≡ ok read_verifier
unfolding run_lines
short_log_read =
    run_cons ⦃h = toy⦄ key_verifier read_verifier first_text (codes "one") [] 1 one-IsStorable
      (first_line false) refl

run_lines_sound_example : Trace ⦃h = toy⦄ key_verifier short_log read_verifier
unfolding is_over
run_lines_sound_example =
    run_lines_sound ⦃h = toy⦄ toy-IsDigest key_verifier short_log 1 (inl refl) refl short_log_read
      refl

run_lines-Extends_example : Extends (key_verifier.errors) (read_verifier.errors)
run_lines-Extends_example = run_lines-Extends ⦃h = toy⦄ key_verifier short_log 1 short_log_read

passing_logs_agree_example :
    (t : Trace ⦃h = toy⦄ key_verifier short_log read_verifier) × (t' : Trace ⦃h = toy⦄ key_verifier
      short_log read_verifier)
    × (s : LastSegment ⦃h = toy⦄ (payloads ⦃h = toy⦄ t) read_verifier) × (s' : LastSegment ⦃h = toy⦄
        (payloads ⦃h = toy⦄ t')
        read_verifier)
    × ((s.tail ≡ s'.tail)
        ⊎ Collision toy_hash sha256
            (chain_texts ⦃h = toy⦄ toy_hash sha256 s.tail)
            (chain_texts ⦃h = toy⦄ toy_hash sha256 s'.tail))
passing_logs_agree_example =
    passing_logs_agree ⦃h = toy⦄ toy-IsDigest key_verifier key_verifier short_log short_log
      (inl refl, refl) (inl refl, refl) (omega arith, omega arith) (omega arith, omega arith)
      (short_log_read, refl) (short_log_read, refl) refl refl refl
