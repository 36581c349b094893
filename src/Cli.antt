-- ===== src/Cli.antt =====
-- src/verify/mmhashchainsigs_verify.c: the command line tool.
pub mod Lines
pub mod Report
pub mod Usage
pub mod Exit
pub mod Sound
pub mod Codes
pub mod Total
use mmhashchainsigs.Verifier.State
use mmhashchainsigs.Base.{
  Bool, Bytes, List, Option, Res, [], failed, false, fault, if◌then◌else◌, none, not, ok, some,
  true, ℕ, ◌&&◌, ◌++◌, ◌+◌, ◌==◌, ◌∷◌,
}
use mmhashchainsigs.Cli.Lines.{file_lines, run_lines}
use mmhashchainsigs.Cli.Report.{exit_code, report}
use mmhashchainsigs.Cli.Usage.{anchor_error, crl_error, init_error, open_error, path_error, usage}
use mmhashchainsigs.Crypto.Host.{Host}
use mmhashchainsigs.Verifier.State.{
  Verifier, VerifierOpts, is_set, verifier_finalize, verifier_init,
}

-- The options that `getopt_long` reports, in order.
pub data CliOption : Type 0 where
  opt_publickey opt_cert opt_ca_bundle opt_crl_file : Bytes → CliOption
  opt_verbose opt_quiet opt_strict opt_help opt_unknown : CliOption

pub record CliState : Type 0 where
  pub opts : VerifierOpts
  pub verbose : Bool
  pub quiet : Bool

abbrev pub initial_cli : CliState
initial_cli = record {
  opts = record {
    pubkey_path = none;
    cert_path = none;
    ca_bundle_path = none;
    crl_file = none;
    strict = false;
  };
  verbose = false;
  quiet = false;
}

-- The settings, or the exit code of an option that ends the program.
pub data Parsed : Type 0 where
  settings : CliState → Parsed
  exits : ℕ → Parsed

unfoldable pub parse_options : CliState → List CliOption → Parsed
parse_options c [] = settings c
parse_options c (opt_publickey p ∷ os) =
    parse_options (record c { opts = record (c.opts) { pubkey_path = some p } }) os
parse_options c (opt_cert p ∷ os) =
    parse_options (record c { opts = record (c.opts) { cert_path = some p } }) os
parse_options c (opt_ca_bundle p ∷ os) =
    parse_options (record c { opts = record (c.opts) { ca_bundle_path = some p } }) os
parse_options c (opt_crl_file p ∷ os) =
    parse_options (record c { opts = record (c.opts) { crl_file = some p } }) os
parse_options c (opt_verbose ∷ os) = parse_options (record c { verbose = true }) os
parse_options c (opt_quiet ∷ os) = parse_options (record c { quiet = true }) os
parse_options c (opt_strict ∷ os) =
    parse_options (record c { opts = record (c.opts) { strict = true } }) os
parse_options c (opt_help ∷ os) = exits 0
parse_options c (opt_unknown ∷ os) = exits 2

unfoldable pub one_anchor : VerifierOpts → Bool
one_anchor o = is_set o.pubkey_path + is_set o.cert_path + is_set o.ca_bundle_path == 1

-- A CRL with a CA bundle only.
unfoldable pub crl_allowed : VerifierOpts → Bool
crl_allowed o = not (is_set o.crl_file == 1 && is_set o.ca_bundle_path == 0)

module _ ⦃h : Host⦄ where
  -- The exit code, what is written to the two streams, and the final state where a log was read.
  pub record Ended : Type 0 where
    pub code : ℕ
    pub out : Bytes
    pub err : Bytes
    pub verifier : Option Verifier

  -- An end before the log is read.
  abbrev pub refused : ℕ → Bytes → Ended
  refused code err = record { code = code; out = []; err = err; verifier = none }

  -- The end behind the last line that was read.
  abbrev pub reported : CliState → Verifier → Ended
  reported c v = record {
    code = exit_code v;
    out = report c.verbose c.quiet v;
    err = [];
    verifier = some v;
  }

  -- Behind the loop over the lines.
  unfoldable finish : CliState → Res Verifier → Res Ended
  finish c (ok w) = ok (reported c (verifier_finalize w))
  finish c failed = failed
  finish c fault = fault

  -- The contents of the log, or none where it cannot be opened.
  unfoldable read_log : CliState → Bytes → Verifier → Option Bytes → Res Ended
  unfolding finish
  read_log c path v none = ok (refused 2 (open_error path (h.open_failure path)))
  read_log c path v (some log) = finish c (run_lines v (file_lines log) 1)

  unfoldable with_verifier : CliState → Bytes → Option Verifier → Res Ended
  unfolding read_log
  with_verifier c path none = ok (refused 2 init_error)
  with_verifier c path (some v) = read_log c path v (h.read_file path)

  unfoldable with_path : Bytes → CliState → Option Bytes → Res Ended
  unfolding with_verifier
  with_path prog c none = ok (refused 2 (path_error ++ usage prog))
  with_path prog c (some path) = with_verifier c path (verifier_init c.opts)

  unfoldable with_settings : Bytes → Parsed → Option Bytes → Res Ended
  unfolding with_path
  with_settings prog (exits code) path = ok (refused code (usage prog))
  with_settings prog (settings c) path =
      if not (one_anchor c.opts)
      then ok (refused 2 (anchor_error ++ usage prog))
      else if not (crl_allowed c.opts)
      then ok (refused 2 crl_error)
      else with_path prog c path

  -- `main`, with `argv[0]`, the options, and the first argument that is no option.
  unfoldable pub run_main : Bytes → List CliOption → Option Bytes → Res Ended
  unfolding with_settings
  run_main prog options log_path = with_settings prog (parse_options initial_cli options) log_path
