-- ===== src/Cli/Codes.antt =====
-- The exit codes of the whole program, and what it writes with each.
use mmhashchainsigs.Base.{Bytes, List, Option, Res, [], ok, some, ℕ, ◌≡◌, ◌≢◌, ◌⊎◌}
use mmhashchainsigs.Cli.{
  CliOption, CliState, Ended, Parsed, exits, initial_cli, parse_options, settings,
}
use mmhashchainsigs.Cli.Report.Codes.{graded}
use mmhashchainsigs.Cli.Lines.{file_lines, run_lines}
use mmhashchainsigs.Crypto.Host.{Host}
use mmhashchainsigs.Verifier.State.{Verifier, verifier_finalize, verifier_init}

module _ ⦃h : Host⦄ where
  -- A log that was read: the settings, the contents of the log, the verifier that verifier_init
  -- gives and the one behind the last line that was read.
  pub record ReadLog (options : List CliOption) (path : Option Bytes) (w : Verifier) : Type 0 where
    pub chosen : CliState
    pub parsed : parse_options initial_cli options ≡ settings chosen
    pub name : Bytes
    pub has_name : path ≡ some name
    pub log : Bytes
    pub contents : h.read_file name ≡ some log
    pub start : Verifier
    pub started : verifier_init chosen.opts ≡ some start
    pub read : run_lines start (file_lines log) 1 ≡ ok w

  -- The program ends without a log, with a text on the error stream, or behind one, with a report
  -- on the errors that verifier_finalize leaves.
  pub data Ending (options : List CliOption) (path : Option Bytes) (x : Ended) : Type 0 where
    unread :
        x.out ≡ []
        → ((x.code ≡ 0) × (parse_options initial_cli options ≡ exits 0)) ⊎ (x.code ≡ 2)
        → Ending options path x
    read_through :
        (w : Verifier)
        → ReadLog options path w
        → x.err ≡ []
        → (((verifier_finalize w).errors ≡ []) × (x.code ≡ 0))
          ⊎ (((verifier_finalize w).errors ≢ [])
              × (x.code ≡ graded ((verifier_finalize w).errors) 1))
        → Ending options path x

  module _ (options : List CliOption) (path : Option Bytes) where
    record AllEnding (r : Res Ended) : Type 0 where
      each : (x : Ended) → r ≡ ok x → Ending options path x

  abbrev code_of : Parsed → ℕ
  code_of (exits n) = n
  code_of (settings c) = 0
