-- ===== src/Cli/Exit.antt =====
-- What the end of `main` says of the log: its exit code and what it prints.
use mmhashchainsigs.Base.{
  Bool, Bytes, Option, Res, [], ap, arith, failed, false, fault, if◌then◌else◌, inl, inr, ltb, none,
  not, ok, refl, some, true, ℕ, ◌&&◌, ◌∙◌, ◌≡◌, ◌≢◌, ◌⊎◌,
}
use mmhashchainsigs.Cli.{
  CliState, Ended, Parsed, crl_allowed, exits, finish, one_anchor, read_log, refused, settings,
  with_path, with_settings, with_verifier,
}
use mmhashchainsigs.Cli.Lines.{file_lines, run_lines}
use mmhashchainsigs.Cli.Report.{exit_code}
use mmhashchainsigs.Cli.Report.Codes.{exit_code-cases}
use mmhashchainsigs.Crypto.Host.{Host}
use mmhashchainsigs.Verifier.Errors.{VerifyIssue, empty_file, unsigned_tail}
use mmhashchainsigs.Verifier.Handlers.Clean.{some-errors}
use mmhashchainsigs.Verifier.State.{
  Verifier, add_error, expect_init, is_expect_init, unsigned_count, verifier_finalize,
  verifier_init,
}

module _ ⦃h : Host⦄ where
  abbrev pub ended_of : Ended → Res Ended → Ended
  ended_of x (ok y) = y
  ended_of x _ = x

  no_error :
      (b : Bool) (v : Verifier) (line : ℕ) (e : VerifyIssue)
      → (if b then add_error v line e else v).errors ≡ []
      → (b ≡ false) × (v.errors ≡ [])
  no_error true v line e none_there = absurd (some-errors v line e none_there)
  no_error false v line e none_there = (refl, none_there)

  finalize_part :
      (b : Bool) (v : Verifier) (n : ℕ)
      → (let w = if b then add_error v 0 empty_file else v in
          if w.strict && ltb 0 n then add_error w 0 (unsigned_tail n) else w).errors
        ≡ []
      → (b ≡ false) × (v.errors ≡ []) × ((v.strict ≡ false) ⊎ (n ≡ 0))
  finalize_part true v n e =
      let (q, c) =
        no_error ((add_error v 0 empty_file).strict && ltb 0 n) (add_error v 0 empty_file) 0
          (unsigned_tail n) e in
      absurd (some-errors v 0 empty_file c)
  finalize_part false v n e =
      let (q, c) = no_error (v.strict && ltb 0 n) v 0 (unsigned_tail n) e in
      (refl, c, ground (arith, q))

  -- What `verifier_finalize` finds.
  pub finalize_sound :
      (w : Verifier)
      → (verifier_finalize w).errors ≡ []
      → (w.errors ≡ []) × (w.state ≢ expect_init) × ((w.strict ≡ false) ⊎ (unsigned_count w ≡ 0))
  unfolding verifier_finalize is_expect_init
  finalize_sound w e =
      let (b, c, s) = finalize_part (is_expect_init w.state) w (unsigned_count w) e in
      (c, (λ x. ground arith), s)

  -- An exit code of zero behind a log means that no error is left.
  finish_sound :
      (c : CliState) (r : Res Verifier) {x : Ended}
      → finish c r ≡ ok x
      → x.code ≡ 0
      → (w : Verifier) × (r ≡ ok w) × ((verifier_finalize w).errors ≡ [])
  unfolding finish
  finish_sound c (ok w) {x} e z =
      let same : exit_code (verifier_finalize w) ≡ 0 =
        ap (λ (r : Res Ended). (ended_of x r).code) e ∙ z in
      elim (exit_code-cases (verifier_finalize w)) [
        | inl (clean, code) ↦ (w, refl, clean)
        | inr (dirty, code) ↦ absurd (ground arith)
      ]
  finish_sound c failed e z = absurd (ground arith)
  finish_sound c fault e z = absurd (ground arith)

  not_two : (err : Bytes) {x : Ended} → ok (refused 2 err) ≡ ok x → x.code ≢ 0
  not_two err {x} e = λ z. omega (arith, ap (λ (r : Res Ended). (ended_of x r).code) e)

  -- The log was read from the verifier of the options to its end, and `verifier_finalize` leaves no
  -- error.
  pub record Read (c : CliState) (path : Option Bytes) (w : Verifier) : Type 0 where
    pub name : Bytes
    pub start : Verifier
    pub log : Bytes
    pub has_name : path ≡ some name
    pub started : verifier_init c.opts ≡ some start
    pub contents : h.read_file name ≡ some log
    pub read : run_lines start (file_lines log) 1 ≡ ok w
    pub clean : (verifier_finalize w).errors ≡ []

  read_log_sound :
      (c : CliState) (name : Bytes) (v : Verifier) (log : Option Bytes) {x : Ended}
      → verifier_init c.opts ≡ some v
      → h.read_file name ≡ log
      → read_log c name v log ≡ ok x
      → x.code ≡ 0
      → (w : Verifier) × Read c (some name) w
  unfolding read_log
  read_log_sound c name v none s f e z = absurd (not_two _ e z)
  read_log_sound c name v (some log) s f e z =
      let (w, r, clean) = finish_sound c _ e z in
      (
        w,
        record {
          name = name;
          start = v;
          log = log;
          has_name = refl;
          started = s;
          contents = f;
          read = r;
          clean = clean;
        },
      )

  with_verifier_sound :
      (c : CliState) (name : Bytes) (v : Option Verifier) {x : Ended}
      → verifier_init c.opts ≡ v
      → with_verifier c name v ≡ ok x
      → x.code ≡ 0
      → (w : Verifier) × Read c (some name) w
  unfolding with_verifier
  with_verifier_sound c name none s e z = absurd (not_two _ e z)
  with_verifier_sound c name (some v) s e z = read_log_sound c name v (h.read_file name) s refl e z

  with_path_sound :
      (prog : Bytes) (c : CliState) (path : Option Bytes) {x : Ended}
      → with_path prog c path ≡ ok x
      → x.code ≡ 0
      → (w : Verifier) × Read c path w
  unfolding with_path
  with_path_sound prog c none e z = absurd (not_two _ e z)
  with_path_sound prog c (some name) e z = with_verifier_sound c name _ refl e z

  accepted_settings :
      (a b : Bool) (no_anchor no_crl : Bytes) (r : Res Ended) {x : Ended}
      → (if not a then ok (refused 2 no_anchor) else if not b then ok (refused 2 no_crl) else r)
        ≡ ok x
      → x.code ≡ 0
      → (a ≡ true) × (r ≡ ok x)
  accepted_settings false b no_anchor no_crl r e z = absurd (not_two _ e z)
  accepted_settings true false no_anchor no_crl r e z = absurd (not_two _ e z)
  accepted_settings true true no_anchor no_crl r e z = (refl, e)

  pub run_parsed :
      (prog : Bytes) (p : Parsed) (path : Option Bytes) {x : Ended}
      → with_settings prog p path ≡ ok x
      → x.code ≡ 0
      → (p ≡ exits 0)
        ⊎ ((c : CliState) × (w : Verifier) × (p ≡ settings c)
            × (one_anchor c.opts ≡ true)
            × Read c path w)
  unfolding with_settings
  run_parsed prog (exits code) path {x} e z =
      inl (ap exits (ap (λ (r : Res Ended). (ended_of x r).code) e ∙ z))
  run_parsed prog (settings c) path e z =
      let (one, rest) = accepted_settings (one_anchor c.opts) (crl_allowed c.opts) _ _ _ e z in
      let (w, read) = with_path_sound prog c path rest z in inr (c, w, refl, one, read)
