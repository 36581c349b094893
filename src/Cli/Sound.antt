-- ===== src/Cli/Sound.antt =====
-- What the exit code 0 of `main` promises.
use mmhashchainsigs.Base.{
  Bool-cases, Bytes, List, Option, [], false, inl, inr, ok, refl, some, true, ◌≡◌, ◌≢◌, ◌⊎◌,
}
use mmhashchainsigs.Cli.{
  CliOption, CliState, Ended, exits, initial_cli, one_anchor, parse_options, run_main, settings,
}
use mmhashchainsigs.Cli.Exit.{finalize_sound, run_parsed}
use mmhashchainsigs.Cli.Lines.{file_lines, run_lines}
use mmhashchainsigs.Cli.Lines.Anchor.{IsAnchored, Trace-IsAnchored}
use mmhashchainsigs.Cli.Lines.Trace.{Trace, run_lines_sound}
use mmhashchainsigs.Crypto.Alg.{HashAlg}
use mmhashchainsigs.Crypto.Hash.Laws.{IsDigest}
use mmhashchainsigs.Crypto.Host.{Host}
use mmhashchainsigs.Verifier.Handlers.StepsCert.{IsReady}
use mmhashchainsigs.Verifier.Line.{is_over}
use mmhashchainsigs.Verifier.State.{
  Verifier, VerifierOpts, expect_init, unsigned_count, verifier_init,
}
use mmhashchainsigs.Verifier.State.Start.{Started, verifier_init-Started}

module _ ⦃h : Host⦄ where
  -- A log that was verified: the settings and the verifier that they give, the contents of the log,
  -- and the verifier behind the last line. No error is recorded, the log is not empty, and in
  -- strict mode no message is behind the last signature. Every line has been read as a step of the
  -- chain, and the key is the anchor's or that of a certificate which the CA bundle trusts, unless
  -- the anchor is a CA bundle and `X509_STORE_CTX_new` gives no context.
  pub record Verified (options : List CliOption) (log_path : Option Bytes) : Type 0 where
    pub chosen : CliState
    pub parsed : parse_options initial_cli options ≡ settings chosen
    pub one : one_anchor (chosen.opts) ≡ true
    pub name : Bytes
    pub has_name : log_path ≡ some name
    pub log : Bytes
    pub contents : h.read_file name ≡ some log
    pub start : Verifier
    pub started : verifier_init (chosen.opts) ≡ some start
    pub last : Verifier
    pub read : run_lines start (file_lines log) 1 ≡ ok last
    pub clean : last.errors ≡ []
    pub not_empty : last.state ≢ expect_init
    pub all_signed : (last.strict ≡ false) ⊎ (unsigned_count last ≡ 0)
    pub steps :
        (Trace start (file_lines log) last × IsAnchored start last)
        ⊎ ((bundle : Bytes) × (chosen.opts.ca_bundle_path ≡ some bundle)
            × (h.new_store_ctx ≡ false))

  module _ {hash : HashAlg → Bytes → Bytes} (d : IsDigest hash) where
    traced :
        (o : VerifierOpts) (v w : Verifier) (ls : List Bytes)
        → Started o v
        → run_lines v ls 1 ≡ ok w
        → w.errors ≡ []
        → IsReady v
        → Trace v ls w × IsAnchored v w
    unfolding is_over
    traced o v w ls s r c k =
        let t = run_lines_sound d v ls 1 k (rw s.at_start refl) r c in (t, Trace-IsAnchored t)

    anchored :
        (o : VerifierOpts) (v w : Verifier) (ls : List Bytes)
        → Started o v
        → run_lines v ls 1 ≡ ok w
        → w.errors ≡ []
        → (Trace v ls w × IsAnchored v w)
          ⊎ ((bundle : Bytes) × (o.ca_bundle_path ≡ some bundle) × (h.new_store_ctx ≡ false))
    anchored o v w ls s r c = elim s.anchor [
      | inl k ↦ inl (traced o v w ls s r c (inl k))
      | inr (bundle, given) ↦ elim (Bool-cases h.new_store_ctx) [
        | inl ctx ↦ inl (traced o v w ls s r c (inr ctx))
        | inr no_ctx ↦ inr (bundle, given, no_ctx)
      ]
    ]

    -- If main ends with 0, it has printed its help, or it has verified the log: exactly one trust
    -- anchor was given, the log was read from the verifier that it gives and no error is left
    -- behind the last line, the log is not empty, and in strict mode no message is behind the last
    -- signature. Every line of the log has then been read as a step of the chain: its element has
    -- the type of this step (an INIT opens a chain with number 1, a plain element or a CONTINUE
    -- goes on with it, and a SIG goes on with it and is signed), the next number, and the chain
    -- hash that is computed, and the range and the signature of a SIG are those that the key
    -- accepts. The key behind the last line is the anchor's or that of a certificate which the CA
    -- bundle trusts. This holds unless the anchor is a CA bundle and X509_STORE_CTX_new gives no
    -- context. The digests are total and have their documented width.
    pub run_main_sound :
        (prog : Bytes) (options : List CliOption) (log_path : Option Bytes) {x : Ended}
        → run_main prog options log_path ≡ ok x
        → x.code ≡ 0
        → (parse_options initial_cli options ≡ exits 0) ⊎ Verified options log_path
    unfolding run_main
    run_main_sound prog options log_path e z =
        elim (run_parsed prog (parse_options initial_cli options) log_path e z) [
          | inl help ↦ inl help
          | inr (c, w, parsed, one, r) ↦
              let (clean, not_empty, signed) = finalize_sound w r.clean in
              inr (record {
                chosen = c;
                parsed = parsed;
                one = one;
                name = r.name;
                has_name = r.has_name;
                log = r.log;
                contents = r.contents;
                start = r.start;
                started = r.started;
                last = w;
                read = r.read;
                clean = clean;
                not_empty = not_empty;
                all_signed = signed;
                steps =
                    anchored c.opts r.start w (file_lines r.log)
                      (verifier_init-Started c.opts r.started) r.read clean;
              })
        ]
