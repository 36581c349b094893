-- ===== src/Cli/Lines/Trace.antt =====
-- What it means that a log has been read without an error: each of its lines has been read, and
-- makes a step of the chain.
use mathlib.Core.Path.{subst}
use mmhashchainsigs.Base.{
  Bytes, List, Res, [], ap, arith, failed, false, fault, inc64, inl, inr, ok, refl, ℕ, ◌∙◌, ◌∷◌,
  ◌≡◌,
}
use mmhashchainsigs.Cli.Lines.{chomp, run_lines}
use mmhashchainsigs.Cli.Lines.Grows.{loop_step, result_of, run_lines-Extends}
use mmhashchainsigs.Crypto.Alg.{HashAlg}
use mmhashchainsigs.Crypto.Hash.Laws.{IsDigest}
use mmhashchainsigs.Crypto.Host.{Host}
use mmhashchainsigs.Verifier.Entry.{Keyed, Step, installed, kept}
use mmhashchainsigs.Verifier.Handlers.{Outcome, aborted, returned}
use mmhashchainsigs.Verifier.Handlers.Grows.{Extends-nil}
use mmhashchainsigs.Verifier.Handlers.StepsCert.{IsReady}
use mmhashchainsigs.Verifier.Line.{is_over, process_line}
use mmhashchainsigs.Verifier.Line.Sound.{OkClean, ReadLine, process_line_sound}
use mmhashchainsigs.Verifier.State.{Verifier}

module _ ⦃h : Host⦄ where
  -- The verifier has read the lines one after the other.
  pub data Trace : Verifier → List Bytes → Verifier → Type 0 where
    no_lines : {v : Verifier} → Trace v [] v
    one_line :
        {v u w : Verifier} {l : Bytes} {ls : List Bytes}
        → ReadLine v ((chomp l).0) ((chomp l).1) u
        → Trace u ls w
        → Trace v (l ∷ ls) w

  -- The messages of the lines.
  unfoldable pub payloads : {v w : Verifier} {ls : List Bytes} → Trace v ls w → List Bytes
  payloads no_lines = []
  payloads (one_line r t) = r.payload ∷ payloads t

  same_errors : (u w : Verifier) → ok u ≡ ok w → w.errors ≡ [] → u.errors ≡ []
  same_errors u w e c = ap (λ (r : Res Verifier). (result_of u r).errors) e ∙ c

  Step-IsReady :
      {v w : Verifier} {der payload : Bytes} → Step v der payload w → IsReady v → IsReady w
  Step-IsReady {v} {w} {der} s r = by_keys s.keys r
    where
      by_keys : Keyed v der w → IsReady v → IsReady w
      by_keys (kept k b) (inl e) = inl (b ∙ e)
      by_keys (kept k b) (inr ctx) = inr ctx
      by_keys (installed c) r = inl c.held

  module _ {hash : HashAlg → Bytes → Bytes} (d : IsDigest hash) where
    -- The rest of a log behind one line, given that the rest is sound.
    loop_sound :
        (v : Verifier) (l : Bytes) (ls : List Bytes) (line : ℕ) (r : Res (Outcome Verifier))
        {w : Verifier}
        → OkClean (λ u. (v.errors ≡ []) × ReadLine v ((chomp l).0) ((chomp l).1) u) r
        → ((u : Verifier)
            → IsReady u
            → is_over u.state ≡ false
            → run_lines u ls (inc64 line) ≡ ok w
            → Trace u ls w)
        → IsReady v
        → loop_step r ls line ≡ ok w
        → w.errors ≡ []
        → Trace v (l ∷ ls) w
    unfolding loop_step is_over
    loop_sound v l ls line failed s rest k e c = absurd (ground arith)
    loop_sound v l ls line fault s rest k e c = absurd (ground arith)
    loop_sound v l ls line (ok (aborted u)) {w} s rest k e c =
        absurd ((s.clean (aborted u) refl).given_up u refl (same_errors u w e c))
    loop_sound v l ls line (ok (returned u)) {w} s rest k e c =
        let (none_before, read) =
          (s.clean (returned u) refl).taken u refl
            (Extends-nil u.errors w.errors (run_lines-Extends u ls (inc64 line) e) c) in
        one_line read (rest u (Step-IsReady read.step k) (rw read.step.in_segment refl) e)

    -- If a log is read to the end with no error, by a verifier that has not given up and holds a
    -- key, or on a host whose X509_STORE_CTX_new gives a context, then every line has been read: it
    -- is an element and a message, and the element has the number that is expected and the chain
    -- hash that is computed over the message. An INIT opens a segment with number 1, a plain
    -- element or a CONTINUE goes on with it, and a SIG goes on with it and carries a signature of
    -- this hash, over the range behind the last one, that the key accepts. The line keeps the
    -- verifier's key or installs that of its certificate, which the CA bundle trusts. The digests
    -- are total and have their documented width.
    pub run_lines_sound :
        (v : Verifier) (ls : List Bytes) (line : ℕ) {w : Verifier}
        → IsReady v
        → is_over v.state ≡ false
        → run_lines v ls line ≡ ok w
        → w.errors ≡ []
        → Trace v ls w
    unfolding run_lines loop_step
    run_lines_sound v [] line {w} k on e c =
        subst (λ (x : Verifier). Trace v [] x) (ap (result_of v) e) no_lines
    run_lines_sound v (l ∷ ls) line k on e c =
        loop_sound v l ls line (process_line v ((chomp l).0) ((chomp l).1) line)
          (process_line_sound d line v ((chomp l).0) ((chomp l).1) k on)
          (λ u k' on' e'. run_lines_sound u ls (inc64 line) k' on' e' c) k e c
