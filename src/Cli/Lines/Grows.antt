-- ===== src/Cli/Lines/Grows.antt =====
-- A log only adds errors, and never more than there is room for.
use mathlib.Core.Path.{subst}
use mmhashchainsigs.Base.{
  Bytes, List, Res, [], ap, arith, failed, fault, inc64, ok, refl, ℕ, ◌∷◌, ◌≡◌,
}
use mmhashchainsigs.Cli.Lines.{chomp, run_lines}
use mmhashchainsigs.Crypto.Host.{Host}
use mmhashchainsigs.Verifier.Errors.{VerifyIssue}
use mmhashchainsigs.Verifier.Handlers.{Outcome, aborted, returned}
use mmhashchainsigs.Verifier.Handlers.Grows.{Extends, Extends-refl, Extends-trans}
use mmhashchainsigs.Verifier.Line.{process_line}
use mmhashchainsigs.Verifier.Line.Grows.{LineGrows, process_line-LineGrows}
use mmhashchainsigs.Verifier.State.{Verifier}

module _ ⦃h : Host⦄ where
  -- The loop of `main`, for each result of a line.
  unfoldable pub loop_step : Res (Outcome Verifier) → List Bytes → ℕ → Res Verifier
  loop_step r ls line = elim r [
    | ok (returned w) ↦ run_lines w ls (inc64 line)
    | ok (aborted w) ↦ ok w
    | failed ↦ failed
    | fault ↦ fault
  ]

  abbrev pub result_of : Verifier → Res Verifier → Verifier
  result_of v (ok w) = w
  result_of v _ = v

  -- The rest of a log behind one line, given what the rest adds.
  loop_step-Extends :
      {es : List (ℕ × VerifyIssue)} (r : Res (Outcome Verifier)) (ls : List Bytes) (line : ℕ)
      {w : Verifier}
      → LineGrows es r
      → ((u : Verifier) → run_lines u ls (inc64 line) ≡ ok w → Extends u.errors w.errors)
      → loop_step r ls line ≡ ok w
      → Extends es w.errors
  unfolding loop_step
  loop_step-Extends failed ls line g rest e = absurd (ground arith)
  loop_step-Extends fault ls line g rest e = absurd (ground arith)
  loop_step-Extends {es} (ok (aborted u)) ls line g rest e =
      subst (λ (x : Verifier). Extends es x.errors) (ap (result_of u) e)
        (g.grows (aborted u) refl).extends
  loop_step-Extends (ok (returned u)) ls line g rest e =
      Extends-trans (g.grows (returned u) refl).extends (rest u e)

  -- Whatever the lines hold, a log keeps the errors in front of those that it adds, and leaves no
  -- more than 64 of them if there were no more before.
  pub run_lines-Extends :
      (v : Verifier) (ls : List Bytes) (line : ℕ) {w : Verifier}
      → run_lines v ls line ≡ ok w
      → Extends v.errors w.errors
  unfolding run_lines loop_step
  run_lines-Extends v [] line {w} e =
      subst (λ (x : Verifier). Extends v.errors x.errors) (ap (result_of v) e)
        (Extends-refl v.errors)
  run_lines-Extends v (l ∷ ls) line e =
      loop_step-Extends (process_line v ((chomp l).0) ((chomp l).1) line) ls line
        (process_line-LineGrows line v ((chomp l).0) ((chomp l).1))
        (λ u e'. run_lines-Extends u ls (inc64 line) e') e
