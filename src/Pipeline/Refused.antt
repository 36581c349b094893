-- ===== src/Pipeline/Refused.antt =====
-- Lines of an honest worker that leave an error, and what this does to the log.
pub mod Emission
pub mod Inside
pub mod Missing
use mmhashchainsigs.Base.{
  Bool-cases, Bytes, List, Option, Res, [], ap, arith, false, inc64, inl, inr, ok, refl, some, sym,
  true, ℕ, ◌++◌, ◌∙◌, ◌∷◌, ◌≡◌, ◌≢◌,
}
use mmhashchainsigs.Cli.Exit.{finalize_sound}
use mmhashchainsigs.Cli.Lines.{chomp, run_lines}
use mmhashchainsigs.Cli.Lines.Grows.{loop_step, result_of, run_lines-Extends}
use mmhashchainsigs.Crypto.Alg.{HashAlg}
use mmhashchainsigs.Crypto.Hash.Laws.{IsDigest}
use mmhashchainsigs.Crypto.Host.{Host}
use mmhashchainsigs.Format.Parse.{SdRecord}
use mmhashchainsigs.Pipeline.Covered.{passed_errors}
use mmhashchainsigs.Verifier.Handlers.{Outcome, aborted, handle_sd_msg, handle_sd_sig, returned}
use mmhashchainsigs.Verifier.Handlers.Clean.{Clean, left_state}
use mmhashchainsigs.Verifier.Handlers.Grows.{Extends-nil}
use mmhashchainsigs.Verifier.Handlers.Sound.{Agrees, handle_sd_msg_sound, handle_sd_sig_sound}
use mmhashchainsigs.Verifier.Handlers.Steps.{handle_sd_msg-Steps, handle_sd_sig-Steps}
use mmhashchainsigs.Verifier.Line.{process_line}
use mmhashchainsigs.Worker.State.{Active}
use mmhashchainsigs.Verifier.State.{Verifier, verifier_finalize, verifier_passed}

module _ ⦃h : Host⦄ where
  -- A handler that gives up, or returns on a condition that does not hold, leaves an error.
  refuted :
      {P : Verifier → Type 0} (o : Outcome Verifier)
      → Clean P o
      → ((w : Verifier) → o ≡ returned w → w.errors ≡ [] → ⊥)
      → (left_state o).errors ≢ []
  refuted (returned w) c f = f w refl
  refuted (aborted w) c f = c.given_up w refl

  module _ {hash : HashAlg → Bytes → Bytes} (d : IsDigest hash) (sd : SdRecord) (msg : Bytes)
      (v : Verifier) (line : ℕ) where
    -- A record that does not agree with the state leaves an error.
    pub msg_refused :
        sd.sd_type ≡ 0
        → (Agrees sd msg v → ⊥)
        → (left_state (handle_sd_msg sd msg v line)).errors ≢ []
    msg_refused t f =
        refuted (handle_sd_msg sd msg v line) (handle_sd_msg-Steps d sd msg [] line v t)
          (λ w e c. f (handle_sd_msg_sound sd msg v line e c).0)

    pub sig_refused :
        sd.sd_type ≡ b'S'
        → (Agrees sd msg v → ⊥)
        → (left_state (handle_sd_sig sd msg v line)).errors ≢ []
    sig_refused t f =
        refuted (handle_sd_sig sd msg v line) (handle_sd_sig-Steps d sd msg [] line v t)
          (λ w e c. f (handle_sd_sig_sound sd msg v line e c).0)

  -- An error of a line stays, whatever stands behind the line.
  rest_keeps :
      (o : Outcome Verifier) (rest : List Bytes) (line : ℕ) {w : Verifier}
      → (left_state o).errors ≢ []
      → loop_step (ok o) rest line ≡ ok w
      → w.errors ≢ []
  unfolding loop_step
  rest_keeps (returned u) rest line f e =
      λ c. f (Extends-nil u.errors _ (run_lines-Extends u rest (inc64 line) e) c)
  rest_keeps (aborted u) rest line f e =
      λ c. f (ap (λ (r : Res Verifier). (result_of u r).errors) e ∙ c)

  -- A log with such a line does not pass.
  pub run_lines-refused :
      (v : Verifier) (l : Bytes) {text : Bytes} {beyond : ℕ} (rest : List Bytes) (line : ℕ)
      {o : Outcome Verifier} {w : Verifier}
      → chomp l ≡ (text, beyond)
      → process_line v text beyond line ≡ ok o
      → (left_state o).errors ≢ []
      → run_lines v (l ∷ rest) line ≡ ok w
      → verifier_passed (verifier_finalize w) ≡ false
  unfolding run_lines loop_step
  run_lines-refused v l rest line {o} {w} t p f r =
      elim (Bool-cases (verifier_passed (verifier_finalize w))) [
        | inr no_pass ↦ no_pass
        | inl passed ↦ absurd (
            rest_keeps o rest line f (sym (rw (t, run_lines) (rw p refl)) ∙ r)
              (finalize_sound w (passed_errors (verifier_finalize w) passed)).0)
      ]

  pub text_of :
      (b c : Active) (t u : Bytes) → ◌≡◌ {A = Active × Option Bytes} (b, some t) (c, some u) → t ≡ u
  text_of b c t u e = ground arith
