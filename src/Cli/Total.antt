-- ===== src/Cli/Total.antt =====
-- Logs on which the program comes to its end.
use mmhashchainsigs.Base.{All, Bytes, List, Res, [], inc64, ok, refl, true, ℕ, ◌∷◌, ◌≡◌}
use mmhashchainsigs.Cli.Lines.{chomp, run_lines}
use mmhashchainsigs.Cli.Lines.Grows.{loop_step}
use mmhashchainsigs.Crypto.Host.{Host}
use mmhashchainsigs.Format.Codec.Room.{IsBlockDecoder}
use mmhashchainsigs.Format.Element.{cert_der_max}
use mmhashchainsigs.Format.Strip.Room.{line_fits}
use mmhashchainsigs.Verifier.Handlers.{Outcome, aborted, returned}
use mmhashchainsigs.Verifier.Line.{process_line}
use mmhashchainsigs.Verifier.Line.Total.{process_line-total}
use mmhashchainsigs.Verifier.State.{Verifier}

-- Each line, without the newline at its end, is read inside the buffers.
abbrev pub IsContained : List Bytes → Type 0
IsContained ls = All (λ l. line_fits cert_der_max ((chomp l).0) ≡ true) ls

module _ ⦃h : Host⦄ (dec : IsBlockDecoder) where
  loop_step-total :
      (ls : List Bytes) (line : ℕ) (r : Res (Outcome Verifier))
      → ((o : Outcome Verifier) × (r ≡ ok o))
      → ((v : Verifier) → (w : Verifier) × (run_lines v ls (inc64 line) ≡ ok w))
      → (w : Verifier) × (loop_step r ls line ≡ ok w)
  unfolding loop_step
  loop_step-total ls line r (returned v, e) rest = let (w, run) = rest v in (w, rw e run)
  loop_step-total ls line r (aborted v, e) rest = (v, rw e refl)

  pub run_lines-total :
      (ls : List Bytes) (line : ℕ) (v : Verifier)
      → IsContained ls
      → (w : Verifier) × (run_lines v ls line ≡ ok w)
  unfolding run_lines loop_step
  run_lines-total [] line v c = (v, refl)
  run_lines-total (l ∷ ls) line v (c, cs) =
      loop_step-total ls line (process_line v ((chomp l).0) ((chomp l).1) line)
        (process_line-total dec v line ((chomp l).0) ((chomp l).1) c)
        (λ u. run_lines-total ls (inc64 line) u cs)
