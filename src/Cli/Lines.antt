-- ===== src/Cli/Lines.antt =====
-- The reading loop of `main`: `getline`, the trimmed end of a line, and `verifier_process_line`.
pub mod Trim
pub mod Split
pub mod Grows
pub mod Keeps
pub mod Trace
pub mod Anchor
use mmhashchainsigs.Base.{
  Bool, Bytes, List, Res, [], failed, fault, if◌then◌else◌, inc64, ok, ℕ, ◌==◌, ◌||◌, ◌∷◌,
}
use mmhashchainsigs.Crypto.Host.{Host}
use mmhashchainsigs.Verifier.Handlers.{aborted, returned}
use mmhashchainsigs.Verifier.Line.{process_line}
use mmhashchainsigs.Verifier.State.{Verifier}

cons_line : ℕ → List Bytes → List Bytes
cons_line c [] = (c ∷ []) ∷ []
cons_line c (l ∷ ls) = (c ∷ l) ∷ ls

-- What `getline` gives, call by call: each line with its newline.
unfoldable pub file_lines : Bytes → List Bytes
unfolding cons_line
file_lines [] = []
file_lines (c ∷ cs) =
    let rest = file_lines cs in if c == b'\n' then (c ∷ []) ∷ rest else cons_line c rest

abbrev is_eol : ℕ → Bool
is_eol c = c == b'\n' || c == b'\r'

trim_onto : ℕ → Bytes × ℕ → Bytes × ℕ
trim_onto c ([], beyond) = if is_eol c then ([], c) else (c ∷ [], beyond)
trim_onto c (d ∷ ds, beyond) = (c ∷ d ∷ ds, beyond)

-- The line without the newlines and carriage returns at its end, and the byte that then stands
-- behind it: the first one removed, or the NUL of `getline`.
unfoldable pub chomp : Bytes → Bytes × ℕ
unfolding trim_onto
chomp [] = ([], 0)
chomp (c ∷ cs) = trim_onto c (chomp cs)

module _ ⦃h : Host⦄ where
  -- The loop ends at the first line that returns -1.
  unfoldable pub run_lines : Verifier → List Bytes → ℕ → Res Verifier
  run_lines v [] line_num = ok v
  run_lines v (l ∷ ls) line_num =
      let (line, beyond) = chomp l in
      elim (process_line v line beyond line_num) [
        | ok (returned w) ↦ run_lines w ls (inc64 line_num)
        | ok (aborted w) ↦ ok w
        | failed ↦ failed
        | fault ↦ fault
      ]
