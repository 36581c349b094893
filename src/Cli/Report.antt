-- ===== src/Cli/Report.antt =====
-- The report that `main` prints, and its exit code.
pub mod Codes
use mmhashchainsigs.Base.{
  Bool, Bytes, List, [], codes, false, if◌then◌else◌, length, ltb, none, not, some, strip_prefix,
  sub64, true, ℕ, ◌&&◌, ◌++◌, ◌-◌, ◌||◌, ◌∷◌,
}
use mmhashchainsigs.Crypto.Host.{Host}
use mmhashchainsigs.Format.Number.{print_ulong}
use mmhashchainsigs.Verifier.Errors.{VerifyIssue, message}
use mmhashchainsigs.Verifier.State.{Verifier, verifier_passed}

-- `strstr(s, t) != NULL`, for a text that is not empty.
unfoldable pub contains : Bytes → Bytes → Bool
contains [] t = false
contains (c ∷ cs) t =
    let later = contains cs t in elim (strip_prefix t (c ∷ cs)) [ some rest ↦ true | none ↦ later ]

-- The loop over the messages, with the code so far.
unfoldable category : List (ℕ × VerifyIssue) → ℕ → ℕ
category [] code = code
category ((line, e) ∷ es) code =
    let rest = category es (
      if contains (message e) (codes "certificate")
        || contains (message e) (codes "chain validation")
      then 4
      else code) in
    if contains (message e) (codes "fingerprint mismatch") then 3 else rest

-- One error, with its line where it has one.
unfoldable error_text : ℕ × VerifyIssue → Bytes
error_text (line, e) =
    if ltb 0 line
    then codes "  line " ++ print_ulong line ++ codes ": " ++ message e ++ codes "\n"
    else codes "  " ++ message e ++ codes "\n"

unfoldable error_texts : List (ℕ × VerifyIssue) → Bytes
unfolding error_text
error_texts [] = []
error_texts (e ∷ es) = error_text e ++ error_texts es

module _ ⦃h : Host⦄ where
  unfoldable pub verdict_text : Verifier → Bytes
  unfolding error_texts
  verdict_text v =
      if verifier_passed v
      then codes "PASS: "
        ++ print_ulong v.msg_count
        ++ codes " messages verified, "
        ++ print_ulong v.sig_count
        ++ codes " signature blocks\n"
      else codes "FAIL: "
        ++ print_ulong (length v.errors)
        ++ codes " error(s) detected\n"
        ++ error_texts v.errors

  -- The messages behind the last signature; the difference is one of `uint64_t`.
  unfoldable tail_count : Verifier → ℕ
  tail_count v = sub64 (if ltb 0 v.next_seq then v.next_seq - 1 else 0) v.last_signed_seq

  unfoldable pub details : Verifier → Bytes
  unfolding tail_count
  details v =
      codes "\nDetails:\n"
      ++ codes "  Messages:         "
      ++ print_ulong v.msg_count
      ++ codes "\n  Signature blocks: "
      ++ print_ulong v.sig_count
      ++ codes "\n  Last signed seq:  "
      ++ print_ulong v.last_signed_seq
      ++ codes "\n"
      ++ (if ltb 0 (tail_count v)
          then codes "  Unsigned tail:    " ++ print_ulong (tail_count v) ++ codes " messages\n"
          else [])

  -- What is printed, by the options verbose and quiet.
  unfoldable pub report : Bool → Bool → Verifier → Bytes
  unfolding verdict_text details
  report verbose quiet v =
      (if quiet then [] else verdict_text v) ++ (if verbose && not quiet then details v else [])

  unfoldable pub exit_code : Verifier → ℕ
  unfolding category
  exit_code v = if verifier_passed v then 0 else category v.errors 1
