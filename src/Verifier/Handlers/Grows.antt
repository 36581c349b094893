-- ===== src/Verifier/Handlers/Grows.antt =====
-- Errors are only added, and never more than the 64 that the source has room for.
use mmhashchainsigs.Base.{
  Bool, Bool-cases, Bytes, List, Option-cases, [], ap, append-nil, append_assoc, arith, bytes_eq,
  false, if◌then◌else◌, inl, inr, leb, length, length-append, not, refl, sym, true, ℕ, ◌++◌, ◌==◌,
  ◌∙◌, ◌∷◌, ◌≡◌, ◌≤◌,
}
use mmhashchainsigs.Crypto.Hash.{hash_chain}
use mmhashchainsigs.Crypto.Host.{Host}
use mmhashchainsigs.Format.Parse.{SdRecord}
use mmhashchainsigs.Verifier.Errors.{VerifyIssue, hash_len_changed, hash_mismatch, seq_mismatch}
use mmhashchainsigs.Verifier.Handlers.{
  Outcome, aborted, broken_off, compare_hash, returned, verify_sd_msg_hash,
}
use mmhashchainsigs.Verifier.Handlers.Sound.{hash_part, seq_checked, verify_lem}
use mmhashchainsigs.Verifier.State.{Verifier, add_error, max_errors}

-- The second list begins with the first, and has room where the first has.
pub record Extends (es fs : List (ℕ × VerifyIssue)) : Type 0 where
  pub more : List (ℕ × VerifyIssue)
  pub appended : fs ≡ es ++ more
  pub bounded : length es ≤ max_errors → length fs ≤ max_errors

pub Extends-refl : (es : List (ℕ × VerifyIssue)) → Extends es es
Extends-refl es = record { more = []; appended = sym (append-nil es); bounded = λ b. b }

pub Extends-trans :
    {es fs gs : List (ℕ × VerifyIssue)} → Extends es fs → Extends fs gs → Extends es gs
Extends-trans {es} e f = record {
  more = e.more ++ f.more;
  appended = f.appended ∙ ap (λ l. l ++ f.more) e.appended ∙ append_assoc es e.more f.more;
  bounded = λ b. f.bounded (e.bounded b);
}

-- A list without errors extends only one without.
pub Extends-nil : (es fs : List (ℕ × VerifyIssue)) → Extends es fs → fs ≡ [] → es ≡ []
Extends-nil [] fs e c = refl
Extends-nil (x ∷ es) fs e c = absurd (ground (arith, e.appended))

module _ ⦃h : Host⦄ where
  abbrev pub left_state : Outcome Verifier → Verifier
  left_state (returned w) = w
  left_state (aborted w) = w

  -- What a handler leaves of a list of errors.
  pub record Grows (es : List (ℕ × VerifyIssue)) (o : Outcome Verifier) : Type 0 where
    pub extends : Extends es (left_state o).errors

  pub add_error-Extends :
      (v : Verifier) (line : ℕ) (e : VerifyIssue) → Extends v.errors ((add_error v line e).errors)
  unfolding add_error
  add_error-Extends v line e = elim (Bool-cases (leb max_errors (length v.errors))) [
    | inl full ↦ rw full (Extends-refl v.errors)
    | inr room ↦ rw room (record {
      more = (line, e) ∷ [];
      appended = refl;
      bounded = λ b. ground (arith, length-append v.errors ((line, e) ∷ []));
    })
  ]

  module _ {es : List (ℕ × VerifyIssue)} where
    pub if-Extends :
        (b : Bool) (x y : Verifier)
        → Extends es x.errors
        → Extends es y.errors
        → Extends es (if b then x else y).errors
    if-Extends true x y f g = f
    if-Extends false x y f g = g

    pub if-Grows :
        (b : Bool) {x y : Outcome Verifier}
        → Grows es x
        → Grows es y
        → Grows es (if b then x else y)
    if-Grows true f g = f
    if-Grows false f g = g

    -- A handler from a state whose errors extend the list.
    pub after-Grows :
        {fs : List (ℕ × VerifyIssue)} (o : Outcome Verifier)
        → Extends es fs
        → Grows fs o
        → Grows es o
    after-Grows o e g = record { extends = Extends-trans e g.extends }

  module _ (v : Verifier) (line : ℕ) where
    pub broken-Grows : (e : VerifyIssue) → Grows v.errors (broken_off (add_error v line e))
    broken-Grows e = record { extends = add_error-Extends v line e }

    pub reported-Grows : (e : VerifyIssue) → Grows v.errors (returned (add_error v line e))
    reported-Grows e = record { extends = add_error-Extends v line e }

    pub given_up-Grows : (e : VerifyIssue) → Grows v.errors (aborted (add_error v line e))
    given_up-Grows e = record { extends = add_error-Extends v line e }

  module _ (sd : SdRecord) (msg : Bytes) (line : ℕ) where
    hash_part-Grows : (u : Verifier) → Grows u.errors (hash_part sd msg u line)
    unfolding hash_part compare_hash
    hash_part-Grows u =
        if-Grows (not (length sd.chain_hash == u.hash_len))
          (broken-Grows u line (hash_len_changed (length sd.chain_hash) u.hash_len))
          (elim (Option-cases (hash_chain u.hash_alg u.chain_hash u.next_seq msg)) [
            | inl e ↦ rw e (record { extends = Extends-refl u.errors })
            | inr (next, e) ↦ rw e (record {
              extends =
                  if-Extends (bytes_eq next sd.chain_hash) _ _ (Extends-refl u.errors) (
                    add_error-Extends (record u { chain_hash = next }) line (hash_mismatch sd.seq));
            })
          ])

    seq_checked-Extends : (v : Verifier) → Extends v.errors ((seq_checked sd v line).errors)
    unfolding seq_checked
    seq_checked-Extends v =
        if-Extends (sd.seq == v.next_seq) _ _ (Extends-refl v.errors)
          (add_error-Extends v line (seq_mismatch sd.seq v.next_seq))

    pub verify-Grows : (v : Verifier) → Grows v.errors (verify_sd_msg_hash sd msg v line)
    verify-Grows v = rw (verify_lem sd msg v line) (
        after-Grows (hash_part sd msg (seq_checked sd v line) line) (seq_checked-Extends v)
          (hash_part-Grows (seq_checked sd v line)))
