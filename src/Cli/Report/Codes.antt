-- ===== src/Cli/Report/Codes.antt =====
-- The exit codes of `main`.
use mmhashchainsigs.Base.{
  List, [], arith, inl, inr, length, refl, ℕ, ◌<◌, ◌∷◌, ◌≡◌, ◌≢◌, ◌⊎◌, Bool, Bytes, codes, false,
  if◌then◌else◌, ◌||◌,
}
use mmhashchainsigs.Cli.Report.{category, exit_code, contains}
use mmhashchainsigs.Crypto.Host.{Host}
use mmhashchainsigs.Verifier.Errors.{VerifyIssue, message}
use mmhashchainsigs.Verifier.State.{Verifier, verifier_passed}

category-cases :
    (es : List (ℕ × VerifyIssue)) (code : ℕ)
    → (code ≡ 1) ⊎ (code ≡ 4)
    → (category es code ≡ 1) ⊎ (category es code ≡ 3) ⊎ (category es code ≡ 4)
unfolding category
category-cases [] code p = ground arith
category-cases ((line, e) ∷ es) code p =
    ground (arith, category-cases es code p, category-cases es 4 (inr refl))

-- Whether some message holds the text.
unfoldable pub is_named : Bytes → List (ℕ × VerifyIssue) → Bool
is_named t [] = false
is_named t ((line, e) ∷ es) = contains (message e) t || is_named t es

-- The code of errors, wherever they stand: 3 where a fingerprint does not match, or else 4 where a
-- certificate or its chain is at fault, or else 1.
abbrev pub graded : List (ℕ × VerifyIssue) → ℕ → ℕ
graded es code =
    if is_named (codes "fingerprint mismatch") es
    then 3
    else if is_named (codes "certificate") es || is_named (codes "chain validation") es
    then 4
    else code

category-graded : (es : List (ℕ × VerifyIssue)) (code : ℕ) → category es code ≡ graded es code
unfolding category is_named
category-graded [] code = refl
category-graded ((line, e) ∷ es) code =
    ground (arith, category-graded es code, category-graded es 4)

List-cases {ℓ} : {A : Type ℓ} (xs : List A) → (xs ≡ []) ⊎ (0 < length xs)
List-cases [] = inl refl
List-cases (x ∷ xs) = inr (omega arith)

module _ ⦃h : Host⦄ where
  -- The exit code of a log is 0 if no error is recorded, and 1, 3 or 4 if one is.
  pub exit_code-cases :
      (v : Verifier)
      → ((v.errors ≡ []) × (exit_code v ≡ 0))
        ⊎ ((v.errors ≢ []) × ((exit_code v ≡ 1) ⊎ (exit_code v ≡ 3) ⊎ (exit_code v ≡ 4)))
  unfolding exit_code verifier_passed
  exit_code-cases v = elim (List-cases v.errors) [
    | inl none_there ↦ inl (none_there, ground arith)
    | inr some_there ↦
        inr ((λ z. ground arith), ground (arith, category-cases v.errors 1 (inl refl)))
  ]

  -- The code as it is graded.
  pub exit_code-graded :
      (v : Verifier)
      → ((v.errors ≡ []) × (exit_code v ≡ 0))
        ⊎ ((v.errors ≢ []) × (exit_code v ≡ graded v.errors 1))
  unfolding exit_code verifier_passed
  exit_code-graded v = elim (List-cases v.errors) [
    | inl none_there ↦ inl (none_there, ground arith)
    | inr some_there ↦ inr ((λ z. ground arith), ground (arith, category-graded v.errors 1))
  ]
