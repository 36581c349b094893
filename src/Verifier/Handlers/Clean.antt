-- ===== src/Verifier/Handlers/Clean.antt =====
-- Outcomes without an error: what a handler's returned state then is, and that a handler which
-- gives up has recorded why.
use mathlib.Core.Path.{subst}
use mmhashchainsigs.Base.{
  Bool, Bytes, [], ap, arith, false, if◌then◌else◌, length, not, refl, some, sym, true, ℕ, ◌==◌,
  ◌∙◌, ◌≡◌, ◌≢◌,
}
use mmhashchainsigs.Crypto.Alg.{HashAlg}
use mmhashchainsigs.Crypto.Hash.{hash_chain}
use mmhashchainsigs.Crypto.Hash.Laws.{IsDigest, hash_chain-link, link}
use mmhashchainsigs.Crypto.Host.{Host}
use mmhashchainsigs.Format.Parse.{SdRecord}
use mmhashchainsigs.Verifier.Errors.{VerifyIssue, hash_len_changed}
use mmhashchainsigs.Verifier.Handlers.{
  Outcome, aborted, broken_off, compare_hash, returned, verify_sd_msg_hash,
}
use mmhashchainsigs.Verifier.Handlers.Accept.{advanced}
use mmhashchainsigs.Verifier.Handlers.Sound.{
  Agrees, add_error-some, agreed, compare_hash_sound, hash_part, seq_checked, seq_checked_sound,
  verify_lem,
}
use mmhashchainsigs.Verifier.State.{Verifier, add_error, errored}

module _ ⦃h : Host⦄ where
  -- A returned state without errors has the property, and no state is given up without one.
  pub record Clean (P : Verifier → Type 0) (o : Outcome Verifier) : Type 0 where
    pub taken : (w : Verifier) → o ≡ returned w → w.errors ≡ [] → P w
    pub given_up : (w : Verifier) → o ≡ aborted w → w.errors ≢ []

  abbrev pub left_state : Outcome Verifier → Verifier
  left_state (returned w) = w
  left_state (aborted w) = w

  pub some-errors : (v : Verifier) (line : ℕ) (e : VerifyIssue) → (add_error v line e).errors ≢ []
  some-errors v line e = λ none_there. omega (arith, add_error-some v line e, ap length none_there)

  module _ {P : Verifier → Type 0} where
    pub returned-Clean : (w : Verifier) → (w.errors ≡ [] → P w) → Clean P (returned w)
    returned-Clean w f = record {
      taken = λ u e. subst (λ (x : Verifier). x.errors ≡ [] → P x) (ap left_state e) f;
      given_up = λ u e. absurd (ground arith);
    }

    pub aborted-Clean : (w : Verifier) → w.errors ≢ [] → Clean P (aborted w)
    aborted-Clean w f = record {
      taken = λ u e. absurd (ground arith);
      given_up = λ u e. subst (λ (x : Verifier). x.errors ≢ []) (ap left_state e) f;
    }

    pub if-Clean :
        (b : Bool) {x y : Outcome Verifier}
        → (b ≡ true → Clean P x)
        → (b ≡ false → Clean P y)
        → Clean P (if b then x else y)
    if-Clean true f g = f refl
    if-Clean false f g = g refl

    -- A handler that gives up with a new error, and one that goes on with it.
    pub broken-Clean :
        (v : Verifier) (line : ℕ) (e : VerifyIssue) → Clean P (broken_off (add_error v line e))
    broken-Clean v line e =
        aborted-Clean (record (add_error v line e) { state = errored }) (some-errors v line e)

    pub reported-Clean :
        (v : Verifier) (line : ℕ) (e : VerifyIssue) → Clean P (returned (add_error v line e))
    reported-Clean v line e =
        returned-Clean (add_error v line e) (λ c. absurd (some-errors v line e c))

  pub Clean-weaken :
      {P Q : Verifier → Type 0} (f : (w : Verifier) → P w → Q w) (o : Outcome Verifier)
      → Clean P o
      → Clean Q o
  Clean-weaken f o c = record {
    taken = λ w e clean. f w (c.taken w e clean);
    given_up = c.given_up;
  }

  module _ {hash : HashAlg → Bytes → Bytes} (d : IsDigest hash) where
    hash_part-Clean :
        (sd : SdRecord) (msg : Bytes) (u : Verifier) (line : ℕ)
        → Clean
            (λ w.
              (length sd.chain_hash ≡ u.hash_len)
              × (u.errors ≡ [])
              × (hash_chain u.hash_alg u.chain_hash u.next_seq msg ≡ some sd.chain_hash)
              × (w ≡ advanced u sd.chain_hash))
            (hash_part sd msg u line)
    unfolding hash_part
    hash_part-Clean sd msg u line =
        if-Clean (not (length sd.chain_hash == u.hash_len))
          (λ e. broken-Clean u line (hash_len_changed (length sd.chain_hash) u.hash_len))
          (λ e. rw (hash_chain-link d u.hash_alg u.chain_hash u.next_seq msg) (
            let next = link hash u.hash_alg u.chain_hash u.next_seq msg in
            returned-Clean (compare_hash next sd u line) (λ clean.
              let (same, none_before, after) = compare_hash_sound sd u line next clean in
              (ground arith, none_before, ap some same, after))))

    -- The state behind a message that agrees.
    pub verify-Clean :
        (sd : SdRecord) (msg : Bytes) (v : Verifier) (line : ℕ)
        → Clean
            (λ w. (v.errors ≡ []) × (Agrees sd msg v × (w ≡ advanced v sd.chain_hash)))
            (verify_sd_msg_hash sd msg v line)
    verify-Clean sd msg v line = rw (verify_lem sd msg v line) (
        Clean-weaken
          (λ w t.
            let checked = seq_checked_sound sd v line t.1 in
            (sym (ap (λ (x : Verifier). x.errors) checked.1) ∙ t.1, agreed sd msg v t checked))
          (hash_part sd msg (seq_checked sd v line) line)
          (hash_part-Clean sd msg (seq_checked sd v line) line))
