-- ===== src/Pipeline/Covered.antt =====
-- Strict mode: no message of a passing log is without a signature.
pub mod Numbers
use mmhashchainsigs.Base.{
  Bytes, List, [], arith, inl, inr, length, ok, refl, some, suc, true, u64_mod, ℕ, ◌+◌, ◌<◌, ◌==◌,
  ◌∙◌, ◌∷◌, ◌≡◌,
}
use mmhashchainsigs.Cli.Exit.{finalize_sound}
use mmhashchainsigs.Cli.Lines.{run_lines}
use mmhashchainsigs.Cli.Lines.Trace.{Trace, no_lines, one_line, run_lines_sound}
use mmhashchainsigs.Crypto.Alg.{HashAlg}
use mmhashchainsigs.Crypto.Hash.Laws.{IsDigest}
use mmhashchainsigs.Crypto.Host.{Host}
use mmhashchainsigs.Pipeline.Covered.Numbers.{Counts, Entry-Counts, Link-Advances, Opens-Advances}
use mmhashchainsigs.Verifier.Entry.{Entry, links, opens, signs}
use mmhashchainsigs.Verifier.Handlers.StepsCert.{IsReady}
use mmhashchainsigs.Verifier.Line.{is_over}
use mmhashchainsigs.Verifier.State.{
  Verifier, VerifierOpts, expect_init, processing, unsigned_count, verifier_finalize, verifier_init,
  verifier_passed,
}
use mmhashchainsigs.Verifier.State.Start.{verifier_init-Started}

module _ ⦃h : Host⦄ where
  -- Whether a signed block follows in the segment, by the entry of the next line and the answer for
  -- the lines behind it.
  pub AheadAt : {v w : Verifier} {p : Bytes} → Entry v p w → Type 0 → Type 0
  AheadAt (opens o) behind = ⊥
  AheadAt (links l k) behind = behind
  AheadAt (signs l s) behind = Unit

  -- Before a segment ends, one of the lines is a signed block.
  unfoldable pub SignedAhead : {v w : Verifier} {ls : List Bytes} → Trace v ls w → Type 0
  unfolding AheadAt
  SignedAhead no_lines = ⊥
  SignedAhead (one_line r t) = AheadAt r.step.entry (SignedAhead t)

  pub CoveredAt : {v w : Verifier} {p : Bytes} → Entry v p w → Type 0 → Type 0
  CoveredAt (signs l s) ahead = Unit
  CoveredAt _ ahead = ahead

  -- Each line is a signed block, or one follows in its segment.
  unfoldable pub Covered : {v w : Verifier} {ls : List Bytes} → Trace v ls w → Type 0
  unfolding CoveredAt
  Covered no_lines = Unit
  Covered (one_line r t) = CoveredAt r.step.entry (SignedAhead t) × Covered t

  -- A strict segment does not end with a message unsigned.
  Entry-AheadAt :
      {X : Type 0} {p : Bytes} {v w : Verifier} {n : ℕ} (e : Entry v p w)
      → w.state ≡ processing
      → Counts v (suc n)
      → v.strict ≡ true
      → v.state ≡ processing
      → 0 < unsigned_count v
      → (0 < unsigned_count w → X)
      → AheadAt e X
  unfolding AheadAt
  Entry-AheadAt (opens o) i c s p u behind = elim o.closed [
    | inl (out, k) ↦ absurd (out p)
    | inr (k, inl lax) ↦ absurd (ground arith)
    | inr (k, inr none_left) ↦ absurd (omega (arith, u, none_left))
  ]
  Entry-AheadAt (links l k) i c s p u behind = behind (Link-Advances l i k c).waiting
  Entry-AheadAt (signs l g) i c s p u behind = tt

  Entry-CoveredAt :
      {X : Type 0} {p : Bytes} {v w : Verifier} {n : ℕ} (e : Entry v p w)
      → w.state ≡ processing
      → Counts v (suc n)
      → (0 < unsigned_count w → X)
      → CoveredAt e X
  unfolding CoveredAt
  Entry-CoveredAt (opens o) i c behind = behind (Opens-Advances o i c).waiting
  Entry-CoveredAt (links l k) i c behind = behind (Link-Advances l i k c).waiting
  Entry-CoveredAt (signs l g) i c behind = tt

  -- With a message unsigned and none unsigned at the end, a signed block follows.
  ahead :
      {v w : Verifier} {ls : List Bytes} (t : Trace v ls w)
      → Counts v (length ls)
      → v.strict ≡ true
      → v.state ≡ processing
      → 0 < unsigned_count v
      → unsigned_count w ≡ 0
      → SignedAhead t
  unfolding SignedAhead
  ahead no_lines c s p u z = absurd (omega (arith, u, z))
  ahead (one_line r t) c s p u z =
      let step = r.step in
      let after = Entry-Counts step.entry step.in_segment c in
      Entry-AheadAt step.entry step.in_segment c s p u
        (λ more. ahead t after (step.same_strict ∙ s) step.in_segment more z)

  covered :
      {v w : Verifier} {ls : List Bytes} (t : Trace v ls w)
      → Counts v (length ls)
      → v.strict ≡ true
      → unsigned_count w ≡ 0
      → Covered t
  unfolding Covered
  covered no_lines c s z = tt
  covered (one_line r t) c s z =
      let step = r.step in
      let after = Entry-Counts step.entry step.in_segment c in
      (
        Entry-CoveredAt step.entry step.in_segment c
            (λ more. ahead t after (step.same_strict ∙ s) step.in_segment more z),
        covered t after (step.same_strict ∙ s) z,
      )

  Trace-same_strict : {v w : Verifier} {ls : List Bytes} → Trace v ls w → w.strict ≡ v.strict
  Trace-same_strict no_lines = refl
  Trace-same_strict (one_line r t) = Trace-same_strict t ∙ r.step.same_strict

  pub passed_errors : (v : Verifier) → verifier_passed v ≡ true → v.errors ≡ []
  unfolding verifier_passed
  passed_errors v p = no_elements v.errors p
    where
      no_elements : {A : Type 0} (l : List A) → (length l == 0) ≡ true → l ≡ []
      no_elements [] p = refl
      no_elements (x ∷ l) p = absurd (ground arith)

  -- What a log that passes in strict mode gives.
  pub strict_read :
      {hash : HashAlg → Bytes → Bytes} (d : IsDigest hash) (o : VerifierOpts) (ls : List Bytes)
      {v w : Verifier}
      → verifier_init o ≡ some v
      → o.strict ≡ true
      → IsReady v
      → length ls + 1 < u64_mod
      → run_lines v ls 1 ≡ ok w
      → verifier_passed (verifier_finalize w) ≡ true
      → Trace v ls w
        × Counts v (length ls)
        × (v.strict ≡ true)
        × (v.state ≡ expect_init)
        × (unsigned_count w ≡ 0)
  unfolding is_over
  strict_read d o ls {v} {w} e s k few r p =
      let start = verifier_init-Started o e in
      let (clean, more, signed) = finalize_sound w (passed_errors (verifier_finalize w) p) in
      let t = run_lines_sound d v ls 1 k (rw start.at_start refl) r clean in
      let strict = Trace-same_strict t ∙ start.same_strict ∙ s in
      (
        t,
        record {
          below = omega (arith, start.first_seq, start.none_signed);
          room = omega (arith, start.first_seq, few);
          segment = inr start.none_signed;
        },
        start.same_strict ∙ s,
        start.at_start,
        elim signed [ inl lax ↦ absurd (ground (arith, strict)) | inr z ↦ z ],
      )

  -- In strict mode a log that passes has no message without a signature: if the verifier that
  -- verifier_init gives for the strict option reads the lines, and passes behind verifier_finalize,
  -- then every line has been read as a step of the chain, and is a signed block or is followed by
  -- one in its segment. The verifier holds a key, or X509_STORE_CTX_new gives a context; the log
  -- has less than 2^64 - 1 lines, and the digests are total and have their documented width.
  pub run_lines-Covered :
      {hash : HashAlg → Bytes → Bytes} (d : IsDigest hash) (o : VerifierOpts) (ls : List Bytes)
      {v w : Verifier}
      → verifier_init o ≡ some v
      → o.strict ≡ true
      → IsReady v
      → length ls + 1 < u64_mod
      → run_lines v ls 1 ≡ ok w
      → verifier_passed (verifier_finalize w) ≡ true
      → (t : Trace v ls w) × Covered t
  run_lines-Covered d o ls e s k few r p =
      let (t, counts, strict, at_start, none_left) = strict_read d o ls e s k few r p in
      (t, covered t counts strict none_left)
