-- ===== src/Pipeline/Tamper.antt =====
-- What the end of a passing log says of its messages.
use mmhashchainsigs.Base.{
  Bytes, List, [], ap, arith, false, inl, inr, length, length-append, ok, refl, suc, sym, u64_mod,
  ◌+◌, ◌<◌, ◌∙◌, ◌≡◌, ◌≤◌, ◌⊎◌,
}
use mmhashchainsigs.Cli.Lines.{run_lines}
use mmhashchainsigs.Cli.Lines.Trace.{Trace, no_lines, one_line, payloads, run_lines_sound}
use mmhashchainsigs.Crypto.Alg.{HashAlg}
use mmhashchainsigs.Crypto.Hash.{chain_iv}
use mmhashchainsigs.Crypto.Hash.Laws.{IsDigest}
use mmhashchainsigs.Crypto.Host.{Host}
use mmhashchainsigs.HashChain.{HashChain, chain_init}
use mmhashchainsigs.HashChain.Binding.{Collision, chain_updates, chain_updates-binding}
use mmhashchainsigs.HashChain.Ends.{chain_init-first, chain_texts, first_chain}
use mmhashchainsigs.Pipeline.Segments.{
  LastSegment, Segment, Segment-AtChain, Segment-count, log_segment,
}
use mmhashchainsigs.Verifier.Handlers.StepsCert.{IsReady}
use mmhashchainsigs.Verifier.Line.{is_over}
use mmhashchainsigs.Verifier.State.{Verifier, VerifierState, expect_init}

module _ ⦃h : Host⦄ {hash : HashAlg → Bytes → Bytes} (d : IsDigest hash) where
  -- Two segments with one algorithm, one number of messages and one chain hash hold the same
  -- messages, or they hash two different texts to the same digest.
  Segment-binds :
      {ps qs : List Bytes} {v w : Verifier}
      → Segment ps v
      → Segment qs w
      → v.hash_alg ≡ w.hash_alg
      → v.chain_hash ≡ w.chain_hash
      → length ps ≡ length qs
      → (ps ≡ qs)
        ⊎ Collision hash w.hash_alg
            (chain_texts hash w.hash_alg ps)
            (chain_texts hash w.hash_alg qs)
  Segment-binds {ps} {qs} {v} {w} s t ea eh el =
      let a = Segment-AtChain s in
      let b = Segment-AtChain t in
      let alg = w.hash_alg in
      let start = first_chain hash alg in
      let width = d.hash_width alg chain_iv in
      elim (chain_updates-binding d alg start start ps qs refl refl refl width width el
        (ap (λ (c : HashChain). chain_updates c ps) (sym (chain_init-first d alg))
          ∙ ap (λ (x : HashAlg). chain_updates ((chain_init x).0) ps) (sym ea)
          ∙ a.hashed)
        (ap (λ (c : HashChain). chain_updates c qs) (sym (chain_init-first d alg)) ∙ b.hashed)
        (a.same_hash ∙ eh ∙ sym b.same_hash)) [ inl (from_start, same) ↦ inl same | inr c ↦ inr c ]

  length-payloads :
      {v w : Verifier} {ls : List Bytes} (t : Trace v ls w) → length (payloads t) ≡ length ls
  unfolding payloads
  length-payloads no_lines = refl
  length-payloads (one_line r t) = ap suc (length-payloads t)

  tail_short :
      {v w : Verifier} {ls : List Bytes} (t : Trace v ls w) (s : LastSegment (payloads t) w)
      → length s.tail ≤ length ls
  tail_short t s =
      omega (arith, length-payloads t, ap length s.parts, length-append s.earlier s.tail)

  -- Two logs that are read from the start with no error, by verifiers that hold a key or on a host
  -- whose X509_STORE_CTX_new gives a context, and end in the same chain hash and sequence number of
  -- one algorithm, have the same messages in their last segments, from the INIT on, unless two
  -- different texts have the same digest, one hashed by the chain over each segment. Neither log is
  -- empty nor has 2^64 - 1 lines, and the digests are total and have their documented width.
  pub passing_logs_agree :
      (v v' : Verifier) (ls ls' : List Bytes) {w w' : Verifier}
      → IsReady v × (v.state ≡ expect_init)
      → IsReady v' × (v'.state ≡ expect_init)
      → (0 < length ls) × (length ls + 1 < u64_mod)
      → (0 < length ls') × (length ls' + 1 < u64_mod)
      → (run_lines v ls 1 ≡ ok w) × (w.errors ≡ [])
      → (run_lines v' ls' 1 ≡ ok w') × (w'.errors ≡ [])
      → w.hash_alg ≡ w'.hash_alg
      → w.chain_hash ≡ w'.chain_hash
      → w.next_seq ≡ w'.next_seq
      → (t : Trace v ls w) × (t' : Trace v' ls' w') × (s : LastSegment (payloads t) w)
        × (s' : LastSegment (payloads t') w') × ((s.tail ≡ s'.tail)
            ⊎ Collision hash w'.hash_alg
                (chain_texts hash w'.hash_alg s.tail)
                (chain_texts hash w'.hash_alg s'.tail))
  unfolding is_over
  passing_logs_agree v v' ls ls' (k, e) (k', e') (p, few) (p', few') (r, c) (r', c') ea eh es =
      let t = run_lines_sound d v ls 1 k (starting e) r c in
      let t' = run_lines_sound d v' ls' 1 k' (starting e') r' c' in
      let s = log_segment t e p in
      let s' = log_segment t' e' p' in
      let n = Segment-count s.segment (omega (arith, tail_short t s)) in
      let n' = Segment-count s'.segment (omega (arith, tail_short t' s')) in
      (t, t', s, s', Segment-binds s.segment s'.segment ea eh (omega (arith, n, n', es)))
    where
      starting : {s : VerifierState} → s ≡ expect_init → is_over s ≡ false
      starting e = rw e refl
