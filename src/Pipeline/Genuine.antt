-- ===== src/Pipeline/Genuine.antt =====
-- Logs without forged signatures that pass in strict mode: their segments are the signer's.
pub mod Issued
use mathlib.Core.Path.{subst}
use mmhashchainsigs.Base.{
  All, All-append, Bytes, List, [], ap, append-nil, append_assoc, arith, concat, concat-snoc, inl,
  inr, length, length-append, ok, refl, some, suc, sym, true, u64_mod, ℕ, ◌++◌, ◌+◌, ◌<◌, ◌∙◌, ◌∷◌,
  ◌≡◌, ◌≢◌, ◌⊎◌,
}
use mmhashchainsigs.Format.Parse.{SdRecord}
use mmhashchainsigs.Cli.Lines.{run_lines}
use mmhashchainsigs.Cli.Lines.Trace.{Trace, no_lines, one_line, payloads}
use mmhashchainsigs.Crypto.Alg.{HashAlg}
use mmhashchainsigs.Crypto.Hash.Laws.{IsDigest}
use mmhashchainsigs.Crypto.Host.{Host}
use mmhashchainsigs.Crypto.Keys.{good, hcs_verify}
use mmhashchainsigs.Pipeline.Covered.{strict_read}
use mmhashchainsigs.Pipeline.Covered.Numbers.{Counts, Entry-Counts, Link-Advances, Opens-Advances}
use mmhashchainsigs.Pipeline.Genuine.Issued.{
  Clash, Clash-append, Clash-behind, IsUnforged, Segment-issued, IsIssued,
}
use mmhashchainsigs.Pipeline.Segments.{Segment, first_message, next_message}
use mmhashchainsigs.Verifier.Entry.{
  Entry, Keyed, Link, Opens, Step, installed, kept, links, opens, signs, Recorded,
}
use mmhashchainsigs.Verifier.State.{
  Verifier, VerifierOpts, VerifierState, expect_init, processing, unsigned_count, verifier_finalize,
  verifier_init, verifier_passed,
}

module _ ⦃h : Host⦄ (P : List Bytes → Type 0) where
  -- The messages are those of segments, one after the other, that the signer has signed.
  pub record AllIssued (ps : List Bytes) : Type 0 where
    pub segments : List (List Bytes)
    pub all_issued : All P segments
    pub parts : ps ≡ concat segments

  -- The messages so far: segments that are signed, and the one that is open.
  record Progress (ps : List Bytes) (v : Verifier) : Type 0 where
    segments : List (List Bytes)
    all_issued : All P segments
    tail : List Bytes
    parts : ps ≡ concat segments ++ tail
    segment : Segment tail v
    signed : unsigned_count v ≡ 0 → IsIssued P v.chain_hash

not_expecting : {s : VerifierState} → s ≡ expect_init → s ≢ processing
not_expecting e = λ p. ground arith

module _ ⦃h : Host⦄ (pk : h.Pkey) where
  -- A verifier that holds the key, in strict mode.
  record Holds (v : Verifier) : Type 0 where
    strict : v.strict ≡ true
    held : v.have_pubkey ≡ true
    has_key : v.pubkey ≡ some pk

  Step-Holds : {v w : Verifier} {der p : Bytes} → Step v der p w → Holds v → Holds w
  Step-Holds {v} {w} {der} s o = by_keys s.keys
    where
      by_keys : Keyed v der w → Holds w
      by_keys (kept k b) = record {
        strict = s.same_strict ∙ o.strict;
        held = b ∙ o.held;
        has_key = k ∙ o.has_key;
      }
      by_keys (installed c) = absurd (ground (arith, c.no_key, o.held))

module _ ⦃h : Host⦄ {hash : HashAlg → Bytes → Bytes} (d : IsDigest hash) (pk : h.Pkey)
    {P : List Bytes → Type 0} where
  -- The open segment is signed as well.
  closed_at :
      {ps : List Bytes} {v : Verifier} (g : Progress P ps v)
      → length ps + 1 < u64_mod
      → unsigned_count v ≡ 0
      → AllIssued P ps ⊎ Clash hash P ps
  closed_at {ps} {v} g few z =
      elim (Segment-issued d g.segment
        (omega (arith, few, ap length g.parts, length-append (concat g.segments) g.tail))
        (g.signed z)) [
          | inr c ↦ inr (at_end (concat g.segments) g.tail g.parts c)
          | inl issued ↦ inl (record {
            segments = g.segments ++ g.tail ∷ [];
            all_issued = All-append P g.segments (g.tail ∷ []) g.all_issued (issued, tt);
            parts = g.parts ∙ sym (concat-snoc g.segments g.tail);
          })
        ]
    where
      at_end :
          (before tail : List Bytes) → ps ≡ before ++ tail → Clash hash P tail → Clash hash P ps
      at_end before tail e c =
          subst (λ (l : List Bytes). Clash hash P l) (sym e) (Clash-behind before c)

  opened_after :
      {ps : List Bytes} {p : Bytes} {v w : Verifier} {n : ℕ}
      → AllIssued P ps
      → Opens v p w
      → w.state ≡ processing
      → Counts v (suc n)
      → Progress P (ps ++ p ∷ []) w
  opened_after {p = p} a o s c = record {
    segments = a.segments;
    all_issued = a.all_issued;
    tail = p ∷ [];
    parts = ap (λ (l : List Bytes). l ++ p ∷ []) a.parts;
    segment = first_message o;
    signed = λ z. absurd (omega (arith, z, (Opens-Advances o s c).waiting));
  }

  linked_after :
      {ps : List Bytes} {p : Bytes} {v w : Verifier}
      → Progress P ps v
      → Link v p w
      → (unsigned_count w ≡ 0 → IsIssued P w.chain_hash)
      → Progress P (ps ++ p ∷ []) w
  linked_after {p = p} g l signed = record {
    segments = g.segments;
    all_issued = g.all_issued;
    tail = g.tail ++ p ∷ [];
    parts =
        ap (λ (l : List Bytes). l ++ p ∷ []) g.parts
        ∙ append_assoc (concat g.segments) g.tail (p ∷ []);
    segment = next_message g.segment l;
    signed = signed;
  }

  next-Progress :
      {ps : List Bytes} {p : Bytes} {v w : Verifier} {n : ℕ}
      → Progress P ps v
      → (e : Entry v p w) (sd : SdRecord) → Recorded sd e
      → (sd.sd_type ≡ b'S'
          → hcs_verify pk sd.chain_hash sd.signature ≡ good
          → IsIssued P sd.chain_hash)
      → v.strict ≡ true
      → v.state ≡ processing
      → v.pubkey ≡ some pk
      → w.state ≡ processing
      → Counts v (suc n)
      → length ps + 1 < u64_mod
      → Progress P (ps ++ p ∷ []) w ⊎ Clash hash P (ps ++ p ∷ [])
  next-Progress {p = p} g (opens o) sd r u s i k j c few = elim o.closed [
    | inl (out, same) ↦ absurd (out i)
    | inr (zero_signed, inl lax) ↦ absurd (ground arith)
    | inr (zero_signed, inr none_left) ↦ elim (closed_at g few none_left) [
      | inl a ↦ inl (opened_after a o j c)
      | inr x ↦ inr (Clash-append (p ∷ []) x)
    ]
  ]
  next-Progress g (links l same) sd r u s i k j c few =
      inl (linked_after g l (λ z. absurd (omega (arith, z, (Link-Advances l j same c).waiting))))
  next-Progress {w = w} g (signs l sg) sd r u s i k j c few =
      let (t, number, same_sig, from, to) = r.of_type in
      inl (
        linked_after g l (λ z.
          subst (λ (m : Bytes). IsIssued P m) (sym r.same_hash)
            (u t (recorded same_sig (by_key (sym sg.has_key ∙ k))))))
    where
      recorded :
          sg.sig ≡ sd.signature
          → hcs_verify pk w.chain_hash sg.sig ≡ good
          → hcs_verify pk sd.chain_hash sd.signature ≡ good
      recorded e a =
          subst (λ (m : Bytes). hcs_verify pk m sd.signature ≡ good) r.same_hash
            (subst (λ (x : Bytes). hcs_verify pk w.chain_hash x ≡ good) e a)

      same_key : {x y : h.Pkey} → some x ≡ some y → x ≡ y
      same_key e = cc

      by_key : some sg.key ≡ some pk → hcs_verify pk w.chain_hash sg.sig ≡ good
      by_key e =
          subst (λ (x : h.Pkey). hcs_verify x w.chain_hash sg.sig ≡ good) (same_key e) sg.accepted

  -- The lines behind a message of a segment.
  follow :
      (before : List Bytes) {v w : Verifier} {ls : List Bytes} (t : Trace v ls w)
      → All (IsUnforged pk P) ls
      → Progress P before v
      → Holds pk v
      → v.state ≡ processing
      → Counts v (length ls)
      → length before + length ls + 1 < u64_mod
      → unsigned_count w ≡ 0
      → AllIssued P (before ++ payloads t) ⊎ Clash hash P (before ++ payloads t)
  unfolding payloads
  follow before {v} no_lines us g o i c few z =
      closed_at (subst (λ (l : List Bytes). Progress P l v) (sym (append-nil before)) g)
        (omega (arith, few, ap length (append-nil before))) z
  follow before {w = w} (one_line r t) (u, us) g o i c few z =
      let step = r.step in
      elim (next-Progress g step.entry r.sd r.recorded (u r.msg r.sd r.split) o.strict i o.has_key
        step.in_segment c (omega (arith, few))) [
          | inr x ↦ inr (
              subst (λ (l : List Bytes). Clash hash P l)
                (append_assoc before (r.payload ∷ []) (payloads t)) (Clash-append (payloads t) x))
          | inl g' ↦
              subst (λ (l : List Bytes). AllIssued P l ⊎ Clash hash P l)
                (append_assoc before (r.payload ∷ []) (payloads t))
                (follow (before ++ r.payload ∷ []) t us g' (Step-Holds pk step o) step.in_segment
                  (Entry-Counts step.entry step.in_segment c)
                  (omega (arith, few, length-append before (r.payload ∷ []))) z)
        ]

  nothing : AllIssued P []
  nothing = record { segments = []; all_issued = tt; parts = refl }

  first-Progress :
      {p : Bytes} {v w : Verifier} {n : ℕ}
      → Entry v p w
      → v.state ≡ expect_init
      → w.state ≡ processing
      → Counts v (suc n)
      → Progress P (p ∷ []) w
  first-Progress (opens o) e j c = opened_after nothing o j c
  first-Progress (links l k) e j c = absurd (not_expecting e l.inside)
  first-Progress (signs l g) e j c = absurd (not_expecting e l.inside)

  from_start :
      {v w : Verifier} {ls : List Bytes} (t : Trace v ls w)
      → All (IsUnforged pk P) ls
      → v.state ≡ expect_init
      → Holds pk v
      → Counts v (length ls)
      → length ls + 1 < u64_mod
      → unsigned_count w ≡ 0
      → AllIssued P (payloads t) ⊎ Clash hash P (payloads t)
  unfolding payloads
  from_start no_lines us e o c few z = inl nothing
  from_start (one_line r t) (u, us) e o c few z =
      let step = r.step in
      follow (r.payload ∷ []) t us (first-Progress step.entry e step.in_segment c)
        (Step-Holds pk step o) step.in_segment (Entry-Counts step.entry step.in_segment c)
        (omega (arith, few)) z

  -- A log that passes in strict mode is the signer's: if the verifier that verifier_init gives for
  -- the strict option holds the key and reads the lines, and passes behind verifier_finalize, then
  -- every line has been read as a step of the chain, and the messages are whole segments, one after
  -- the other, each of which the signer has signed behind its last message, unless two different
  -- texts have the same digest, the one hashed by the chain over consecutive messages of the log
  -- and the other by the chain over messages that the signer has signed. No SIG element of the log
  -- carries a forged signature: where the key accepts its signature for its chain hash, the signer
  -- has signed this hash, behind one message at least and less than 2^64 - 1; the log has less than
  -- 2^64 - 1 lines, and the digests are total and have their documented width.
  pub run_lines-AllIssued :
      (o : VerifierOpts) (ls : List Bytes) {v w : Verifier}
      → verifier_init o ≡ some v
      → o.strict ≡ true
      → (v.have_pubkey ≡ true) × (v.pubkey ≡ some pk)
      → length ls + 1 < u64_mod
      → All (IsUnforged pk P) ls
      → run_lines v ls 1 ≡ ok w
      → verifier_passed (verifier_finalize w) ≡ true
      → (t : Trace v ls w) × (AllIssued P (payloads t) ⊎ Clash hash P (payloads t))
  run_lines-AllIssued o ls e s (k, key) few us r p =
      let (t, counts, strict, at_start, none_left) = strict_read d o ls e s (inl k) few r p in
      (
        t,
        from_start t us at_start (record { strict = strict; held = k; has_key = key }) counts few
            none_left,
      )
