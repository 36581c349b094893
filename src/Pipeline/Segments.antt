-- ===== src/Pipeline/Segments.antt =====
-- Logs that pass: the messages of a segment are the ones that its chain hash binds.
use mathlib.Core.Path.{subst}
use mmhashchainsigs.Base.{
  Bytes, List, [], ap, append-nil, append_assoc, arith, inc64, inc64-eq, inl, inr, length,
  length-append, refl, some, sym, u64_mod, ◌++◌, ◌+◌, ◌<◌, ◌∙◌, ◌∷◌, ◌≡◌, ◌≢◌, ◌⊎◌,
}
use mmhashchainsigs.Cli.Lines.Trace.{Trace, no_lines, one_line, payloads}
use mmhashchainsigs.Crypto.Alg.{hash_len}
use mmhashchainsigs.Crypto.Hash.{hash_chain}
use mmhashchainsigs.Crypto.Host.{Host}
use mmhashchainsigs.HashChain.{HashChain, chain_init, chain_update}
use mmhashchainsigs.HashChain.Binding.{chain_init-start, chain_updates, chain_updates-snoc}
use mmhashchainsigs.Verifier.Entry.{Entry, Link, Opens, links, opens, signs}
use mmhashchainsigs.Verifier.State.{Verifier, VerifierState, expect_init, processing}

module _ ⦃h : Host⦄ where
  -- The messages of a segment, from its INIT on, and the verifier behind them.
  pub data Segment : List Bytes → Verifier → Type 0 where
    first_message : {p : Bytes} {v w : Verifier} → Opens v p w → Segment (p ∷ []) w
    next_message :
        {ps : List Bytes} {p : Bytes} {v w : Verifier}
        → Segment ps v
        → Link v p w
        → Segment (ps ++ p ∷ []) w

  -- The chain that `hashchain_init` starts, with the messages hashed, is where the verifier stands.
  pub record AtChain (ps : List Bytes) (w : Verifier) : Type 0 where
    pub chain : HashChain
    pub hashed : chain_updates ((chain_init w.hash_alg).0) ps ≡ some chain
    pub same_alg : chain.alg ≡ w.hash_alg
    pub same_hash : chain.current ≡ w.chain_hash
    pub same_seq : chain.seq ≡ w.next_seq

  first-AtChain : {p : Bytes} {v w : Verifier} → Opens v p w → AtChain (p ∷ []) w
  unfolding chain_updates chain_update
  first-AtChain {p} {w} o = record {
    chain = record {
      alg = w.hash_alg;
      hash_len = hash_len w.hash_alg;
      current = w.chain_hash;
      seq = inc64 1;
      msg_count = inc64 0;
    };
    hashed = rw (chain_init-start w.hash_alg o.initial) (rw o.hashed refl);
    same_alg = refl;
    same_hash = refl;
    same_seq = sym o.counted;
  }

  linked_update :
      (c : HashChain) (v w : Verifier) (p : Bytes)
      → c.alg ≡ v.hash_alg
      → c.current ≡ v.chain_hash
      → c.seq ≡ v.next_seq
      → Link v p w
      → chain_update c p
        ≡ some
            (record c { current = w.chain_hash; seq = inc64 c.seq; msg_count = inc64 c.msg_count })
  unfolding chain_update
  linked_update c v w p ea eh es l =
      let e : hash_chain c.alg c.current c.seq p ≡ some w.chain_hash = cc (l.hashed, ea, eh, es) in
      rw e

  then-AtChain :
      {ps : List Bytes} {p : Bytes} {v w : Verifier}
      → AtChain ps v
      → Link v p w
      → AtChain (ps ++ p ∷ []) w
  then-AtChain {ps} {p} {v} {w} a l = record {
    chain = record (a.chain) {
      current = w.chain_hash;
      seq = inc64 (a.chain.seq);
      msg_count = inc64 (a.chain.msg_count);
    };
    hashed =
        ap (λ alg. chain_updates ((chain_init alg).0) (ps ++ p ∷ [])) l.same_alg
        ∙ chain_updates-snoc ((chain_init v.hash_alg).0) ps p a.hashed
        ∙ linked_update a.chain v w p a.same_alg a.same_hash a.same_seq l;
    same_alg = a.same_alg ∙ sym l.same_alg;
    same_hash = refl;
    same_seq = ap inc64 a.same_seq ∙ sym l.counted;
  }

  pub Segment-AtChain : {ps : List Bytes} {w : Verifier} → Segment ps w → AtChain ps w
  Segment-AtChain (first_message o) = first-AtChain o
  Segment-AtChain (next_message s l) = then-AtChain (Segment-AtChain s) l

  -- The number of messages is the next sequence number less one.
  pub Segment-count :
      {ps : List Bytes} {w : Verifier}
      → Segment ps w
      → length ps + 1 < u64_mod
      → w.next_seq ≡ length ps + 1
  Segment-count (first_message o) small = o.counted ∙ inc64-eq 1 (omega arith)
  Segment-count (next_message {ps} {p} s l) small =
      l.counted
      ∙ ap inc64 (Segment-count s (omega (arith, length-append ps (p ∷ []))))
      ∙ inc64-eq (length ps + 1) (omega (arith, length-append ps (p ∷ [])))
      ∙ omega (arith, length-append ps (p ∷ []))

  -- A list of messages whose last ones are a segment.
  pub record LastSegment (ps : List Bytes) (w : Verifier) : Type 0 where
    pub earlier : List Bytes
    pub tail : List Bytes
    pub parts : ps ≡ earlier ++ tail
    pub segment : Segment tail w

  linked_entry :
      (before : List Bytes) {p : Bytes} {v w : Verifier}
      → LastSegment before v
      → Link v p w
      → LastSegment (before ++ p ∷ []) w
  linked_entry before {p} s l = record {
    earlier = s.earlier;
    tail = s.tail ++ p ∷ [];
    parts = ap (λ (l : List Bytes). l ++ p ∷ []) s.parts ∙ append_assoc s.earlier s.tail (p ∷ []);
    segment = next_message s.segment l;
  }

  not_expecting : {s : VerifierState} → s ≡ expect_init → s ≢ processing
  not_expecting e = λ p. ground arith

  next_message-Entry :
      (before : List Bytes) {p : Bytes} {v w : Verifier}
      → LastSegment before v ⊎ (v.state ≡ expect_init)
      → Entry v p w
      → LastSegment (before ++ p ∷ []) w
  next_message-Entry before {p} s (opens o) = record {
    earlier = before;
    tail = p ∷ [];
    parts = refl;
    segment = first_message o;
  }
  next_message-Entry before {p} (inl s) (links l k) = linked_entry before s l
  next_message-Entry before {p} (inl s) (signs l k) = linked_entry before s l
  next_message-Entry before {p} (inr e) (links l k) = absurd (not_expecting e l.inside)
  next_message-Entry before {p} (inr e) (signs l k) = absurd (not_expecting e l.inside)

  -- From inside a segment, a log ends in one.
  follow_segment :
      (before : List Bytes) {v w : Verifier} {ls : List Bytes} (t : Trace v ls w)
      → LastSegment before v
      → LastSegment (before ++ payloads t) w
  unfolding payloads
  follow_segment before {v} no_lines s =
      subst (λ (l : List Bytes). LastSegment l v) (sym (append-nil before)) s
  follow_segment before {w = w} (one_line r t) s =
      subst (λ (l : List Bytes). LastSegment l w)
        (append_assoc before (r.payload ∷ []) (payloads t))
        (follow_segment (before ++ r.payload ∷ []) t
          (next_message-Entry before (inl s) r.step.entry))

  -- A log that is not empty, read from the start of the verifier, ends in a segment.
  pub log_segment :
      {v w : Verifier} {ls : List Bytes} (t : Trace v ls w)
      → v.state ≡ expect_init
      → 0 < length ls
      → LastSegment (payloads t) w
  unfolding payloads
  log_segment no_lines e p = absurd (omega arith)
  log_segment (one_line r t) e p =
      follow_segment (r.payload ∷ []) t (next_message-Entry [] (inr e) r.step.entry)
