-- ===== src/Pipeline/Genuine/Issued.antt =====
-- Chain hashes that a signer has signed, lines without a forged signature, and the segments that
-- an accepted signature stands for.
use mathlib.Core.Path.{subst}
use mmhashchainsigs.Base.{
  Bytes, List, [], ap, append-nil, append_assoc, arith, inl, inr, length, length-append, some, sym,
  u64_mod, ◌++◌, ◌+◌, ◌<◌, ◌∙◌, ◌∷◌, ◌≡◌, ◌⊎◌, ok,
}
use mmhashchainsigs.Verifier.Line.{msg_buf_len}
use mmhashchainsigs.Cli.Lines.{chomp}
use mmhashchainsigs.Format.Strip.{strip_sd_from_line}
use mmhashchainsigs.Format.Parse.{SdRecord}
use mmhashchainsigs.Crypto.Alg.{HashAlg}
use mmhashchainsigs.Crypto.Hash.Laws.{IsDigest}
use mmhashchainsigs.Crypto.Host.{Host}
use mmhashchainsigs.Crypto.Keys.{good, hcs_verify}
use mmhashchainsigs.HashChain.{HashChain, chain_init}
use mmhashchainsigs.HashChain.Binding.{Collision, chain_updates}
use mmhashchainsigs.HashChain.Ends.{SameEnd-binds, chain_texts}
use mmhashchainsigs.Pipeline.Segments.{Segment, Segment-AtChain, first_message, next_message}
use mmhashchainsigs.Verifier.State.{Verifier}

module _ ⦃h : Host⦄ where
  -- A chain hash that a signer has signed: it is behind messages of which the predicate says that
  -- the signer has signed there, one at least and less than 2^64 - 1.
  pub record IsIssued (P : List Bytes → Type 0) (signed : Bytes) : Type 0 where
    pub alg : HashAlg
    pub messages : List Bytes
    pub chain : HashChain
    pub hashed : chain_updates ((chain_init alg).0) messages ≡ some chain
    pub ends : chain.current ≡ signed
    pub number : (0 < length messages) × (length messages + 1 < u64_mod)
    pub issued : P messages

  -- A line that carries no forged signature: if it is a SIG element whose signature the key accepts
  -- for the element's chain hash, the signer has signed this hash.
  abbrev pub IsUnforged : h.Pkey → (List Bytes → Type 0) → Bytes → Type 0
  IsUnforged pk P l =
      (msg : Bytes) (sd : SdRecord)
      → strip_sd_from_line ((chomp l).0) ((chomp l).1) msg_buf_len ≡ ok (msg, sd)
      → sd.sd_type ≡ b'S'
      → hcs_verify pk sd.chain_hash sd.signature ≡ good
      → IsIssued P sd.chain_hash

  -- Two different texts with the same digest: the chain over some messages of the list, one after
  -- the other, hashes the one, and the signer has hashed the other on the way to a signature.
  pub record Clash (hash : HashAlg → Bytes → Bytes) (P : List Bytes → Type 0) (ps : List Bytes)
      : Type 0 where
    pub alg : HashAlg
    pub before : List Bytes
    pub segment : List Bytes
    pub behind : List Bytes
    pub parts : ps ≡ before ++ (segment ++ behind)
    pub messages : List Bytes
    pub issued : P messages
    pub collision :
        Collision hash alg (chain_texts hash alg segment) (chain_texts hash alg messages)

  -- It stands in the longer list too.
  pub Clash-append :
      {hash : HashAlg → Bytes → Bytes} {P : List Bytes → Type 0} {ps : List Bytes} (qs : List Bytes)
      → Clash hash P ps
      → Clash hash P (ps ++ qs)
  Clash-append qs c = record {
    alg = c.alg;
    before = c.before;
    segment = c.segment;
    behind = c.behind ++ qs;
    parts =
        ap (λ (l : List Bytes). l ++ qs) c.parts
        ∙ append_assoc c.before (c.segment ++ c.behind) qs
        ∙ ap (λ (l : List Bytes). c.before ++ l) (append_assoc c.segment c.behind qs);
    messages = c.messages;
    issued = c.issued;
    collision = c.collision;
  }

  pub Clash-behind :
      {hash : HashAlg → Bytes → Bytes} {P : List Bytes → Type 0} {qs : List Bytes} (ps : List Bytes)
      → Clash hash P qs
      → Clash hash P (ps ++ qs)
  Clash-behind ps c = record {
    alg = c.alg;
    before = ps ++ c.before;
    segment = c.segment;
    behind = c.behind;
    parts =
        ap (λ (l : List Bytes). ps ++ l) c.parts
        ∙ sym (append_assoc ps c.before (c.segment ++ c.behind));
    messages = c.messages;
    issued = c.issued;
    collision = c.collision;
  }

  Segment-some : {ps : List Bytes} {v : Verifier} → Segment ps v → 0 < length ps
  Segment-some (first_message o) = omega arith
  Segment-some (next_message {ps} {p} s l) = omega (arith, length-append ps (p ∷ []))

  -- The messages of a segment behind which a signature is accepted have been signed there.
  pub Segment-issued :
      {hash : HashAlg → Bytes → Bytes} (d : IsDigest hash) {P : List Bytes → Type 0}
      {ps : List Bytes} {v : Verifier}
      → Segment ps v
      → length ps + 1 < u64_mod
      → IsIssued P v.chain_hash
      → P ps ⊎ Clash hash P ps
  Segment-issued d {P} {ps} {v} s few i =
      let a = Segment-AtChain s in
      elim (SameEnd-binds d v.hash_alg i.alg ps i.messages (record {
        one = a.chain;
        other = i.chain;
        one_hashed = a.hashed;
        other_hashed = i.hashed;
        one_more = (Segment-some s, few);
        other_more = i.number;
        same = a.same_hash ∙ sym i.ends;
      })) [
        | inl same ↦ inl (subst (λ (l : List Bytes). P l) (sym same) i.issued)
        | inr c ↦ inr (record {
          alg = v.hash_alg;
          before = [];
          segment = ps;
          behind = [];
          parts = sym (append-nil ps);
          messages = i.messages;
          issued = i.issued;
          collision = c;
        })
      ]
