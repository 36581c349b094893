-- ===== src/Pipeline/Covered/Numbers.antt =====
-- The sequence numbers along the lines of a passing log.
use mmhashchainsigs.Base.{
  Bytes, arith, inc64-eq, inl, inr, sub64, sub64-eq, suc, u64_mod, ℕ, ◌+◌, ◌-◌, ◌<◌, ◌∙◌, ◌≡◌, ◌⊎◌,
}
use mmhashchainsigs.Crypto.Host.{Host}
use mmhashchainsigs.Verifier.Entry.{Entry, Link, Opens, Signed, links, opens, signs}
use mmhashchainsigs.Verifier.State.{Verifier, processing, unsigned_count}

module _ ⦃h : Host⦄ where
  -- The numbers of a verifier that reads at most this many more lines.
  pub record Counts (v : Verifier) (lines : ℕ) : Type 0 where
    pub below : v.last_signed_seq < v.next_seq
    pub room : v.next_seq + lines < u64_mod
    pub segment : (v.state ≡ processing) ⊎ (v.last_signed_seq ≡ 0)

  unsigned-Counts :
      (v : Verifier) (n : ℕ) → Counts v n → unsigned_count v ≡ v.next_seq - 1 - v.last_signed_seq
  unfolding unsigned_count sub64
  unsigned-Counts v n c = omega (arith, c.below, c.room)

  -- What a line does to the numbers: behind one that is no signed block, a message is unsigned.
  pub record Advances (w : Verifier) (n : ℕ) : Type 0 where
    pub counts : Counts w n
    pub waiting : 0 < unsigned_count w

  pub Link-Advances :
      {p : Bytes} {v w : Verifier} {n : ℕ}
      → Link v p w
      → w.state ≡ processing
      → w.last_signed_seq ≡ v.last_signed_seq
      → Counts v (suc n)
      → Advances w n
  Link-Advances {v} {w} {n} l s k c =
      let next = l.counted ∙ inc64-eq v.next_seq (omega (arith, c.room)) in
      let after : Counts w n = record {
        below = omega (arith, c.below, k, next);
        room = omega (arith, c.room, next);
        segment = inl s;
      } in
      record {
        counts = after;
        waiting = omega (arith, unsigned-Counts w n after, c.below, k, next);
      }

  pub Opens-Advances :
      {p : Bytes} {v w : Verifier} {n : ℕ}
      → Opens v p w
      → w.state ≡ processing
      → Counts v (suc n)
      → Advances w n
  Opens-Advances {v} {w} {n} o s c =
      let next = o.counted ∙ inc64-eq 1 (omega arith) in
      let signed : w.last_signed_seq ≡ 0 = elim o.closed [
        | inl (out, k) ↦ elim c.segment [ inl i ↦ absurd (out i) | inr z ↦ k ∙ z ]
        | inr (z, why) ↦ z
      ] in
      let after : Counts w n = record {
        below = omega (arith, signed, next);
        room = omega (arith, c.room, c.below, next);
        segment = inl s;
      } in
      record { counts = after; waiting = omega (arith, unsigned-Counts w n after, signed, next) }

  Signed-Counts :
      {p : Bytes} {v w : Verifier} {n : ℕ}
      → Link v p w
      → Signed v w
      → w.state ≡ processing
      → Counts v (suc n)
      → Counts w n
  Signed-Counts {v} {w} l g s c =
      let next = l.counted ∙ inc64-eq v.next_seq (omega (arith, c.room)) in
      let up =
        g.up_to ∙ sub64-eq w.next_seq 1 (omega (arith, c.room, next)) (omega (arith, next)) in
      record {
        below = omega (arith, up, next);
        room = omega (arith, c.room, next);
        segment = inl s;
      }

  pub Entry-Counts :
      {p : Bytes} {v w : Verifier} {n : ℕ}
      → Entry v p w
      → w.state ≡ processing
      → Counts v (suc n)
      → Counts w n
  Entry-Counts (opens o) s c = (Opens-Advances o s c).counts
  Entry-Counts (links l k) s c = (Link-Advances l s k c).counts
  Entry-Counts (signs l g) s c = Signed-Counts l g s c
