-- ===== src/Pipeline/Refused/Emission.antt =====
-- What comes of a message inside a chain, where the signer may fail.
use mathlib.Core.Path.{subst}
use mmhashchainsigs.Base.{
  All, Bool-cases, Bytes, IsByte, List, Option, Option-cases, [], ap, arith, false, inc64, inc64-eq,
  inl, inr, length, ltb, ltb→lt, none, not_ltb→le, some, sym, u64_mod, ℕ, ◌+◌, ◌<◌, ◌∙◌, ◌∷◌, ◌≡◌,
  ◌≤◌,
}
use mmhashchainsigs.Crypto.Alg.{HashAlg}
use mmhashchainsigs.Crypto.Hash.Laws.{IsDigest}
use mmhashchainsigs.Crypto.Host.{Host}
use mmhashchainsigs.Format.Codec.Laws.{IsBase64}
use mmhashchainsigs.Format.Element.{msg_params, sd_element, sig_params}
use mmhashchainsigs.Format.Element.Bounds.{sd_max_len}
use mmhashchainsigs.Format.Element.Ids.{sd_prefix}
use mmhashchainsigs.Format.Parse.{sig_len_max}
use mmhashchainsigs.HashChain.{reset_count}
use mmhashchainsigs.Pipeline.Step.{hash_after}
use mmhashchainsigs.Signer.{Signer, signer_sign}
use mmhashchainsigs.Worker.Process.{process_next}
use mmhashchainsigs.Worker.Process.Emits.{
  process_next-msg, process_next-signed, process_next-unsigned,
}
use mmhashchainsigs.Worker.Process.Interval.{worker_after}
use mmhashchainsigs.Worker.State.{Active, Instance}

module _ ⦃h : Host⦄ where
  -- A signer that may fail; `EVP_DigestSign` makes signatures of at most 144 bytes.
  pub record IsSigner (s : Signer) : Type 0 where
    pub bytes : (m sig : Bytes) → signer_sign s m ≡ some sig → All IsByte sig
    pub short : (m sig : Bytes) → signer_sign s m ≡ some sig → length sig ≤ sig_len_max

  -- The worker inside a chain, with its next number.
  pub record IsAt (alg : HashAlg) (s : Signer) (n : ℕ) (a : Active) : Type 0 where
    pub is_open : a.is_first ≡ false
    pub alg_is : a.chain.alg ≡ alg
    pub signer_is : a.signer ≡ s
    pub number : a.chain.seq ≡ n
    pub from_small : a.sig_seq_from < u64_mod

module _ ⦃h : Host⦄ (hash : HashAlg → Bytes → Bytes) where
  -- The worker with the message in its chain.
  abbrev pub hashed_into : Active → Bytes → Active
  hashed_into a p = record a {
    chain = record (a.chain) {
      current = hash_after hash a p;
      seq = inc64 a.chain.seq;
      msg_count = inc64 a.chain.msg_count;
    };
  }

  -- What comes of a message inside a chain.
  pub data Emission (a : Active) (p : Bytes) (r : Active × Option Bytes) : Type 0 where
    plain :
        ◌≡◌ {A = Active × Option Bytes} r (
          hashed_into a p,
          some (sd_element sd_prefix (msg_params a.chain.seq (hash_after hash a p))),
        )
        → Emission a p r
    signed :
        (sig : Bytes)
        → signer_sign a.signer (hash_after hash a p) ≡ some sig
        → ◌≡◌ {A = Active × Option Bytes} r (
          record (hashed_into a p) {
            chain = reset_count (hashed_into a p).chain;
            sig_seq_from = inc64 a.chain.seq;
          },
          some (
              sd_element sd_prefix (
                sig_params a.chain.seq
                  (hash_after hash a p)
                  a.sig_seq_from
                  a.chain.seq
                  (h.encode_block sig))),
        )
        → Emission a p r
    unsigned : ◌≡◌ {A = Active × Option Bytes} r (hashed_into a p, none) → Emission a p r

module _ ⦃h : Host⦄ {hash : HashAlg → Bytes → Bytes} (d : IsDigest hash) (b64 : IsBase64)
    (inst : Instance) (room : ℕ) (enough : sd_max_len ≤ room) (alg : HashAlg) (s : Signer)
    (signs : IsSigner s) where
  pub own_signature :
      (a : Active) (m sig : Bytes)
      → a.signer ≡ s
      → signer_sign a.signer m ≡ some sig
      → All IsByte sig × (length sig ≤ sig_len_max)
  own_signature a m sig e r =
      let made = ap (λ (x : Signer). signer_sign x m) (sym e) ∙ r in
      (signs.bytes m sig made, signs.short m sig made)

  pub process_next-Emission :
      (a : Active) (p : Bytes) (n : ℕ)
      → IsAt alg s n a
      → n < u64_mod
      → Emission hash a p (process_next inst a p room)
  process_next-Emission a p n i few =
      let small : a.chain.seq < u64_mod = omega (arith, i.number) in
      elim (Bool-cases (ltb (inc64 a.chain.msg_count) inst.sign_interval)) [
        | inl below ↦
            plain (process_next-msg d inst a p room enough small i.is_open (ltb→lt _ _ below))
        | inr due ↦ elim (Option-cases (signer_sign a.signer (hash_after hash a p))) [
          | inl fails ↦ unsigned (
              process_next-unsigned d inst a p room enough small fails i.is_open
                (not_ltb→le _ _ due))
          | inr (sig, made) ↦ signed sig made (
              process_next-signed d inst a p room enough small sig b64 made
                (own_signature a _ sig i.signer_is made).1 i.is_open (not_ltb→le _ _ due))
        ]
      ]

  -- A message takes one number, whether it is emitted or its signature fails.
  Emission-IsAt :
      (a : Active) (p : Bytes) (n : ℕ) (r : Active × Option Bytes)
      → Emission hash a p r
      → IsAt alg s n a
      → n + 1 < u64_mod
      → IsAt alg s (n + 1) (r.0)
  unfolding reset_count
  Emission-IsAt a p n r m i few =
      let number : inc64 a.chain.seq ≡ n + 1 =
        omega (arith, i.number, inc64-eq a.chain.seq (omega (arith, i.number))) in
      let next : IsAt alg s (n + 1) (hashed_into hash a p) = record {
        is_open = i.is_open;
        alg_is = i.alg_is;
        signer_is = i.signer_is;
        number = number;
        from_small = i.from_small;
      } in
      by_case m number next
    where
      at :
          (b : Active) (sd : Option Bytes)
          → ◌≡◌ {A = Active × Option Bytes} r (b, sd)
          → IsAt alg s (n + 1) b
          → IsAt alg s (n + 1) (r.0)
      at b sd e j = subst (λ (x : Active × Option Bytes). IsAt alg s (n + 1) (x.0)) (sym e) j

      by_case :
          Emission hash a p r
          → inc64 a.chain.seq ≡ n + 1
          → IsAt alg s (n + 1) (hashed_into hash a p)
          → IsAt alg s (n + 1) (r.0)
      by_case (plain e) number next = at _ _ e next
      by_case (unsigned e) number next = at _ _ e next
      by_case (signed sig made e) number next = at _ _ e (record {
        is_open = i.is_open;
        alg_is = i.alg_is;
        signer_is = i.signer_is;
        number = number;
        from_small = omega (arith, number, few);
      })

  pub worker_after-IsAt :
      (ps : List Bytes) (a : Active) (n : ℕ)
      → IsAt alg s n a
      → n + length ps < u64_mod
      → IsAt alg s (n + length ps) (worker_after inst a ps room)
  unfolding worker_after
  worker_after-IsAt [] a n i few = subst (λ (k : ℕ). IsAt alg s k a) (omega arith) i
  worker_after-IsAt (p ∷ ps) a n i few =
      let b = (process_next inst a p room).0 in
      subst (λ (k : ℕ). IsAt alg s k (worker_after inst b ps room)) (omega arith)
        (worker_after-IsAt ps b (n + 1)
          (Emission-IsAt a p n (process_next inst a p room)
            (process_next-Emission a p n i (omega arith)) i (omega arith))
          (omega arith))
