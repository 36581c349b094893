-- ===== src/Worker/Process/Interval.antt =====
-- A signature is emitted when the interval of messages is full.
use mathlib.Core.Path.{subst}
use mmhashchainsigs.Base.{
  Bytes, List, Option, [], ap, arith, false, inc64, inc64-eq, length, ok, refl, some, sym, u64_mod,
  ℕ, ◌+◌, ◌<◌, ◌∷◌, ◌≡◌, ◌≤◌,
}
use mmhashchainsigs.Crypto.Alg.{HashAlg}
use mmhashchainsigs.Crypto.Hash.Laws.{IsDigest, IsKeyPair, hcs_verify-sign, link}
use mmhashchainsigs.Crypto.Host.{Host}
use mmhashchainsigs.Crypto.Keys.{good, hcs_verify}
use mmhashchainsigs.Format.Codec.Laws.{IsBase64}
use mmhashchainsigs.Format.Element.Bounds.{sd_max_len}
use mmhashchainsigs.Format.Parse.{SdRecord, parse_sd}
use mmhashchainsigs.Format.Parse.RoundTrip.{parse_sd-sig}
use mmhashchainsigs.HashChain.{reset_count}
use mmhashchainsigs.Signer.{Signer}
use mmhashchainsigs.Worker.Process.{process_next}
use mmhashchainsigs.Worker.Process.Emits.{process_next-msg, process_next-sig}
use mmhashchainsigs.Worker.State.{Active, Instance}

module _ ⦃h : Host⦄ where
  -- The worker behind some messages.
  unfoldable pub worker_after : Instance → Active → List Bytes → ℕ → Active
  worker_after inst a [] room = a
  worker_after inst a (p ∷ ps) room = worker_after inst ((process_next inst a p room).0) ps room

  -- The worker has counted this many messages more, and has signed none of them.
  record Counted (n : ℕ) (a b : Active) : Type 0 where
    seq : b.chain.seq ≡ a.chain.seq + n
    count : b.chain.msg_count ≡ a.chain.msg_count + n
    open_chain : b.is_first ≡ false
    same_from : b.sig_seq_from ≡ a.sig_seq_from
    same_signer : b.signer ≡ a.signer

  -- The text is a SIG element: its signature, which the key accepts, is over a range of messages,
  -- and the worker behind it has none left to sign.
  pub record Signs (pk : h.Pkey) (from to : ℕ) (text : Bytes) (b : Active) : Type 0 where
    pub sd : SdRecord
    pub parsed : parse_sd text ≡ ok sd
    pub is_sig : sd.sd_type ≡ b'S'
    pub range : (sd.seq_from ≡ from) × (sd.seq_to ≡ to) × (sd.seq ≡ to)
    pub same_hash : sd.chain_hash ≡ b.chain.current
    pub accepted : hcs_verify pk sd.chain_hash sd.signature ≡ good
    pub none_counted : b.chain.msg_count ≡ 0
    pub from_next : b.sig_seq_from ≡ b.chain.seq

module _ ⦃h : Host⦄ {hash : HashAlg → Bytes → Bytes} (d : IsDigest hash) (b64 : IsBase64)
    (inst : Instance) (room : ℕ) (enough : sd_max_len ≤ room) where
  counting :
      (ps : List Bytes) (a : Active)
      → a.is_first ≡ false
      → length ps + a.chain.msg_count < inst.sign_interval
      → inst.sign_interval < u64_mod
      → a.chain.seq + length ps < u64_mod
      → Counted (length ps) a (worker_after inst a ps room)
  unfolding worker_after
  counting [] a f below small few = record {
    seq = omega arith;
    count = omega arith;
    open_chain = f;
    same_from = refl;
    same_signer = refl;
  }
  counting (p ∷ ps) a f below small few =
      let e =
        process_next-msg d inst a p room enough (omega arith) f
          (omega (arith, inc64-eq a.chain.msg_count (omega arith))) in
      let one = inc64-eq a.chain.seq (omega arith) in
      let one_counted = inc64-eq a.chain.msg_count (omega arith) in
      let next : Active = record a {
        chain = record (a.chain) {
          current = link hash a.chain.alg a.chain.current a.chain.seq p;
          seq = inc64 a.chain.seq;
          msg_count = inc64 a.chain.msg_count;
        };
      } in
      let c =
        counting ps next f (omega (arith, below, one_counted)) small (omega (arith, few, one)) in
      subst (λ (x : Active). Counted (length (p ∷ ps)) a (worker_after inst x ps room))
        (sym (ap (λ (x : Active × Option Bytes). x.0) e))
        (record {
          seq = omega (arith, c.seq, one);
          count = omega (arith, c.count, one_counted);
          open_chain = c.open_chain;
          same_from = c.same_from;
          same_signer = c.same_signer;
        })

  -- A worker behind the first message of its chain signs all its messages when the interval is
  -- full: for the last of as many messages as the interval has left, it emits a SIG element, which
  -- parses, whose range is from the first unsigned message to this one, whose chain hash is the
  -- worker's, and whose signature the key accepts for this hash; no message is then counted as
  -- unsigned, and the next range starts at the next number. The interval and the numbers are below
  -- 2^64, the SD buffer has 512 bytes or more, and OpenSSL's digests, base64 and the key pair work
  -- as documented.
  pub process_next-Signs :
      {pk : h.Pkey} (sign : Bytes → Bytes) (ps : List Bytes) (p : Bytes) (a : Active)
      → IsKeyPair a.signer.privkey pk sign
      → a.is_first ≡ false
      → length ps + 1 + a.chain.msg_count ≡ inst.sign_interval
      → inst.sign_interval < u64_mod
      → a.chain.seq + length ps + 1 < u64_mod
      → a.sig_seq_from < u64_mod
      → (b : Active) × (text : Bytes) × (process_next inst (worker_after inst a ps room) p room
          ≡ (b, some text))
        × Signs pk a.sig_seq_from (a.chain.seq + length ps) text b
  unfolding reset_count
  process_next-Signs {pk} sign ps p a k f full small few from_small =
      let c = counting ps a f (omega (arith, full)) small (omega (arith, few)) in
      let w = worker_after inst a ps room in
      let below : w.chain.seq < u64_mod = omega (arith, c.seq, few) in
      let key : IsKeyPair w.signer.privkey pk sign =
        subst (λ (x : Signer). IsKeyPair x.privkey pk sign) (sym c.same_signer) k in
      let new = link hash w.chain.alg w.chain.current w.chain.seq p in
      (
        _,
        _,
        process_next-sig d inst w p room enough below key b64 c.open_chain (
            omega (
              arith,
              c.count,
              full,
              inc64-eq w.chain.msg_count (omega (arith, c.count, full, small)),
            )),
        record {
          sd = _;
          parsed =
              parse_sd-sig w.chain.alg w.chain.seq new below (d.hash_width w.chain.alg _)
                (d.hash_bytes w.chain.alg _) b64 w.sig_seq_from w.chain.seq (sign new)
                (omega (arith, c.same_from, from_small)) below (key.bytes new) (key.short new);
          is_sig = refl;
          range = (c.same_from, c.seq, c.seq);
          same_hash = refl;
          accepted = hcs_verify-sign key new;
          none_counted = refl;
          from_next = refl;
        },
      )
