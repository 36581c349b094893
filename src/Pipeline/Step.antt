-- ===== src/Pipeline/Step.antt =====
-- One message: what the worker emits in front of it, the verifier accepts.
use mmhashchainsigs.Base.{
  All, Bytes, IsByte, ap, arith, inc64, inc64-eq, inl, length, ok, refl, some, sub64-inc64, sym,
  true, u64_mod, ℕ, ◌++◌, ◌+◌, ◌<◌, ◌∙◌, ◌≡◌, ◌≤◌,
}
use mmhashchainsigs.Cli.Lines.Split.{IsInline}
use mmhashchainsigs.Format.Element.Inline.{msg-IsInline, sig-IsInline}
use mmhashchainsigs.Crypto.Alg.{HashAlg, hash_len}
use mmhashchainsigs.Crypto.Hash.{hash_chain}
use mmhashchainsigs.Crypto.Hash.Laws.{IsDigest, IsKeyPair, hash_chain-link, hcs_verify-sign, link}
use mmhashchainsigs.Crypto.Host.{Host}
use mmhashchainsigs.Crypto.Keys.{good, hcs_verify}
use mmhashchainsigs.Format.Codec.Laws.{IsBase64, IsUnbroken}
use mmhashchainsigs.Format.Element.{msg_params, sd_element, sig_params}
use mmhashchainsigs.Format.Element.Bounds.{sd_max_len}
use mmhashchainsigs.Format.Element.Clean.{msg_params-IsClean, sig_params-IsClean}
use mmhashchainsigs.Format.Element.Ids.{sd_prefix}
use mmhashchainsigs.Format.Parse.{SdRecord, empty_record, sig_len_max}
use mmhashchainsigs.Format.Parse.RoundTrip.{parse_sd-msg, parse_sd-sig}
use mmhashchainsigs.HashChain.{reset_count}
use mmhashchainsigs.Pipeline.{IsStorable, IsSynced}
use mmhashchainsigs.Verifier.Handlers.{returned}
use mmhashchainsigs.Verifier.Handlers.Accept.{advanced, handle_sd_msg-good, handle_sd_sig-good}
use mmhashchainsigs.Verifier.Line.{process_line}
use mmhashchainsigs.Verifier.Line.Element.{process_line-msg, process_line-sig}
use mmhashchainsigs.Verifier.State.{Verifier}
use mmhashchainsigs.Worker.Process.{process_next}
use mmhashchainsigs.Worker.Process.Emits.{process_next-msg, process_next-sig}
use mmhashchainsigs.Worker.State.{Active, Instance}

module _ ⦃h : Host⦄ where
  -- The states behind a line that was emitted and accepted.
  pub record Accepted (inst : Instance) (room : ℕ) (alg : HashAlg) (pk : h.Pkey) (a : Active)
      (v : Verifier) (payload : Bytes) (line : ℕ) : Type 0 where
    pub next : Active
    pub text : Bytes
    pub after : Verifier
    pub emitted : process_next inst a payload room ≡ (next, some text)
    pub inline : All IsInline text
    pub accepted : (beyond : ℕ) → process_line v (text ++ payload) beyond line ≡ ok (returned after)
    pub synced : IsSynced alg pk next after
    pub one_more : next.chain.seq ≡ inc64 a.chain.seq
    pub same_privkey : next.signer.privkey ≡ a.signer.privkey
    pub same_strict : after.strict ≡ v.strict

  -- The chain hash behind the next message.
  abbrev pub hash_after : (HashAlg → Bytes → Bytes) → Active → Bytes → Bytes
  hash_after hash a payload = link hash a.chain.alg a.chain.current a.chain.seq payload

  module _ {hash : HashAlg → Bytes → Bytes} (d : IsDigest hash) (a : Active) (payload : Bytes) where
    pub new_width :
        (alg : HashAlg) → a.chain.alg ≡ alg → length (hash_after hash a payload) ≡ hash_len alg
    new_width alg e = d.hash_width a.chain.alg _ ∙ ap hash_len e

    pub new_bytes : All IsByte (hash_after hash a payload)
    new_bytes = d.hash_bytes a.chain.alg _

    pub hashed :
        (alg : HashAlg) (pk : h.Pkey) (v : Verifier)
        → IsSynced alg pk a v
        → hash_chain v.hash_alg v.chain_hash v.next_seq payload ≡ some (hash_after hash a payload)
    hashed alg pk v s =
        ap (λ x. hash_chain x v.chain_hash v.next_seq payload) (s.verifier_alg ∙ sym s.alg_is)
        ∙ ap (λ x. hash_chain a.chain.alg x v.next_seq payload) s.same_hash
        ∙ ap (λ x. hash_chain a.chain.alg a.chain.current x payload) s.same_seq
        ∙ hash_chain-link d a.chain.alg a.chain.current a.chain.seq payload

  abbrev pub msg_record : ℕ → Bytes → SdRecord
  msg_record seq new = record empty_record { seq = seq; chain_hash = new }

  abbrev pub sig_record : ℕ → Bytes → ℕ → Bytes → SdRecord
  sig_record seq new from sig = record empty_record {
    sd_type = b'S';
    seq = seq;
    chain_hash = new;
    seq_from = from;
    seq_to = seq;
    signature = sig;
    has_signature = true;
  }

module _ ⦃h : Host⦄ {hash : HashAlg → Bytes → Bytes} (d : IsDigest hash) (b64 : IsBase64)
    (inst : Instance) (room : ℕ) (enough : sd_max_len ≤ room) (alg : HashAlg) (pk : h.Pkey)
    (a : Active) (v : Verifier) (payload : Bytes) (line : ℕ) (p : IsStorable payload)
    (small : a.chain.seq + 1 < u64_mod) (s : IsSynced alg pk a v) where
  pub step-msg :
      inc64 a.chain.msg_count < inst.sign_interval → Accepted inst room alg pk a v payload line
  step-msg c =
      let new = hash_after hash a payload in
      let below : a.chain.seq < u64_mod = omega arith in
      record {
        next = _;
        text = sd_element sd_prefix (msg_params a.chain.seq new);
        after = advanced v new;
        emitted = process_next-msg d inst a payload room enough below s.is_open c;
        inline = msg-IsInline a.chain.seq new (new_bytes d a payload);
        accepted = λ beyond.
            process_line-msg v (msg_params a.chain.seq new) (msg_record a.chain.seq new) payload
              beyond line (msg_params-IsClean a.chain.seq new (new_bytes d a payload))
              (parse_sd-msg alg a.chain.seq new below (new_width d a payload alg s.alg_is)
                (new_bytes d a payload))
              p.no_cert p.short (inl s.in_segment) refl
            ∙ ap ok (
                handle_sd_msg-good (msg_record a.chain.seq new) payload v line (sym s.same_seq)
                  (new_width d a payload alg s.alg_is ∙ sym s.verifier_len)
                  (hashed d a payload alg pk v s) s.in_segment);
        synced = record {
          is_open = s.is_open;
          alg_is = s.alg_is;
          verifier_alg = s.verifier_alg;
          verifier_len = s.verifier_len;
          same_hash = refl;
          same_seq = ap inc64 s.same_seq;
          same_range = s.same_range;
          from_small = s.from_small;
          in_segment = s.in_segment;
          has_key = s.has_key;
          no_errors = s.no_errors;
        };
        one_more = refl;
        same_privkey = refl;
        same_strict = refl;
      }

  -- The verifier behind the line of a signature.
  abbrev pub behind_sig : Verifier
  behind_sig = record (advanced v (hash_after hash a payload)) {
    last_signed_seq = a.chain.seq;
    sig_count = inc64 v.sig_count;
  }

  abbrev pub sig_text : (Bytes → Bytes) → Bytes
  sig_text sign =
      let new = hash_after hash a payload in
      sd_element sd_prefix
        (sig_params a.chain.seq new a.sig_seq_from a.chain.seq (h.encode_block (sign new)))

  -- The line of a signature of the new chain hash that the verifier's key accepts.
  pub sig_taken :
      (sign : Bytes → Bytes)
      → All IsByte (sign (hash_after hash a payload))
      → length (sign (hash_after hash a payload)) ≤ sig_len_max
      → hcs_verify pk (hash_after hash a payload) (sign (hash_after hash a payload)) ≡ good
      → (beyond : ℕ)
      → process_line v (sig_text sign ++ payload) beyond line ≡ ok (returned behind_sig)
  sig_taken sign bytes short accepted beyond =
      let new = hash_after hash a payload in
      let below : a.chain.seq < u64_mod = omega arith in
      process_line-sig v
        (sig_params a.chain.seq new a.sig_seq_from a.chain.seq (h.encode_block (sign new)))
        (sig_record a.chain.seq new a.sig_seq_from (sign new)) payload beyond line
        (sig_params-IsClean a.chain.seq new (new_bytes d a payload) a.sig_seq_from a.chain.seq _
          (b64.encode_plain (sign new) bytes))
        (parse_sd-sig alg a.chain.seq new below (new_width d a payload alg s.alg_is)
          (new_bytes d a payload) b64 a.sig_seq_from a.chain.seq (sign new) s.from_small below bytes
          short)
        p.no_cert p.short (inl s.in_segment) refl
      ∙ ap ok (
          handle_sd_sig-good (sig_record a.chain.seq new a.sig_seq_from (sign new)) payload v line
            (sym s.same_seq) (new_width d a payload alg s.alg_is ∙ sym s.verifier_len)
            (hashed d a payload alg pk v s) pk s.in_segment refl (sym s.same_range)
            (rw s.same_seq (sym (sub64-inc64 a.chain.seq below))) s.has_key accepted)

  -- One that the private key of the verifier's key has made.
  pub sig_accepted :
      {priv : h.Pkey} (sign : Bytes → Bytes) (k : IsKeyPair priv pk sign) (beyond : ℕ)
      → process_line v (sig_text sign ++ payload) beyond line ≡ ok (returned behind_sig)
  sig_accepted sign k =
      let new = hash_after hash a payload in
      sig_taken sign (k.bytes new) (k.short new) (hcs_verify-sign k new)

  pub sig_text-IsInline :
      (unbroken : IsUnbroken) {priv : h.Pkey} (sign : Bytes → Bytes) (k : IsKeyPair priv pk sign)
      → All IsInline (sig_text sign)
  sig_text-IsInline unbroken sign k =
      let new = hash_after hash a payload in
      sig-IsInline a.chain.seq new (new_bytes d a payload) a.sig_seq_from a.chain.seq
        (h.encode_block (sign new)) (unbroken.encode_inline (sign new) (k.bytes new))

  pub step-sig :
      (unbroken : IsUnbroken) (sign : Bytes → Bytes)
      → IsKeyPair a.signer.privkey pk sign
      → inst.sign_interval ≤ inc64 a.chain.msg_count
      → Accepted inst room alg pk a v payload line
  unfolding reset_count
  step-sig unbroken sign k c =
      let below : a.chain.seq < u64_mod = omega arith in
      record {
        next = _;
        text = sig_text sign;
        after = behind_sig;
        emitted = process_next-sig d inst a payload room enough below k b64 s.is_open c;
        inline = sig_text-IsInline unbroken sign k;
        accepted = sig_accepted sign k;
        synced = record {
          is_open = s.is_open;
          alg_is = s.alg_is;
          verifier_alg = s.verifier_alg;
          verifier_len = s.verifier_len;
          same_hash = refl;
          same_seq = ap inc64 s.same_seq;
          same_range = refl;
          from_small = omega (arith, inc64-eq a.chain.seq small);
          in_segment = s.in_segment;
          has_key = s.has_key;
          no_errors = s.no_errors;
        };
        one_more = refl;
        same_privkey = refl;
        same_strict = refl;
      }
