-- ===== src/Pipeline/Refused/Inside.antt =====
-- A client that puts a certificate element into its message: the worker hashes it, the verifier
-- takes it out.
use mathlib.Core.List.{mem-cons_self}
use mathlib.Core.Path.{subst}
use mmhashchainsigs.Base.{
  All, Bool-cases, Bytes, IsByte, List, Option, [], ap, arith, bytes_eq, bytes_eq_iff, false, inl,
  inr, length, ok, refl, some, sym, u64_mod, ℕ, ◌++◌, ◌<◌, ◌∙◌, ◌∷◌, ◌≡◌, ◌≢◌, ◌≤◌, ◌⊎◌,
}
use mmhashchainsigs.Cli.Lines.{chomp, run_lines}
use mmhashchainsigs.Crypto.Alg.{HashAlg}
use mmhashchainsigs.Crypto.Hash.{uint64_to_be}
use mmhashchainsigs.Crypto.Hash.Laws.{IsDigest}
use mmhashchainsigs.Crypto.Host.{Host}
use mmhashchainsigs.Format.Codec.Laws.{IsBase64}
use mmhashchainsigs.Format.Element.{cert_der_max, msg_params, sd_element, sig_params}
use mmhashchainsigs.Format.Element.Bounds.{sd_max_len}
use mmhashchainsigs.Format.Element.Clean.{msg_params-IsClean, sig_params-IsClean}
use mmhashchainsigs.Format.Element.Ids.{sd_prefix}
use mmhashchainsigs.Format.Parse.{SdRecord, sig_len_max}
use mmhashchainsigs.Format.Parse.RoundTrip.{parse_sd-msg, parse_sd-sig}
use mmhashchainsigs.Format.Strip.{extract_and_strip_cert_sd}
use mmhashchainsigs.Format.Strip.Shorter.{extract_and_strip_cert_sd-shorter}
use mmhashchainsigs.HashChain.Binding.{Collision, same_or_Collision, split_text}
use mmhashchainsigs.Pipeline.{IsSynced}
use mmhashchainsigs.Pipeline.Refused.{msg_refused, run_lines-refused, sig_refused, text_of}
use mmhashchainsigs.Pipeline.Refused.Emission.{
  Emission, IsSigner, own_signature, plain, process_next-Emission, signed, unsigned,
}
use mmhashchainsigs.Pipeline.Run.{chomp_line}
use mmhashchainsigs.Pipeline.Step.{hash_after, hashed, msg_record, new_bytes, new_width, sig_record}
use mmhashchainsigs.Verifier.Handlers.{Outcome}
use mmhashchainsigs.Verifier.Handlers.Clean.{left_state}
use mmhashchainsigs.Verifier.Handlers.Sound.{Agrees}
use mmhashchainsigs.Verifier.Line.{msg_buf_len, process_line}
use mmhashchainsigs.Verifier.Line.Element.{process_line-carried_msg, process_line-carried_sig}
use mmhashchainsigs.Verifier.State.{Verifier, verifier_finalize, verifier_passed}
use mmhashchainsigs.Worker.Process.{process_next}
use mmhashchainsigs.Worker.State.{Active, Instance}

module _ ⦃h : Host⦄ {hash : HashAlg → Bytes → Bytes} (d : IsDigest hash) (b64 : IsBase64)
    (inst : Instance) (room : ℕ) (enough : sd_max_len ≤ room) (alg : HashAlg) (pk : h.Pkey)
    (a : Active) (v : Verifier) (s : IsSynced alg pk a v) (small : a.chain.seq < u64_mod)
    (msg q der : Bytes)
    (found : extract_and_strip_cert_sd msg msg_buf_len cert_der_max ≡ ok (q, some der)) where
  -- The worker hashes the one text, and the verifier the other.
  abbrev pub Clashing : Type 0
  Clashing =
      Collision hash alg ((a.chain.current ++ (uint64_to_be a.chain.seq ++ msg)) ∷ [])
        ((a.chain.current ++ (uint64_to_be a.chain.seq ++ q)) ∷ [])

  longer : msg ≢ q
  longer = λ e.
      omega
        (arith, ap length e, extract_and_strip_cert_sd-shorter msg msg_buf_len cert_der_max found)

  same_hash : hash_after hash a msg ≡ hash_after hash a q → Clashing
  same_hash e =
      elim (same_or_Collision alg mem-cons_self mem-cons_self (
        ap (λ (x : HashAlg). hash x (a.chain.current ++ (uint64_to_be a.chain.seq ++ msg)))
          (sym s.alg_is)
        ∙ e
        ∙ ap (λ (x : HashAlg). hash x (a.chain.current ++ (uint64_to_be a.chain.seq ++ q)))
            s.alg_is)) [
              | inr c ↦ c
              | inl text ↦ absurd (longer (split_text a.chain.seq a.chain.seq msg q refl text).2)
            ]

  -- The record holds the hash of what was hashed.
  differ :
      (sd : SdRecord)
      → sd.chain_hash ≡ hash_after hash a msg
      → bytes_eq (hash_after hash a msg) (hash_after hash a q) ≡ false
      → Agrees sd q v
      → ⊥
  differ sd t other g = not_same t (sym g.same_hash ∙ hashed d a q alg pk v s) other
    where
      not_same : {x y z : Bytes} → x ≡ y → some x ≡ some z → bytes_eq y z ≡ false → ⊥
      not_same {x} {y} {z} e f n = ground (arith, bytes_eq_iff y z)

  module _ (end_kept : chomp msg ≡ (msg, 0)) (short : length msg < msg_buf_len) (rest : List Bytes)
      (line : ℕ) (w : Verifier) where
    -- What the stored line does to a log.
    abbrev Refused : Bytes → Type 0
    Refused text =
        run_lines v ((text ++ (msg ++ b'\n' ∷ [])) ∷ rest) line ≡ ok w
        → (verifier_passed (verifier_finalize w) ≡ false) ⊎ Clashing

    verdict :
        (text : Bytes) (sd : SdRecord) {o : Outcome Verifier}
        → sd.chain_hash ≡ hash_after hash a msg
        → process_line v (text ++ msg) b'\n' line ≡ ok o
        → ((Agrees sd q v → ⊥) → (left_state o).errors ≢ [])
        → Refused text
    verdict text sd t p f r =
        elim (Bool-cases (bytes_eq (hash_after hash a msg) (hash_after hash a q))) [
          | inl same ↦ inr (same_hash ((bytes_eq_iff _ _).0 same))
          | inr other ↦ inl (
              run_lines-refused v (text ++ (msg ++ b'\n' ∷ [])) rest line
                (chomp_line text msg end_kept some_byte) p (f (differ sd t other)) r)
        ]
      where
        some_byte : 0 < length msg
        some_byte =
            omega (arith, extract_and_strip_cert_sd-shorter msg msg_buf_len cert_der_max found)

    new : Bytes
    new = hash_after hash a msg

    msg_line : Refused (sd_element sd_prefix (msg_params a.chain.seq new))
    unfolding new
    msg_line =
        let sd = msg_record a.chain.seq new in
        verdict (sd_element sd_prefix (msg_params a.chain.seq new)) sd refl
          (process_line-carried_msg v (msg_params a.chain.seq new) sd q b'\n' line
            (msg_params-IsClean a.chain.seq new (new_bytes d a msg))
            (parse_sd-msg alg a.chain.seq new small (new_width d a msg alg s.alg_is)
              (new_bytes d a msg))
            msg der found short s.in_segment refl)
          (msg_refused d sd q v line refl)

    sig_line :
        (sig : Bytes)
        → All IsByte sig
        → length sig ≤ sig_len_max
        → Refused (
            sd_element sd_prefix
              (sig_params a.chain.seq new a.sig_seq_from a.chain.seq (h.encode_block sig)))
    unfolding new
    sig_line sig sig_bytes sig_short =
        let sd = sig_record a.chain.seq new a.sig_seq_from sig in
        let params = sig_params a.chain.seq new a.sig_seq_from a.chain.seq (h.encode_block sig) in
        verdict (sd_element sd_prefix params) sd refl
          (process_line-carried_sig v params sd q b'\n' line
            (sig_params-IsClean a.chain.seq new (new_bytes d a msg) a.sig_seq_from a.chain.seq _
              (b64.encode_plain sig sig_bytes))
            (parse_sd-sig alg a.chain.seq new small (new_width d a msg alg s.alg_is)
              (new_bytes d a msg) b64 a.sig_seq_from a.chain.seq sig s.from_small small sig_bytes
              sig_short)
            msg der found short s.in_segment refl)
          (sig_refused d sd q v line refl)

    emitted_line :
        (signs : IsSigner a.signer) (b : Active) (text : Bytes)
        → Emission hash a msg (b, some text)
        → Refused text
    unfolding new
    emitted_line signs b text (unsigned e) = absurd (ground arith)
    emitted_line signs b text (plain e) = subst Refused (sym (text_of _ _ _ _ e)) msg_line
    emitted_line signs b text (signed sig made e) =
        let (sig_bytes, sig_short) =
          own_signature d b64 inst room enough alg a.signer signs a new sig refl made in
        subst Refused (sym (text_of _ _ _ _ e)) (sig_line sig sig_bytes sig_short)

-- A message in which the verifier finds a certificate element makes the log of an honest worker
-- fail: for a worker whose lines a verifier has followed, no log passes in which the line that it
-- emits for this message is the next one, whatever is behind it, unless the message and what the
-- verifier leaves of it are different texts with the same digest behind the chain hash and the
-- number. The message has less than 8192 bytes and no newline or carriage return at its end, the
-- log is read inside the buffers, the signer may fail and makes signatures of at most 144 bytes,
-- the SD buffer has 512 bytes or more, the sequence number is below 2^64, and OpenSSL's digests and
-- base64 work as documented.
pub cert_in_message_refused :
    ⦃h : Host⦄
    → {hash : HashAlg → Bytes → Bytes} (d : IsDigest hash) (b64 : IsBase64) (inst : Instance)
      (room : ℕ) (alg : HashAlg) (pk : h.Pkey) (a : Active) (v : Verifier) (msg q der : Bytes)
      (rest : List Bytes) (line : ℕ) {b : Active} {text : Bytes} {w : Verifier}
    → sd_max_len ≤ room
    → IsSynced alg pk a v
    → a.chain.seq < u64_mod
    → IsSigner a.signer
    → extract_and_strip_cert_sd msg msg_buf_len cert_der_max ≡ ok (q, some der)
    → length msg < msg_buf_len
    → chomp msg ≡ (msg, 0)
    → process_next inst a msg room ≡ (b, some text)
    → run_lines v ((text ++ (msg ++ b'\n' ∷ [])) ∷ rest) line ≡ ok w
    → (verifier_passed (verifier_finalize w) ≡ false)
      ⊎ Collision hash alg
          ((a.chain.current ++ (uint64_to_be a.chain.seq ++ msg)) ∷ [])
          ((a.chain.current ++ (uint64_to_be a.chain.seq ++ q)) ∷ [])
cert_in_message_refused {hash = hash} d b64 inst room alg pk a v msg q der rest line {b} {text} {w}
      enough s small signs found short end_kept e =
    emitted_line d b64 inst room enough alg pk a v s small msg q der found end_kept short rest line
      w signs b text
      (subst (λ (r : Active × Option Bytes). Emission hash a msg r) e
        (process_next-Emission d b64 inst room enough alg a.signer signs a msg a.chain.seq
          (record {
            is_open = s.is_open;
            alg_is = s.alg_is;
            signer_is = refl;
            number = refl;
            from_small = s.from_small;
          })
          small))
