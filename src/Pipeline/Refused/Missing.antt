-- ===== src/Pipeline/Refused/Missing.antt =====
-- Messages that the worker has hashed and that the log does not hold: lines that were lost, or
-- messages whose signature has failed.
use mmhashchainsigs.Base.{
  Bytes, List, Option, [], arith, false, length, ok, refl, some, sym, u64_mod, ℕ, ◌++◌, ◌+◌, ◌<◌,
  ◌∙◌, ◌∷◌, ◌≡◌, ◌≢◌, ◌≤◌, inl,
}
use mathlib.Core.Path.{subst}
use mmhashchainsigs.Cli.Lines.{run_lines}
use mmhashchainsigs.Crypto.Alg.{HashAlg}
use mmhashchainsigs.Crypto.Hash.Laws.{IsDigest}
use mmhashchainsigs.Crypto.Host.{Host}
use mmhashchainsigs.Format.Codec.Laws.{IsBase64}
use mmhashchainsigs.Format.Element.{msg_params, sig_params}
use mmhashchainsigs.Format.Element.Bounds.{sd_max_len}
use mmhashchainsigs.Format.Element.Clean.{msg_params-IsClean, sig_params-IsClean}
use mmhashchainsigs.Format.Parse.{SdRecord}
use mmhashchainsigs.Format.Parse.RoundTrip.{parse_sd-msg, parse_sd-sig}
use mmhashchainsigs.Pipeline.{IsStorable, IsSynced}
use mmhashchainsigs.Pipeline.Refused.{msg_refused, run_lines-refused, sig_refused, text_of}
use mmhashchainsigs.Pipeline.Refused.Emission.{
  Emission, IsAt, IsSigner, own_signature, plain, process_next-Emission, signed, unsigned,
  worker_after-IsAt,
}
use mmhashchainsigs.Pipeline.Run.{chomp_line}
use mmhashchainsigs.Pipeline.Step.{hash_after, msg_record, new_bytes, new_width, sig_record}
use mmhashchainsigs.Signer.{Signer}
use mmhashchainsigs.Verifier.Handlers.{Outcome, handle_sd_msg, handle_sd_sig}
use mmhashchainsigs.Verifier.Handlers.Clean.{left_state}
use mmhashchainsigs.Verifier.Handlers.Sound.{Agrees}
use mmhashchainsigs.Verifier.Line.{process_line}
use mmhashchainsigs.Verifier.Line.Element.{process_line-msg, process_line-sig}
use mmhashchainsigs.Verifier.State.{Verifier, processing, verifier_finalize, verifier_passed}
use mmhashchainsigs.Worker.Process.{process_next}
use mmhashchainsigs.Worker.Process.Interval.{worker_after}
use mmhashchainsigs.Worker.State.{Active, Instance}

module _ ⦃h : Host⦄ {hash : HashAlg → Bytes → Bytes} (d : IsDigest hash) (b64 : IsBase64)
    (inst : Instance) (room : ℕ) (enough : sd_max_len ≤ room) (alg : HashAlg) (s : Signer)
    (signs : IsSigner s) (n : ℕ) (b : Active) (i : IsAt alg s n b) (few : n < u64_mod)
    (v : Verifier) (ahead : n ≢ v.next_seq) (inside : v.state ≡ processing) (q : Bytes)
    (p : IsStorable q) (rest : List Bytes) (line : ℕ) (w : Verifier) where
  -- A line whose record has the worker's number.
  numbered_refused :
      (text : Bytes) (sd : SdRecord) {o : Outcome Verifier}
      → sd.seq ≡ b.chain.seq
      → process_line v (text ++ q) b'\n' line ≡ ok o
      → ((Agrees sd q v → ⊥) → (left_state o).errors ≢ [])
      → run_lines v ((text ++ (q ++ b'\n' ∷ [])) ∷ rest) line ≡ ok w
      → verifier_passed (verifier_finalize w) ≡ false
  numbered_refused text sd e r f =
      run_lines-refused v (text ++ (q ++ b'\n' ∷ [])) rest line
        (chomp_line text q p.end_kept p.some_byte) r
        (f (λ g. ahead (sym (e ∙ i.number) ∙ g.same_seq)))

  small : b.chain.seq < u64_mod
  small = omega (arith, i.number, few)

  -- The line of a worker that is not at the verifier's number.
  ahead_refused :
      (c : Active) (text : Bytes)
      → Emission hash b q (c, some text)
      → run_lines v ((text ++ (q ++ b'\n' ∷ [])) ∷ rest) line ≡ ok w
      → verifier_passed (verifier_finalize w) ≡ false
  ahead_refused c text (unsigned e) = absurd (ground arith)
  ahead_refused c text (plain e) =
      let new = hash_after hash b q in
      let sd = msg_record b.chain.seq new in
      let params = msg_params b.chain.seq new in
      numbered_refused text sd refl
        (subst (λ (t : Bytes). process_line v (t ++ q) b'\n' line ≡ ok (handle_sd_msg sd q v line))
          (sym (text_of _ _ _ _ e))
          (process_line-msg v params sd q b'\n' line
            (msg_params-IsClean b.chain.seq new (new_bytes d b q))
            (parse_sd-msg alg b.chain.seq new small (new_width d b q alg i.alg_is)
              (new_bytes d b q))
            p.no_cert p.short (inl inside) refl))
        (msg_refused d sd q v line refl)
  ahead_refused c text (signed sig made e) =
      let new = hash_after hash b q in
      let sd = sig_record b.chain.seq new b.sig_seq_from sig in
      let params = sig_params b.chain.seq new b.sig_seq_from b.chain.seq (h.encode_block sig) in
      let (bytes, short) =
        own_signature d b64 inst room enough alg s signs b new sig i.signer_is made in
      numbered_refused text sd refl
        (subst (λ (t : Bytes). process_line v (t ++ q) b'\n' line ≡ ok (handle_sd_sig sd q v line))
          (sym (text_of _ _ _ _ e))
          (process_line-sig v params sd q b'\n' line
            (sig_params-IsClean b.chain.seq new (new_bytes d b q) b.sig_seq_from b.chain.seq _
              (b64.encode_plain sig bytes))
            (parse_sd-sig alg b.chain.seq new small (new_width d b q alg i.alg_is) (new_bytes d b q)
              b64 b.sig_seq_from b.chain.seq sig i.from_small small bytes short)
            p.no_cert p.short (inl inside) refl))
        (sig_refused d sd q v line refl)

-- A log that lacks messages of the worker's chain does not pass: if a worker whose lines a verifier
-- has followed hashes one message or more, whether their lines are lost or their signatures fail,
-- and then emits an element for a storable message, then no log passes in which this line is the
-- next one that the verifier reads, whatever is behind it. The log is read inside the buffers, the
-- signer may fail and makes signatures of at most 144 bytes, the SD buffer has 512 bytes or more,
-- the sequence numbers are below 2^64, and OpenSSL's digests and base64 work as documented.
pub missing_line_refused :
    ⦃h : Host⦄
    → {hash : HashAlg → Bytes → Bytes} (d : IsDigest hash) (b64 : IsBase64) (inst : Instance)
      (room : ℕ) (alg : HashAlg) (pk : h.Pkey) (a : Active) (v : Verifier) (missing : List Bytes)
      (q : Bytes) (rest : List Bytes) (line : ℕ) {c : Active} {text : Bytes} {w : Verifier}
    → sd_max_len ≤ room
    → IsSynced alg pk a v
    → IsSigner a.signer
    → 0 < length missing
    → a.chain.seq + length missing < u64_mod
    → IsStorable q
    → process_next inst (worker_after inst a missing room) q room ≡ (c, some text)
    → run_lines v ((text ++ (q ++ b'\n' ∷ [])) ∷ rest) line ≡ ok w
    → verifier_passed (verifier_finalize w) ≡ false
missing_line_refused {hash = hash} d b64 inst room alg pk a v missing q rest line {c} {text} {w}
      enough s signs some_missing few p e =
    let n = a.chain.seq + length missing in
    let i =
      worker_after-IsAt d b64 inst room enough alg a.signer signs missing a a.chain.seq
        (record {
          is_open = s.is_open;
          alg_is = s.alg_is;
          signer_is = refl;
          number = refl;
          from_small = s.from_small;
        })
        few in
    ahead_refused d b64 inst room enough alg a.signer signs n (worker_after inst a missing room) i
      few v (λ same. omega (arith, same, s.same_seq)) s.in_segment q p rest line w c text
      (subst (λ (r : Active × Option Bytes). Emission hash (worker_after inst a missing room) q r) e
        (process_next-Emission d b64 inst room enough alg a.signer signs
          (worker_after inst a missing room) q n i few))
