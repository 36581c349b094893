-- ===== src/Worker/Process/Ranges.antt =====
-- The worker's bookkeeping: the next signature begins behind the last one.
use mathlib.Core.Path.{subst}
use mmhashchainsigs.Base.{
  Bool-cases, Bytes, Option, Option-cases, [], arith, bind-some, false, if_false, if_true, inc64,
  inl, inr, leb, none, some, sub64, sym, true, u64_mod, ℕ, ◌+◌, ◌<◌, ◌==◌, ◌∙◌, ◌≡◌,
}
use mmhashchainsigs.Crypto.Hash.{hash_chain}
use mmhashchainsigs.Crypto.Host.{Host}
use mmhashchainsigs.Format.Element.{format_sd_init}
use mmhashchainsigs.HashChain.{HashChain, chain_update, reset_count}
use mmhashchainsigs.Signer.{Signer, signer_get_cert_der, signer_sign}
use mmhashchainsigs.Worker.Process.{
  append_cert, emit, emit_init, emit_sig, final_element, final_sign, final_signed, process_next,
  with_cert,
}
use mmhashchainsigs.Worker.State.{Active, Instance}

module _ ⦃h : Host⦄ where
  -- The messages behind the last signature are those from `sig_seq_from` on: their number is
  -- `msg_count`.
  pub record IsCounted (a : Active) : Type 0 where
    pub range : a.chain.seq ≡ a.sig_seq_from + a.chain.msg_count
    pub above : a.chain.seq < u64_mod

  chain_update-counts :
      (c : HashChain) (m : Bytes) {e : HashChain}
      → chain_update c m ≡ some e
      → (e.seq ≡ inc64 c.seq) × (e.msg_count ≡ inc64 c.msg_count)
  unfolding chain_update
  chain_update-counts c m r =
      let (x, hashed, same) = bind-some (hash_chain c.alg c.current c.seq m) _ r in ground arith

  -- The certificate is kept in the signer alone.
  append_cert-IsCounted :
      (found : Signer × Option Bytes) (a : Active) (sd : Bytes) (room : ℕ)
      → IsCounted a
      → IsCounted ((append_cert found a sd room).0)
  unfolding append_cert
  append_cert-IsCounted (s, none) a sd room c = record { range = c.range; above = c.above }
  append_cert-IsCounted (s, some der) a sd room c = record { range = c.range; above = c.above }

  with_cert-IsCounted :
      (inst : Instance) (a : Active) (sd : Option Bytes) (room : ℕ)
      → IsCounted a
      → IsCounted ((with_cert inst a sd room).0)
  unfolding with_cert append_cert
  with_cert-IsCounted inst a none room c = c
  with_cert-IsCounted inst a (some sd) room c = elim (Bool-cases inst.embedcert) [
    | inl e ↦ rw e (append_cert-IsCounted (signer_get_cert_der a.signer) a sd room c)
    | inr e ↦ rw e c
  ]

  next_from : (n : ℕ) → n < u64_mod → 0 < n → n ≡ inc64 (sub64 n 1) + 0
  unfolding inc64 sub64
  next_from n above p = omega arith

  emit_sig-IsCounted :
      (a : Active) (room : ℕ) → IsCounted a → 0 < a.chain.seq → IsCounted ((emit_sig a room).0)
  unfolding emit_sig reset_count
  emit_sig-IsCounted a room c p = elim (Option-cases (signer_sign a.signer a.chain.current)) [
    | inl e ↦ rw (e, emit_sig) c
    | inr (s, e) ↦
        rw (e, emit_sig) (record { range = next_from a.chain.seq c.above p; above = c.above })
  ]

  emit-IsCounted :
      (inst : Instance) (a : Active) (room : ℕ)
      → IsCounted a
      → 0 < a.chain.seq
      → IsCounted ((emit inst a room).0)
  unfolding emit emit_init
  emit-IsCounted inst a room c p = elim (Bool-cases a.is_first) [
    | inl e ↦ keeps (sym (if_true _ _ e)) (
        with_cert-IsCounted inst (record a { is_first = false })
          (format_sd_init (sub64 a.chain.seq 1) a.chain.current a.signer.pubkey_fp room) room
          (record { range = c.range; above = c.above }))
    | inr e ↦ elim (Bool-cases (leb inst.sign_interval a.chain.msg_count)) [
      | inl due ↦ keeps (sym (if_false _ _ e ∙ if_true _ _ due)) (emit_sig-IsCounted a room c p)
      | inr below ↦ keeps (sym (if_false _ _ e ∙ if_false _ _ below)) c
    ]
  ]
    where
      keeps : {x y : Active × Option Bytes} → x ≡ y → IsCounted (x.0) → IsCounted (y.0)
      keeps e = subst (λ (z : Active × Option Bytes). IsCounted (z.0)) e

  -- A chain with one more message counts it.
  counted :
      (a : Active) (e : HashChain)
      → IsCounted a
      → a.chain.seq + 1 < u64_mod
      → (e.seq ≡ inc64 a.chain.seq) × (e.msg_count ≡ inc64 a.chain.msg_count)
      → IsCounted (record a { chain = e }) × (0 < e.seq)
  unfolding inc64
  counted a e c small (es, em) =
      (record { range = omega (arith, c.range); above = omega arith }, omega arith)

  -- A message keeps the count of a worker whose sequence number is the start of the next
  -- signature's range plus the number of unsigned messages, whatever is emitted and whichever
  -- call fails, while the number stays below 2^64.
  pub process_next-IsCounted :
      (inst : Instance) (a : Active) (payload : Bytes) (room : ℕ)
      → IsCounted a
      → a.chain.seq + 1 < u64_mod
      → IsCounted ((process_next inst a payload room).0)
  unfolding process_next
  process_next-IsCounted inst a payload room c small =
      elim (Option-cases (chain_update a.chain payload)) [
        | inl e ↦ rw (e, process_next) c
        | inr (x, e) ↦
            let (counts, p) = counted a x c small (chain_update-counts a.chain payload e) in
            rw (e, process_next) (emit-IsCounted inst (record a { chain = x }) room counts p)
      ]

  final_element-IsCounted :
      (a : Active) (sig : Bytes) (sd : Option Bytes)
      → IsCounted a
      → 0 < a.chain.seq
      → IsCounted ((final_element a (sub64 a.chain.seq 1) sig sd).0)
  unfolding final_element reset_count
  final_element-IsCounted a sig none c p = c
  final_element-IsCounted a sig (some sd) c p = record {
    range = next_from a.chain.seq c.above p;
    above = c.above;
  }

  final_signed-IsCounted :
      (a : Active) (room : ℕ) → IsCounted a → 0 < a.chain.seq → IsCounted ((final_signed a room).0)
  unfolding final_signed
  final_signed-IsCounted a room c p = elim (Option-cases (signer_sign a.signer a.chain.current)) [
    | inl e ↦ rw (e, final_signed) c
    | inr (s, e) ↦ rw (e, final_signed) (final_element-IsCounted a s _ c p)
  ]

  -- What the final signature does, with a message in the chain or none.
  final_sign-idle :
      (a : Active) (room : ℕ) → (a.chain.msg_count == 0) ≡ true → final_sign a room ≡ (a, some [])
  unfolding final_sign
  final_sign-idle a room idle = ground arith

  final_sign-none :
      (a : Active) (room : ℕ)
      → (a.chain.msg_count == 0) ≡ false
      → chain_update a.chain [] ≡ none
      → final_sign a room ≡ (a, none)
  unfolding final_sign
  final_sign-none a room busy e = ground arith

  final_sign-some :
      (a : Active) (room : ℕ) (x : HashChain)
      → (a.chain.msg_count == 0) ≡ false
      → chain_update a.chain [] ≡ some x
      → final_sign a room ≡ final_signed (record a { chain = x }) room
  unfolding final_sign
  final_sign-some a room x busy e = ground arith

  keeps_count : {x y : Active × Option Bytes} → x ≡ y → IsCounted (y.0) → IsCounted (x.0)
  keeps_count e = subst (λ (z : Active × Option Bytes). IsCounted (z.0)) (sym e)

  -- The final signature keeps the count of a worker whose sequence number is the start of the next
  -- signature's range plus the number of unsigned messages, whether it is signed, fails or has
  -- nothing to sign, while the number stays below 2^64.
  pub final_sign-IsCounted :
      (a : Active) (room : ℕ)
      → IsCounted a
      → a.chain.seq + 1 < u64_mod
      → IsCounted ((final_sign a room).0)
  final_sign-IsCounted a room c small = elim (Bool-cases (a.chain.msg_count == 0)) [
    | inl idle ↦ keeps_count (final_sign-idle a room idle) c
    | inr busy ↦ elim (Option-cases (chain_update a.chain [])) [
      | inl e ↦ keeps_count (final_sign-none a room busy e) c
      | inr (x, e) ↦
          let (counts, p) = counted a x c small (chain_update-counts a.chain [] e) in
          keeps_count (final_sign-some a room x busy e)
            (final_signed-IsCounted (record a { chain = x }) room counts p)
    ]
  ]
