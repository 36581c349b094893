-- ===== src/Worker/Process/Emits.antt =====
-- What `mmhashchainsigs_process_msg` emits for a message, on each branch.
use mmhashchainsigs.Base.{
  Bytes, arith, codes, false, if_false, if_true, inc64, length, le→leb, none, some, sub64,
  sub64-inc64, true, u64_mod, ℕ, ◌++◌, ◌-◌, ◌<◌, ◌∙◌, ◌≡◌, ◌≤◌,
}
use mmhashchainsigs.Crypto.Alg.{HashAlg, fp_len, hash_len-le, hash_len_max}
use mmhashchainsigs.Crypto.Hash.{uint64_to_be}
use mmhashchainsigs.Crypto.Hash.Laws.{IsDigest, IsKeyPair, hash_chain-link, hcs_sign-sign, link}
use mmhashchainsigs.Crypto.Host.{Host}
use mmhashchainsigs.Format.Codec.Laws.{IsBase64}
use mmhashchainsigs.Format.Element.{
  format_sd_cert, msg_params, opening_params, sd_element, sig_params,
}
use mmhashchainsigs.Format.Element.Bounds.{
  format_sd_init_total, format_sd_msg_total, format_sd_sig_total, sd_max_len,
}
use mmhashchainsigs.Format.Element.Ids.{sd_prefix}
use mmhashchainsigs.Format.Parse.{sig_len_max}
use mmhashchainsigs.HashChain.{HashChain, chain_update, reset_count}
use mmhashchainsigs.Signer.{Signer, signer_get_cert_der, signer_sign}
use mmhashchainsigs.Worker.Process.{emit_sig, process_next}
use mmhashchainsigs.Worker.State.{Active, Instance}

module _ ⦃h : Host⦄ {hash : HashAlg → Bytes → Bytes} (d : IsDigest hash) (inst : Instance)
    (a : Active) (payload : Bytes) (room : ℕ) (enough : sd_max_len ≤ room)
    (small : a.chain.seq < u64_mod) where
  abbrev new_hash : Bytes
  new_hash = link hash a.chain.alg a.chain.current a.chain.seq payload

  -- The chain with the message.
  abbrev extended : HashChain
  extended = record (a.chain) {
    current = new_hash;
    seq = inc64 a.chain.seq;
    msg_count = inc64 a.chain.msg_count;
  }

  updated : chain_update a.chain payload ≡ some extended
  unfolding chain_update
  updated = rw (hash_chain-link d a.chain.alg a.chain.current a.chain.seq payload, chain_update)

  narrow : length new_hash ≤ hash_len_max
  narrow = omega (
    arith,
    d.hash_width a.chain.alg (a.chain.current ++ (uint64_to_be a.chain.seq ++ payload)),
    hash_len-le a.chain.alg,
  )

  number : sub64 (inc64 a.chain.seq) 1 ≡ a.chain.seq
  number = sub64-inc64 a.chain.seq small

  pub process_next-first :
      a.is_first ≡ true
      → inst.embedcert ≡ false
      → length a.signer.pubkey_fp ≡ fp_len
      → process_next inst a payload room ≡ (
        record a { chain = extended; is_first = false },
        some (
            sd_element sd_prefix
              (opening_params (codes "I") a.chain.seq new_hash a.signer.pubkey_fp)),
      )
  unfolding process_next
  process_next-first f e l =
      rw (updated, process_next)
        (rw number (
          ground (
            arith,
            format_sd_init_total a.chain.seq new_hash room narrow enough a.signer.pubkey_fp l,
          )))

  pub process_next-embedded :
      (s : Signer) (der cert : Bytes)
      → a.is_first ≡ true
      → inst.embedcert ≡ true
      → length a.signer.pubkey_fp ≡ fp_len
      → signer_get_cert_der a.signer ≡ (s, some der)
      → let sd =
          sd_element sd_prefix
            (opening_params (codes "I") a.chain.seq new_hash a.signer.pubkey_fp) in
        format_sd_cert der (room - length sd) ≡ some cert
        → process_next inst a payload room
          ≡ (record a { chain = extended; is_first = false; signer = s }, some (sd ++ cert))
  unfolding process_next
  process_next-embedded s der cert f e l g c =
      rw (updated, process_next)
        (rw number (
          ground (
            arith,
            c,
            format_sd_init_total a.chain.seq new_hash room narrow enough a.signer.pubkey_fp l,
          )))

  pub process_next-msg :
      a.is_first ≡ false
      → inc64 a.chain.msg_count < inst.sign_interval
      → process_next inst a payload room ≡ (
        record a { chain = extended },
        some (sd_element sd_prefix (msg_params a.chain.seq new_hash)),
      )
  unfolding process_next
  process_next-msg f c =
      rw (updated, process_next)
        (rw number (ground (arith, format_sd_msg_total a.chain.seq new_hash room narrow enough)))

  emit_sig-signed :
      (sig : Bytes)
      → IsBase64
      → signer_sign a.signer new_hash ≡ some sig
      → length sig ≤ sig_len_max
      → emit_sig (record a { chain = extended }) room ≡ (
        record a { chain = reset_count extended; sig_seq_from = inc64 a.chain.seq },
        some (
            sd_element sd_prefix
              (sig_params a.chain.seq new_hash a.sig_seq_from a.chain.seq (h.encode_block sig))),
      )
  unfolding emit_sig
  emit_sig-signed sig b64 signs short =
      rw (signs, emit_sig)
        (rw number (
          rw (
            format_sd_sig_total a.chain.seq new_hash room narrow enough b64 a.sig_seq_from
              a.chain.seq sig short)))

  -- Behind the interval a signature is due.
  process_next-due :
      a.is_first ≡ false
      → inst.sign_interval ≤ inc64 a.chain.msg_count
      → process_next inst a payload room ≡ emit_sig (record a { chain = extended }) room
  unfolding process_next
  process_next-due f c = rw (updated, process_next) (if_false _ _ f ∙ if_true _ _ (le→leb _ _ c))

  pub process_next-signed :
      (sig : Bytes)
      → IsBase64
      → signer_sign a.signer new_hash ≡ some sig
      → length sig ≤ sig_len_max
      → a.is_first ≡ false
      → inst.sign_interval ≤ inc64 a.chain.msg_count
      → process_next inst a payload room ≡ (
        record a { chain = reset_count extended; sig_seq_from = inc64 a.chain.seq },
        some (
            sd_element sd_prefix
              (sig_params a.chain.seq new_hash a.sig_seq_from a.chain.seq (h.encode_block sig))),
      )
  process_next-signed sig b64 signs short f c =
      process_next-due f c ∙ emit_sig-signed sig b64 signs short

  -- Where the signature fails, nothing is emitted, and the chain has gone on.
  pub process_next-unsigned :
      signer_sign a.signer new_hash ≡ none
      → a.is_first ≡ false
      → inst.sign_interval ≤ inc64 a.chain.msg_count
      → process_next inst a payload room ≡ (record a { chain = extended }, none)
  unfolding emit_sig
  process_next-unsigned fails f c = process_next-due f c ∙ rw (fails, emit_sig)

  pub process_next-sig :
      {pk : h.Pkey} {sign : Bytes → Bytes} (k : IsKeyPair a.signer.privkey pk sign)
      → IsBase64
      → a.is_first ≡ false
      → inst.sign_interval ≤ inc64 a.chain.msg_count
      → process_next inst a payload room ≡ (
        record a { chain = reset_count extended; sig_seq_from = inc64 a.chain.seq },
        some (
            sd_element sd_prefix (
              sig_params a.chain.seq new_hash a.sig_seq_from a.chain.seq
                (h.encode_block (sign new_hash)))),
      )
  unfolding signer_sign
  process_next-sig {sign = sign} k b64 =
      process_next-signed (sign new_hash) b64 (hcs_sign-sign k new_hash) (k.short new_hash)
