-- ===== src/Pipeline/Restart.antt =====
-- A worker that is freed and created again: the signature that it emits for the messages of the
-- run before.
pub mod Resume
pub mod Log
pub mod Crash
use mmhashchainsigs.Base.{
  All, Bool, Bytes, IsByte, Option, ap, arith, bytes_eq, bytes_eq_refl, drop, false, inc64, length,
  none, refl, replicate, some, sub64, sub64-inc64, sym, take, take-append, true, u64_mod, ℕ, ◌++◌,
  ◌+◌, ◌<◌, ◌==◌, ◌∙◌, ◌≡◌, ◌≤◌,
}
use mmhashchainsigs.Crypto.Alg.{
  HashAlg, alg_eq, alg_eq_refl, fp_len, hash_len, hash_len-le, hash_len_max,
}
use mmhashchainsigs.Crypto.Hash.{chain_init_hash, chain_iv, uint64_to_be}
use mmhashchainsigs.Crypto.Hash.Laws.{IsDigest, IsKeyPair, hash_chain-link, hcs_sign-sign}
use mmhashchainsigs.Crypto.Host.{Host}
use mmhashchainsigs.Format.Codec.Laws.{IsBase64}
use mmhashchainsigs.Format.Element.{sd_element, sig_params}
use mmhashchainsigs.Format.Element.Bounds.{format_sd_sig_total, sd_max_len}
use mmhashchainsigs.Format.Element.Ids.{sd_prefix}
use mmhashchainsigs.HashChain.{HashChain, chain_init, chain_update}
use mmhashchainsigs.Pipeline.Step.{hash_after}
use mmhashchainsigs.Signer.{signer_sign}
use mmhashchainsigs.Worker.Instance.{create_worker, free_worker}
use mmhashchainsigs.Worker.Process.{
  element, process_final, restarted, restore, sign_restored, worker_free,
}
use mmhashchainsigs.Worker.State.{Active, Instance, SavedState, Worker}
use mmhashchainsigs.Worker.StateFile.{save_state, state_of}
use mmhashchainsigs.Worker.StateFile.RoundTrip.{load_state-state_text}

-- What is read back from a state file.
abbrev pub loaded : SavedState → SavedState
loaded st = record st {
  hash_len = hash_len st.hash_alg;
  chain_hash = st.chain_hash ++ drop (length st.chain_hash) (replicate 64 0);
}

module _ ⦃h : Host⦄ where
  -- A state that can be saved: the chain hash has the algorithm's width and the fingerprint 32
  -- bytes, and both numbers fit.
  pub record IsSavable (a : Active) : Type 0 where
    pub width : length a.chain.current ≡ hash_len a.chain.alg
    pub bytes : All IsByte a.chain.current
    pub fp_width : length a.signer.pubkey_fp ≡ fp_len
    pub fp_bytes : All IsByte a.signer.pubkey_fp
    pub seq_small : a.chain.seq + 1 < u64_mod
    pub from_small : a.sig_seq_from < u64_mod

  -- A worker that is freed with unsigned messages leaves a state file that the next one is created
  -- with.
  pub saved_and_loaded :
      (inst : Instance) (dir : Bytes) (a : Active) (pending : Option SavedState)
      (file : Option Bytes)
      → IsSavable a
      → inst.statefiledir ≡ some dir
      → 0 < a.chain.msg_count
      → let w : Worker = record {
        inst = inst;
        active = some a;
        pending_state = pending;
        state_file = file;
      } in
        let kept = (free_worker 1 w true true true).1.state_file in
        create_worker 0 inst kept ≡ (
          1,
          some (record {
            inst = inst;
            active = none;
            pending_state = some (loaded (state_of a));
            state_file = kept;
          }),
        )
  unfolding free_worker create_worker save_state worker_free
  saved_and_loaded inst dir a pending file s e n =
      let kept : a.chain.msg_count == 0 ≡ false = ground (arith, n) in
      rw (e, kept)
        (rw
          (load_state-state_text (state_of a) s.width s.bytes s.fp_width s.fp_bytes
            (omega (arith, s.seq_small)) s.from_small)
          refl)

module _ ⦃h : Host⦄ {hash : HashAlg → Bytes → Bytes} (d : IsDigest hash) (b64 : IsBase64)
    (inst : Instance) (room : ℕ) (enough : sd_max_len ≤ room) (a b : Active) (payload : Bytes)
    (s : IsSavable a) (same_alg : a.chain.alg ≡ inst.hash_alg)
    (same_fp : b.signer.pubkey_fp ≡ a.signer.pubkey_fp) where
  abbrev restored : HashChain
  restored = record (a.chain) { hash_len = hash_len a.chain.alg; msg_count = 0 }

  abbrev extended : HashChain
  extended = record restored {
    current = hash_after hash a payload;
    seq = inc64 a.chain.seq;
    msg_count = inc64 0;
  }

  restored_update : chain_update restored payload ≡ some extended
  unfolding chain_update
  restored_update =
      rw (hash_chain-link d a.chain.alg a.chain.current a.chain.seq payload, chain_update)

  same_current : take (hash_len a.chain.alg) (loaded (state_of a)).chain_hash ≡ a.chain.current
  same_current =
      ap (λ n. take n (loaded (state_of a)).chain_hash) (sym s.width)
      ∙ take-append a.chain.current _

  pub init_lem :
      (alg : HashAlg)
      → chain_init alg ≡ (
        record {
          alg = alg;
          hash_len = hash_len alg;
          current = hash alg chain_iv;
          seq = 1;
          msg_count = 0;
        },
        true,
      )
  unfolding chain_init chain_init_hash
  init_lem alg = rw (d.digest_total alg chain_iv, chain_init) refl

  abbrev final_text : (Bytes → Bytes) → Bytes
  final_text sign =
      let new = hash_after hash a payload in
      sd_element sd_prefix
        (sig_params a.chain.seq new a.sig_seq_from a.chain.seq (h.encode_block (sign new)))

  number : sub64 (inc64 a.chain.seq) 1 ≡ a.chain.seq
  number = sub64-inc64 a.chain.seq (omega (arith, s.seq_small))

  narrow : length (hash_after hash a payload) ≤ hash_len_max
  narrow = omega (
    arith,
    d.hash_width a.chain.alg (a.chain.current ++ (uint64_to_be a.chain.seq ++ payload)),
    hash_len-le a.chain.alg,
  )

  -- With the message hashed into the chain that was read back.
  sign_restored-text :
      {pk : h.Pkey} {sign : Bytes → Bytes} (k : IsKeyPair b.signer.privkey pk sign)
      → sign_restored
          (some extended)
          inst
          (record b { chain = restored })
          (loaded (state_of a))
          room
        ≡ (restarted inst b, element (final_text sign))
  unfolding sign_restored signer_sign restarted
  sign_restored-text {sign = sign} k =
      rw (hcs_sign-sign k (hash_after hash a payload), sign_restored, signer_sign)
        (rw number (
          rw (
            format_sd_sig_total a.chain.seq (hash_after hash a payload) room narrow enough b64
              a.sig_seq_from a.chain.seq (sign (hash_after hash a payload))
              (k.short (hash_after hash a payload)))))

  pub process_final-restored :
      {pk : h.Pkey} {sign : Bytes → Bytes} (k : IsKeyPair b.signer.privkey pk sign)
      → process_final inst b (loaded (state_of a)) payload room
        ≡ (restarted inst b, element (final_text sign))
  unfolding process_final restore restarted
  process_final-restored k =
      let f : bytes_eq b.signer.pubkey_fp a.signer.pubkey_fp ≡ true =
        ap (λ x. bytes_eq x a.signer.pubkey_fp) same_fp ∙ bytes_eq_refl a.signer.pubkey_fp in
      let g : alg_eq a.chain.alg inst.hash_alg ≡ true =
        ap (alg_eq a.chain.alg) (sym same_alg) ∙ alg_eq_refl a.chain.alg in
      rw (f, g)
        (ap (λ (x : HashChain × Bool). restore x inst b (loaded (state_of a)) payload room)
            (init_lem a.chain.alg)
          ∙ rw same_current (
              ap
                (λ (o : Option HashChain).
                  sign_restored o inst (record b { chain = restored }) (loaded (state_of a)) room)
                restored_update
              ∙ sign_restored-text k))
