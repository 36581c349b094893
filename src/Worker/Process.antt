-- ===== src/Worker/Process.antt =====
-- `mmhashchainsigs_init`, `_process_msg`, `_final_sign`, `_process_final` and `_free`. The SD
-- buffer is its contents; `room` is `sd_buf_len`.
pub mod Emits
pub mod Ranges
pub mod Interval
use mmhashchainsigs.Base.{
  Bool, Bytes, Option, [], bytes_eq, false, if◌then◌else◌, inc64, leb, length, ltb, none, not, some,
  sub64, take, true, ℕ, ◌++◌, ◌-◌, ◌==◌, ◌>>=◌,
}
use mmhashchainsigs.Crypto.Alg.{alg_eq}
use mmhashchainsigs.Crypto.Host.{Host}
use mmhashchainsigs.Format.Element.{format_sd_cert, format_sd_init, format_sd_msg, format_sd_sig}
use mmhashchainsigs.HashChain.{HashChain, chain_init, chain_update, reset_count}
use mmhashchainsigs.Signer.{Signer, signer_get_cert_der, signer_init, signer_init_x509, signer_sign}
use mmhashchainsigs.Worker.State.{Active, Instance, SavedState, Worker}

-- `-1`, `-2`, or the element.
pub data FinalResult : Type 0 where
  element : Bytes → FinalResult
  final_failed mismatch : FinalResult

-- The path of the key is required by the configuration.
abbrev path_of : Option Bytes → Bytes
path_of none = []
path_of (some p) = p

module _ ⦃h : Host⦄ where
  unfoldable load_signer : Instance → Option Signer
  load_signer inst = elim inst.cert_path [
    | none ↦ signer_init (path_of inst.privkey_path)
    | some cert ↦ signer_init_x509 (path_of inst.privkey_path) cert
  ]

  unfoldable first_state : Signer → HashChain × Bool → Option Active
  first_state signer (chain, true) =
      some (record { chain = chain; signer = signer; sig_seq_from = 1; is_first = true })
  first_state signer (chain, false) = none

  unfoldable pub worker_init : Instance → Option Active
  unfolding load_signer first_state
  worker_init inst = do signer ← load_signer inst; first_state signer (chain_init inst.hash_alg)

  -- The chain starts again after the last element of the restored one.
  unfoldable pub restarted : Instance → Active → Active
  restarted inst a = record a {
    chain = (chain_init inst.hash_alg).0;
    is_first = true;
    sig_seq_from = 1;
  }

  abbrev to_final : Option Bytes → FinalResult
  to_final none = final_failed
  to_final (some sd) = element sd

  -- With the message hashed into the restored chain.
  unfoldable pub sign_restored :
      Option HashChain → Instance → Active → SavedState → ℕ → Active × FinalResult
  unfolding restarted
  sign_restored none inst a st room =
      (record a { chain = (chain_init inst.hash_alg).0 }, final_failed)
  sign_restored (some c) inst a st room =
      let seq = sub64 c.seq 1 in
      elim (signer_sign a.signer c.current) [
        | none ↦ (record a { chain = (chain_init inst.hash_alg).0 }, final_failed)
        | some sig ↦
            (restarted inst a, to_final (format_sd_sig seq c.current st.sig_seq_from seq sig room))
      ]

  unfoldable pub restore :
      HashChain × Bool → Instance → Active → SavedState → Bytes → ℕ → Active × FinalResult
  unfolding sign_restored
  restore (c, false) inst a st payload room = (record a { chain = c }, final_failed)
  restore (c, true) inst a st payload room =
      let d = record c { current = take st.hash_len st.chain_hash; seq = st.seq } in
      sign_restored (chain_update d payload) inst (record a { chain = d }) st room

  unfoldable pub process_final : Instance → Active → SavedState → Bytes → ℕ → Active × FinalResult
  unfolding restore
  process_final inst a st payload room =
      if not (bytes_eq a.signer.pubkey_fp st.pubkey_fp)
      then (a, mismatch)
      else if not (alg_eq st.hash_alg inst.hash_alg)
      then (a, mismatch)
      else restore (chain_init st.hash_alg) inst a st payload room

  -- The certificate element behind the main one, where it fits.
  unfoldable append_cert : Signer × Option Bytes → Active → Bytes → ℕ → Active × Option Bytes
  append_cert (s, none) a sd room = (record a { signer = s }, some sd)
  append_cert (s, some der) a sd room = (
    record a { signer = s },
    elim (format_sd_cert der (room - length sd)) [ none ↦ some sd | some cert ↦ some (sd ++ cert) ],
  )

  unfoldable with_cert : Instance → Active → Option Bytes → ℕ → Active × Option Bytes
  unfolding append_cert
  with_cert inst a none room = (a, none)
  with_cert inst a (some sd) room =
      if inst.embedcert then append_cert (signer_get_cert_der a.signer) a sd room else (a, some sd)

  unfoldable emit_init : Instance → Active → ℕ → Active × Option Bytes
  unfolding with_cert
  emit_init inst a room =
      with_cert inst (record a { is_first = false })
        (format_sd_init (sub64 a.chain.seq 1) a.chain.current a.signer.pubkey_fp room) room

  unfoldable emit_sig : Active → ℕ → Active × Option Bytes
  emit_sig a room =
      let seq = sub64 a.chain.seq 1 in
      elim (signer_sign a.signer a.chain.current) [
        | none ↦ (a, none)
        | some sig ↦ (
          record a { chain = reset_count a.chain; sig_seq_from = inc64 seq },
          format_sd_sig seq a.chain.current a.sig_seq_from seq sig room,
        )
      ]

  -- With the message hashed: INIT, SIG or a plain element.
  unfoldable emit : Instance → Active → ℕ → Active × Option Bytes
  unfolding emit_init emit_sig
  emit inst a room =
      if a.is_first
      then emit_init inst a room
      else if leb inst.sign_interval a.chain.msg_count
      then emit_sig a room
      else (a, format_sd_msg (sub64 a.chain.seq 1) a.chain.current room)

  -- `mmhashchainsigs_process_msg` from `hashchain_update` on.
  unfoldable pub process_next : Instance → Active → Bytes → ℕ → Active × Option Bytes
  unfolding emit
  process_next inst a payload room = elim (chain_update a.chain payload) [
    | none ↦ (a, none)
    | some c ↦ emit inst (record a { chain = c }) room
  ]

  abbrev put : Worker → Active × Option Bytes → Worker × Option Bytes
  put w (a, sd) = (record w { active = some a }, sd)

  -- `mmhashchainsigs_delete_state`, where a directory is configured.
  unfoldable pub delete_state : Worker → Worker
  delete_state w = elim w.inst.statefiledir [ none ↦ w | some dir ↦ record w { state_file = none } ]

  unfoldable pub after_final : Worker → Active × FinalResult → Bytes → ℕ → Worker × Option Bytes
  after_final w (a, final_failed) payload room = put w (process_next w.inst a payload room)
  after_final w (a, mismatch) payload room = put w (process_next w.inst a payload room)
  after_final w (a, element sd) payload room =
      if ltb 0 (length sd)
      then (record w { active = some a }, some sd)
      else put w (process_next w.inst a payload room)

  unfoldable pub process_with :
      Active → Option SavedState → Worker → Bytes → ℕ → Worker × Option Bytes
  unfolding after_final delete_state
  process_with a none w payload room = put w (process_next w.inst a payload room)
  process_with a (some st) w payload room =
      after_final (delete_state (record w { active = some a; pending_state = none }))
        (process_final w.inst a st payload room) payload room

  unfoldable pub process_ready : Option Active → Worker → Bytes → ℕ → Worker × Option Bytes
  unfolding process_with
  process_ready none w payload room = (w, none)
  process_ready (some a) w payload room = process_with a w.pending_state w payload room

  unfoldable pub process_msg : Worker → Bytes → ℕ → Worker × Option Bytes
  unfolding process_ready
  process_msg w payload room = elim w.active [
    | none ↦ process_ready (worker_init w.inst) w payload room
    | some a ↦ process_ready (some a) w payload room
  ]

  -- The final signature; nothing is reset where the element does not fit.
  unfoldable final_element : Active → ℕ → Bytes → Option Bytes → Active × Option Bytes
  final_element a seq sig none = (a, none)
  final_element a seq sig (some sd) =
      (record a { chain = reset_count a.chain; sig_seq_from = inc64 seq }, some sd)

  unfoldable final_signed : Active → ℕ → Active × Option Bytes
  unfolding final_element
  final_signed a room =
      let seq = sub64 a.chain.seq 1 in
      elim (signer_sign a.signer a.chain.current) [
        | none ↦ (a, none)
        | some sig ↦
            final_element a seq sig (format_sd_sig seq a.chain.current a.sig_seq_from seq sig room)
      ]

  -- `mmhashchainsigs_final_sign` on an initialised worker: an empty payload is hashed and signed.
  -- The result 0 is the empty element.
  unfoldable pub final_sign : Active → ℕ → Active × Option Bytes
  unfolding final_signed
  final_sign a room =
      if a.chain.msg_count == 0 then (a, some []) else elim (chain_update a.chain []) [
        | none ↦ (a, none)
        | some c ↦ final_signed (record a { chain = c }) room
      ]

  unfoldable pub worker_free : Worker → Worker
  worker_free w = record w { active = none; pending_state = none }
