-- ===== src/Pipeline/Restart/Crash.antt =====
-- A log across a crash: no state is saved, and a new chain starts.
use mathlib.Core.Path.{subst}
use mmhashchainsigs.Base.{
  All, Bytes, List, Option, [], ap, arith, false, inc64, inc64-eq, inl, length, ltb, none, not, ok,
  refl, some, sym, true, u64_mod, ℕ, ◌&&◌, ◌+◌, ◌<◌, ◌∙◌, ◌∷◌, ◌≡◌, ◌≤◌, concat,
}
use mmhashchainsigs.Cli.Lines.{run_lines, file_lines}
use mmhashchainsigs.Crypto.Alg.{HashAlg}
use mmhashchainsigs.Crypto.Hash.Laws.{IsDigest, IsKeyPair}
use mmhashchainsigs.Crypto.Host.{Host}
use mmhashchainsigs.Format.Codec.Laws.{IsBase64, IsUnbroken}
use mmhashchainsigs.Format.Element.Bounds.{sd_max_len}
use mmhashchainsigs.Pipeline.{IsStored}
use mmhashchainsigs.Pipeline.Opening.{IsHolding, IsNew, step-next}
use mmhashchainsigs.Pipeline.Restart.Resume.{running, worker_lines, worker_lines-running}
use mmhashchainsigs.Pipeline.Run.{cons-Followed, finalize-clean, follow, from_file}
use mmhashchainsigs.Verifier.State.{
  Verifier, processing, unsigned_count, verifier_finalize, verifier_passed,
}
use mmhashchainsigs.Worker.Instance.{create_worker, pending_of}
use mmhashchainsigs.Worker.Process.{process_msg, process_ready, process_with, worker_init}
use mmhashchainsigs.Worker.State.{Active, Instance, SavedState, Worker}
use mmhashchainsigs.Worker.StateFile.{load_state}

module _ ⦃h : Host⦄ where
  -- A worker as it is created where there is no state to take up.
  abbrev pub created_empty : Instance → Worker
  created_empty inst = record {
    inst = inst;
    active = none;
    pending_state = none;
    state_file = none;
  }

  no_state : (dir : Option Bytes) → pending_of dir none ≡ none
  unfolding pending_of load_state
  no_state none = refl
  no_state (some dir) = refl

  create_worker-empty :
      (inst : Instance) → create_worker 0 inst none ≡ (1, some (created_empty inst))
  unfolding create_worker
  create_worker-empty inst =
      ap
        (λ (st : Option SavedState).
          (1, some (record { inst = inst; active = none; pending_state = st; state_file = none })))
        (no_state inst.statefiledir)

  -- Its lines are those of the state that it starts with.
  worker_lines-empty :
      (inst : Instance) (b : Active) (p : Bytes) (ps : List Bytes) (room : ℕ)
      → worker_init inst ≡ some b
      → worker_lines (created_empty inst) (p ∷ ps) room
        ≡ worker_lines (running inst none b) (p ∷ ps) room
  unfolding worker_lines process_msg process_ready process_with
  worker_lines-empty inst b p ps room i = rw (i, process_ready) refl

-- After a crash that has left no state file, a worker that is created again with its key and
-- algorithm starts a new chain behind the stored log, and a verifier that has followed this log
-- reads the file of the further elements and messages, line by line, without giving up and passes
-- behind the last one, if the mode is not strict. The SD buffer has 512 bytes or more, the verifier
-- holds the key and no CA bundle, no certificate is embedded, each message has 1 to 8191 bytes, no
-- newline, no carriage return at its end and no certificate element inside, there are less than
-- 2^64 - 1 messages, and OpenSSL's digests, base64 and this key pair work as documented.
pub crashed_log_passes :
    ⦃h : Host⦄
    → {hash : HashAlg → Bytes → Bytes} (d : IsDigest hash) (b64 : IsBase64) (unbroken : IsUnbroken)
      (inst : Instance) (room : ℕ) (pk : h.Pkey) (sign : Bytes → Bytes) (b : Active) (v : Verifier)
      (p : Bytes) (ps : List Bytes) (line : ℕ)
    → sd_max_len ≤ room
    → worker_init inst ≡ some b
    → IsNew inst.hash_alg b
    → inst.embedcert ≡ false
    → IsHolding pk b.signer.pubkey_fp v
    → (v.state ≡ processing) × (v.hash_alg ≡ inst.hash_alg) × (v.strict ≡ false)
    → v.errors ≡ []
    → IsKeyPair b.signer.privkey pk sign
    → All IsStored (p ∷ ps)
    → length ps + 2 < u64_mod
    → (created : Worker) × (lines : List Bytes) × (after : Verifier) × (create_worker 0 inst none
        ≡ (1, some created))
      × (worker_lines created (p ∷ ps) room ≡ some lines)
      × (run_lines v (file_lines (concat lines)) line ≡ ok after)
      × (verifier_passed (verifier_finalize after) ≡ true)
crashed_log_passes ⦃h⦄ d b64 unbroken inst room pk sign b v p ps line enough i f e g
      (within, same, lenient) none_yet k (s, ss) few =
    let c =
      step-next d inst room enough inst.hash_alg pk b v p line s.storable f e g within same
        (inl lenient) none_yet in
    let r =
      follow d b64 inst room enough inst.hash_alg pk unbroken sign ps c.next c.after (inc64 line) ss
        (omega (arith, c.one_more, f.seq_one, inc64-eq b.chain.seq (omega (arith, f.seq_one))))
        c.synced (subst (λ (x : h.Pkey). IsKeyPair x pk sign) (sym c.same_privkey) k) in
    let t = cons-Followed d b64 inst room enough inst.hash_alg pk b v p ps line s c r in
    (
      created_empty inst,
      t.lines,
      t.after,
      create_worker-empty inst,
      worker_lines-empty inst b p ps room i
          ∙ worker_lines-running inst none b (p ∷ ps) room
          ∙ t.stored,
      from_file v t.lines line t.split t.read,
      finalize-clean t.after t.synced.no_errors t.synced.in_segment
          ∙ ap (λ x. not (x && ltb 0 (unsigned_count t.after))) (t.same_strict ∙ lenient),
    )
