-- ===== src/Pipeline/Restart/Resume.antt =====
-- The messages behind a restart: the signature for the run before, and the chain that starts anew.
use mmhashchainsigs.Base.{
  Bytes, List, Option, [], ap, arith, length, ltb, none, refl, some, true, ℕ, ◌++◌, ◌>>=◌, ◌∷◌, ◌≡◌,
  ◌≤◌,
}
use mmhashchainsigs.Crypto.Alg.{HashAlg}
use mmhashchainsigs.Crypto.Hash.Laws.{IsDigest, IsKeyPair}
use mmhashchainsigs.Crypto.Host.{Host}
use mmhashchainsigs.Format.Codec.Laws.{IsBase64}
use mmhashchainsigs.Format.Element.{sd_element}
use mmhashchainsigs.Format.Element.Bounds.{sd_max_len}
use mmhashchainsigs.Format.Element.Ids.{sd_prefix}
use mmhashchainsigs.Pipeline.{stored_lines}
use mmhashchainsigs.Pipeline.Restart.{IsSavable, final_text, loaded, process_final-restored}
use mmhashchainsigs.Worker.Process.{
  after_final, delete_state, process_msg, process_next, process_ready, process_with, restarted,
  worker_init,
}
use mmhashchainsigs.Worker.State.{Active, Instance, Worker}
use mmhashchainsigs.Worker.StateFile.{state_of}

module _ ⦃h : Host⦄ where
  -- The stored lines of a worker, message by message; `none` where nothing is emitted.
  unfoldable pub worker_lines : Worker → List Bytes → ℕ → Option (List Bytes)
  worker_lines w [] room = some []
  worker_lines w (p ∷ ps) room =
      let (x, sd) = process_msg w p room in
      do s ← sd; rest ← worker_lines x ps room; some ((s ++ (p ++ b'\n' ∷ [])) ∷ rest)

  -- A worker that runs, with no state to take up.
  abbrev pub running : Instance → Option Bytes → Active → Worker
  running inst file a = record {
    inst = inst;
    active = some a;
    pending_state = none;
    state_file = file;
  }

  pub process_msg-running :
      (inst : Instance) (file : Option Bytes) (a : Active) (p : Bytes) (room : ℕ)
      → process_msg (running inst file a) p room
        ≡ (running inst file ((process_next inst a p room).0), (process_next inst a p room).1)
  unfolding process_msg process_ready process_with
  process_msg-running inst file a p room = refl

  pub worker_lines-running :
      (inst : Instance) (file : Option Bytes) (a : Active) (ps : List Bytes) (room : ℕ)
      → worker_lines (running inst file a) ps room ≡ stored_lines inst a ps room
  unfolding worker_lines stored_lines
  worker_lines-running inst file a [] room = refl
  worker_lines-running inst file a (p ∷ ps) room =
      rw (process_msg-running inst file a p room, worker_lines)
        (ap
          (λ (r : Option (List Bytes)). (process_next inst a p room).1 >>= λ s.
            r >>= λ rest. some ((s ++ (p ++ b'\n' ∷ [])) ∷ rest))
          (worker_lines-running inst file ((process_next inst a p room).0) ps room))

  sd_element-some : (ps : List (Bytes × Bytes)) → ltb 0 (length (sd_element sd_prefix ps)) ≡ true
  unfolding sd_prefix
  sd_element-some ps = ground arith

module _ ⦃h : Host⦄ {hash : HashAlg → Bytes → Bytes} (d : IsDigest hash) (b64 : IsBase64)
    (inst : Instance) (room : ℕ) (enough : sd_max_len ≤ room) (a b : Active) (payload : Bytes)
    (s : IsSavable a) (same_alg : a.chain.alg ≡ inst.hash_alg)
    (same_fp : b.signer.pubkey_fp ≡ a.signer.pubkey_fp) where
  -- The first message of the worker that takes the state up.
  pub process_msg-resumed :
      {pk : h.Pkey} {sign : Bytes → Bytes} (k : IsKeyPair b.signer.privkey pk sign) (dir : Bytes)
      (file : Option Bytes)
      → inst.statefiledir ≡ some dir
      → worker_init inst ≡ some b
      → process_msg
          (record {
            inst = inst;
            active = none;
            pending_state = some (loaded (state_of a));
            state_file = file;
          })
          payload
          room
        ≡ (
          running inst none (restarted inst b),
          some (final_text d b64 inst room enough a b payload s same_alg same_fp sign),
        )
  unfolding process_msg process_ready process_with after_final delete_state
  process_msg-resumed k dir file e i =
      rw (i, process_ready)
        (rw (process_final-restored d b64 inst room enough a b payload s same_alg same_fp k)
          (rw (sd_element-some _) (rw e refl)))
