-- ===== src/Pipeline/Restart/Log.antt =====
-- A log across a restart of the worker.
use mathlib.Core.Path.{subst}
use mmhashchainsigs.Base.{
  All, Bool, Bytes, IsByte, List, Option, [], ap, arith, false, inc64, inc64-eq, inr, length, ltb,
  none, not, ok, refl, some, sub64, sub64-inc64, sym, true, u64_mod, ℕ, ◌&&◌, ◌++◌, ◌+◌, ◌<◌, ◌∙◌,
  ◌∷◌, ◌≡◌, ◌≤◌, concat,
}
use mmhashchainsigs.Cli.Lines.{run_lines, file_lines}
use mmhashchainsigs.Crypto.Alg.{HashAlg}
use mmhashchainsigs.Crypto.Hash.{chain_init_hash, chain_iv}
use mmhashchainsigs.Crypto.Hash.Laws.{IsDigest, IsKeyPair}
use mmhashchainsigs.Crypto.Host.{Host}
use mmhashchainsigs.Format.Codec.Laws.{IsBase64, IsUnbroken}
use mmhashchainsigs.Format.Element.Bounds.{sd_max_len}
use mmhashchainsigs.HashChain.{HashChain}
use mmhashchainsigs.Pipeline.{IsSynced, stored_lines, IsStored}
use mmhashchainsigs.Pipeline.Opening.{IsHolding, IsNew, step-next}
use mmhashchainsigs.Pipeline.Restart.{IsSavable, final_text, init_lem, loaded, saved_and_loaded}
use mmhashchainsigs.Pipeline.Restart.Resume.{
  process_msg-resumed, running, worker_lines, worker_lines-running,
}
use mmhashchainsigs.Pipeline.Run.{
  cons-Followed, finalize-clean, follow, run_cons, from_file, stored-IsLine,
}
use mmhashchainsigs.Pipeline.Step.{behind_sig, sig_accepted, sig_text-IsInline}
use mmhashchainsigs.Verifier.State.{
  Verifier, processing, unsigned_count, verifier_finalize, verifier_passed,
}
use mmhashchainsigs.Worker.Instance.{create_worker, free_worker}
use mmhashchainsigs.Worker.Process.{restarted, worker_free, worker_init}
use mmhashchainsigs.Worker.State.{Active, Instance, Worker}
use mmhashchainsigs.Worker.StateFile.{save_state, state_of}

module _ ⦃h : Host⦄ where
  sub64_self : (n : ℕ) → n < u64_mod → sub64 n n ≡ 0
  unfolding sub64
  sub64_self n b = omega arith

  none_left : (n : ℕ) → n < u64_mod → sub64 (sub64 (inc64 n) 1) n ≡ 0
  none_left n b = ap (λ m. sub64 m n) (sub64-inc64 n b) ∙ sub64_self n b

module _ ⦃h : Host⦄ {hash : HashAlg → Bytes → Bytes} (d : IsDigest hash) (b64 : IsBase64)
    (inst : Instance) (room : ℕ) (enough : sd_max_len ≤ room) (pk : h.Pkey) (sign : Bytes → Bytes)
    (unbroken : IsUnbroken) (a b : Active) (v : Verifier) (s : IsSavable a)
    (y : IsSynced inst.hash_alg pk a v) (k : IsKeyPair b.signer.privkey pk sign)
    (same_fp : b.signer.pubkey_fp ≡ a.signer.pubkey_fp) where
  restarted-IsNew : IsNew inst.hash_alg (restarted inst b)
  unfolding restarted chain_init_hash
  restarted-IsNew =
      let c =
        ap (λ (x : HashChain × Bool). x.0)
          (init_lem d b64 inst room enough a b [] s y.alg_is same_fp inst.hash_alg) in
      record {
        is_first = refl;
        alg_is = ap (λ (x : HashChain). x.alg) c;
        seq_one = ap (λ (x : HashChain). x.seq) c;
        from_one = refl;
        start =
            d.digest_total inst.hash_alg chain_iv
            ∙ ap some (sym (ap (λ (x : HashChain). x.current) c));
        fp_width = ap length same_fp ∙ s.fp_width;
        fp_bytes = subst (All IsByte) (sym same_fp) s.fp_bytes;
      }

  resumed_stored :
      (dir p : Bytes) (ps : List Bytes) (file : Option Bytes) {lines : List Bytes}
      → inst.statefiledir ≡ some dir
      → worker_init inst ≡ some b
      → stored_lines inst (restarted inst b) ps room ≡ some lines
      → worker_lines
          (record {
            inst = inst;
            active = none;
            pending_state = some (loaded (state_of a));
            state_file = file;
          })
          (p ∷ ps)
          room
        ≡ some (
            (final_text d b64 inst room enough a b p s y.alg_is same_fp sign ++ (p ++ b'\n' ∷ []))
            ∷ lines)
  unfolding worker_lines
  resumed_stored dir p ps file e i r =
      rw
        (
          process_msg-resumed d b64 inst room enough a b p s y.alg_is same_fp k dir file e i,
          worker_lines,
        )
        (rw (worker_lines-running inst none (restarted inst b) ps room ∙ r) refl)

  -- The lines behind the restart, read from the verifier that has followed the worker before.
  pub record Resumed (ps : List Bytes) (line : ℕ) (file : Option Bytes) : Type 0 where
    pub lines : List Bytes
    pub after : Verifier
    pub stored :
        worker_lines
          (record {
            inst = inst;
            active = none;
            pending_state = some (loaded (state_of a));
            state_file = file;
          })
          ps
          room
        ≡ some lines
    pub read : run_lines v (file_lines (concat lines)) line ≡ ok after
    pub no_errors : after.errors ≡ []
    pub in_segment : after.state ≡ processing
    pub same_strict : after.strict ≡ v.strict

  pub resume :
      (dir p q : Bytes) (qs : List Bytes) (line : ℕ) (file : Option Bytes)
      → inst.statefiledir ≡ some dir
      → worker_init inst ≡ some b
      → inst.embedcert ≡ false
      → IsHolding pk a.signer.pubkey_fp v
      → All IsStored (p ∷ q ∷ qs)
      → length qs + 2 < u64_mod
      → Resumed (p ∷ q ∷ qs) line file
  unfolding worker_lines unsigned_count restarted
  resume dir p q qs line file e i f g (sp, (sq, sqs)) few =
      let v1 =
        behind_sig d b64 inst room enough inst.hash_alg pk a v p line sp.storable s.seq_small y in
      let new = restarted-IsNew in
      let c =
        step-next d inst room enough inst.hash_alg pk (restarted inst b) v1 q (inc64 line)
          sq.storable new f
          (record {
            no_store = g.no_store;
            have_pubkey = g.have_pubkey;
            has_key = g.has_key;
            same_fp = g.same_fp ∙ sym same_fp;
          })
          y.in_segment y.verifier_alg
          (inr (rw y.same_seq (none_left a.chain.seq (omega (arith, s.seq_small))))) y.no_errors in
      let r =
        follow d b64 inst room enough inst.hash_alg pk unbroken sign qs c.next c.after
          (inc64 (inc64 line)) sqs
          (omega (
            arith,
            c.one_more,
            new.seq_one,
            inc64-eq (restarted inst b).chain.seq (omega (arith, new.seq_one)),
            few,
          ))
          c.synced (subst (λ (x : h.Pkey). IsKeyPair x pk sign) (sym c.same_privkey) k) in
      let t =
        cons-Followed d b64 inst room enough inst.hash_alg pk (restarted inst b) v1 q qs
          (inc64 line) sq c r in
      record {
        lines =
            (final_text d b64 inst room enough a b p s y.alg_is same_fp sign ++ (p ++ b'\n' ∷ []))
            ∷ t.lines;
        after = t.after;
        stored = resumed_stored dir p (q ∷ qs) file e i t.stored;
        read =
            let text = final_text d b64 inst room enough a b p s y.alg_is same_fp sign in
            from_file v ((text ++ (p ++ b'\n' ∷ [])) ∷ t.lines) line
              (
                stored-IsLine text p
                    (sig_text-IsInline d b64 inst room enough inst.hash_alg pk a v p line
                      sp.storable s.seq_small y unbroken sign k)
                    sp.inline,
                t.split,
              )
              (run_cons v v1 text p t.lines line sp.storable
                (sig_accepted d b64 inst room enough inst.hash_alg pk a v p line sp.storable
                  s.seq_small y sign k)
                t.read);
        no_errors = t.synced.no_errors;
        in_segment = t.synced.in_segment;
        same_strict = t.same_strict;
      }

  -- A worker that is freed with unsigned messages behind a log that the verifier has followed, and
  -- created again with the same key and state directory, emits an element for each message: the
  -- first signs the messages of the run before and itself, and a new chain starts behind it. The
  -- verifier goes on reading the file of these elements and messages, line by line, without an
  -- error, in strict mode too, and passes behind the last line, except in strict mode with messages
  -- behind the last signature. The state file is written, the SD buffer has 512 bytes or more, the
  -- saved chain hash and fingerprint have their widths, the verifier holds the key and no CA
  -- bundle, no certificate is embedded, each message has 1 to 8191 bytes, no newline, no carriage
  -- return at its end and no certificate element inside, there are two messages at least, and their
  -- numbers fit in 64 bits; OpenSSL's digests, base64 and this key pair work as documented.
  pub restarted_log_passes :
      (dir p q : Bytes) (qs : List Bytes) (line : ℕ) (file : Option Bytes)
      → inst.statefiledir ≡ some dir
      → 0 < a.chain.msg_count
      → worker_init inst ≡ some b
      → inst.embedcert ≡ false
      → IsHolding pk a.signer.pubkey_fp v
      → All IsStored (p ∷ q ∷ qs)
      → length qs + 2 < u64_mod
      → (created : Worker) × (lines : List Bytes) × (after : Verifier) × (create_worker 0 inst
            ((free_worker 1 (running inst file a) true true true).1.state_file)
          ≡ (1, some created))
        × (worker_lines created (p ∷ q ∷ qs) room ≡ some lines)
        × (run_lines v (file_lines (concat lines)) line ≡ ok after)
        × (after.errors ≡ [])
        × (verifier_passed (verifier_finalize after)
            ≡ not (v.strict && ltb 0 (unsigned_count after)))
  unfolding free_worker save_state worker_free
  restarted_log_passes dir p q qs line file e n i f g ps few =
      let kept = (free_worker 1 (running inst file a) true true true).1.state_file in
      let r = resume dir p q qs line kept e i f g ps few in
      (
        _,
        r.lines,
        r.after,
        saved_and_loaded inst dir a none file s e n,
        r.stored,
        r.read,
        r.no_errors,
        finalize-clean r.after r.no_errors r.in_segment
            ∙ ap (λ x. not (x && ltb 0 (unsigned_count r.after))) r.same_strict,
      )
