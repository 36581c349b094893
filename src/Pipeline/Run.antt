-- ===== src/Pipeline/Run.antt =====
-- A whole log: the lines that a worker's messages are stored as pass the verifier.
use mathlib.Core.Path.{subst}
use mmhashchainsigs.Base.{
  All, Bool-cases, Bytes, List, [], ap, arith, false, inc64, inc64-eq, inl, inr, length, ltb,
  ltb→lt, not, not_ltb→le, ok, refl, some, sym, u64_mod, ℕ, ◌&&◌, ◌++◌, ◌+◌, ◌<◌, ◌∙◌, ◌∷◌, ◌≡◌,
  ◌≤◌, concat, append_assoc,
}
use mmhashchainsigs.Cli.Lines.Split.{All-join, IsInline, IsLine, file_lines-concat}
use mmhashchainsigs.Cli.Lines.{chomp, run_lines, file_lines}
use mmhashchainsigs.Cli.Lines.Trim.{chomp-behind, chomp-newline}
use mmhashchainsigs.Crypto.Alg.{HashAlg}
use mmhashchainsigs.Crypto.Hash.Laws.{IsDigest, IsKeyPair}
use mmhashchainsigs.Crypto.Host.{Host}
use mmhashchainsigs.Format.Codec.Laws.{IsBase64, IsUnbroken}
use mmhashchainsigs.Format.Element.Bounds.{sd_max_len}
use mmhashchainsigs.Pipeline.{IsStorable, IsSynced, stored_lines, IsStored}
use mmhashchainsigs.Pipeline.Opening.{IsFresh, step-init}
use mmhashchainsigs.Pipeline.Step.{Accepted, step-msg, step-sig}
use mmhashchainsigs.Verifier.Handlers.{returned}
use mmhashchainsigs.Verifier.Line.{process_line}
use mmhashchainsigs.Verifier.State.{
  Verifier, add_error, processing, unsigned_count, verifier_finalize, verifier_passed,
}
use mmhashchainsigs.Worker.Process.{process_next}
use mmhashchainsigs.Worker.State.{Active, Instance}

module _ ⦃h : Host⦄ where
  pub chomp_line :
      (text p : Bytes)
      → chomp p ≡ (p, 0)
      → 0 < length p
      → chomp (text ++ (p ++ b'\n' ∷ [])) ≡ (text ++ p, b'\n')
  chomp_line text [] e some_byte = absurd (omega arith)
  chomp_line text (c ∷ cs) e some_byte = chomp-behind text _ (chomp-newline (c ∷ cs) e)

  -- The lines as they are read from a file that holds them.
  pub from_file :
      (v : Verifier) (lines : List Bytes) (line : ℕ) {w : Verifier}
      → All IsLine lines
      → run_lines v lines line ≡ ok w
      → run_lines v (file_lines (concat lines)) line ≡ ok w
  from_file v lines line s r =
      ap (λ (ls : List Bytes). run_lines v ls line) (file_lines-concat lines s) ∙ r

  pub stored-IsLine :
      (text p : Bytes) → All IsInline text → All IsInline p → IsLine (text ++ (p ++ b'\n' ∷ []))
  stored-IsLine text p ht hp = record {
    text = text ++ p;
    inline = All-join text p ht hp;
    ended = sym (append_assoc text p (b'\n' ∷ []));
  }

  pub run_cons :
      (v w : Verifier) (text p : Bytes) (lines : List Bytes) (line : ℕ) {x : Verifier}
      → IsStorable p
      → ((beyond : ℕ) → process_line v (text ++ p) beyond line ≡ ok (returned w))
      → run_lines w lines (inc64 line) ≡ ok x
      → run_lines v ((text ++ (p ++ b'\n' ∷ [])) ∷ lines) line ≡ ok x
  unfolding run_lines
  run_cons v w text p lines line s acc r =
      rw (chomp_line text p s.end_kept s.some_byte, run_lines) (rw (acc b'\n') r)

module _ ⦃h : Host⦄ {hash : HashAlg → Bytes → Bytes} (d : IsDigest hash) (b64 : IsBase64)
    (inst : Instance) (room : ℕ) (enough : sd_max_len ≤ room) (alg : HashAlg) (pk : h.Pkey) where
  -- The lines of the messages, and the verifier behind them.
  pub record Followed (a : Active) (v : Verifier) (ps : List Bytes) (line : ℕ) : Type 0 where
    pub lines : List Bytes
    pub last : Active
    pub after : Verifier
    pub stored : stored_lines inst a ps room ≡ some lines
    pub split : All IsLine lines
    pub read : run_lines v lines line ≡ ok after
    pub synced : IsSynced alg pk last after
    pub same_strict : after.strict ≡ v.strict

  stored_cons :
      (a : Active) (p : Bytes) (ps : List Bytes) {b : Active} {text : Bytes} {lines : List Bytes}
      → process_next inst a p room ≡ (b, some text)
      → stored_lines inst b ps room ≡ some lines
      → stored_lines inst a (p ∷ ps) room ≡ some ((text ++ (p ++ b'\n' ∷ [])) ∷ lines)
  unfolding stored_lines
  stored_cons a p ps e s = ground arith

  pub cons-Followed :
      (a : Active) (v : Verifier) (p : Bytes) (ps : List Bytes) (line : ℕ)
      → IsStored p
      → (c : Accepted inst room alg pk a v p line) → Followed c.next c.after ps (inc64 line)
      → Followed a v (p ∷ ps) line
  cons-Followed a v p ps line s c f = record {
    lines = (c.text ++ (p ++ b'\n' ∷ [])) ∷ f.lines;
    last = f.last;
    after = f.after;
    stored = stored_cons a p ps c.emitted f.stored;
    split = (stored-IsLine c.text p c.inline s.inline, f.split);
    read = run_cons v c.after c.text p f.lines line s.storable c.accepted f.read;
    synced = f.synced;
    same_strict = f.same_strict ∙ c.same_strict;
  }

  module _ (unbroken : IsUnbroken) (sign : Bytes → Bytes) where
    pub step-open :
        (a : Active) (v : Verifier) (p : Bytes) (line : ℕ)
        → IsStorable p
        → a.chain.seq + 1 < u64_mod
        → IsSynced alg pk a v
        → IsKeyPair a.signer.privkey pk sign
        → Accepted inst room alg pk a v p line
    step-open a v p line s small y k =
        elim (Bool-cases (ltb (inc64 a.chain.msg_count) inst.sign_interval)) [
          | inl below ↦
              step-msg d b64 inst room enough alg pk a v p line s small y (ltb→lt _ _ below)
          | inr due ↦
              step-sig d b64 inst room enough alg pk a v p line s small y unbroken sign k
                (not_ltb→le _ _ due)
        ]

    pub follow :
        (ps : List Bytes) (a : Active) (v : Verifier) (line : ℕ)
        → All IsStored ps
        → a.chain.seq + length ps < u64_mod
        → IsSynced alg pk a v
        → IsKeyPair a.signer.privkey pk sign
        → Followed a v ps line
    follow [] a v line s small y k = record {
      lines = [];
      last = a;
      after = v;
      stored = unfold stored_lines in refl;
      split = tt;
      read = unfold run_lines in refl;
      synced = y;
      same_strict = refl;
    }
    follow (p ∷ ps) a v line (s, ss) small y k =
        let c = step-open a v p line s.storable (omega arith) y k in
        cons-Followed a v p ps line s c (
          follow ps c.next c.after (inc64 line) ss
            (omega (arith, c.one_more, inc64-eq a.chain.seq (omega arith))) c.synced
            (subst (λ (x : h.Pkey). IsKeyPair x pk sign) (sym c.same_privkey) k))

module _ ⦃h : Host⦄ where
  -- What `verifier_finalize` adds behind a log without errors.
  pub finalize-clean :
      (v : Verifier)
      → v.errors ≡ []
      → v.state ≡ processing
      → verifier_passed (verifier_finalize v) ≡ not (v.strict && ltb 0 (unsigned_count v))
  unfolding verifier_finalize verifier_passed add_error
  finalize-clean v e p = ground arith

-- A log passes whose first line is accepted.
pub whole_log_passes :
    ⦃h : Host⦄
    → {hash : HashAlg → Bytes → Bytes} (d : IsDigest hash) (b64 : IsBase64) (unbroken : IsUnbroken)
      (inst : Instance) (room : ℕ) (enough : sd_max_len ≤ room) (alg : HashAlg) (pk : h.Pkey)
      (sign : Bytes → Bytes) (a : Active) (v : Verifier) (p : Bytes) (ps : List Bytes)
    → Accepted inst room alg pk a v p 1
    → a.chain.seq ≡ 1
    → IsKeyPair a.signer.privkey pk sign
    → All IsStored (p ∷ ps)
    → length ps + 2 < u64_mod
    → (lines : List Bytes) × (after : Verifier) × (stored_lines inst a (p ∷ ps) room ≡ some lines)
      × (run_lines v (file_lines (concat lines)) 1 ≡ ok after)
      × (after.errors ≡ [])
      × (verifier_passed (verifier_finalize after) ≡ not (v.strict && ltb 0 (unsigned_count after)))
whole_log_passes ⦃h⦄ d b64 unbroken inst room enough alg pk sign a v p ps c one k (s, ss) few =
    let r =
      follow d b64 inst room enough alg pk unbroken sign ps c.next c.after (inc64 1) ss
        (omega (arith, c.one_more, one, inc64-eq a.chain.seq (omega (arith, one)))) c.synced
        (subst (λ (x : h.Pkey). IsKeyPair x pk sign) (sym c.same_privkey) k) in
    let g = cons-Followed d b64 inst room enough alg pk a v p ps 1 s c r in
    (
      g.lines,
      g.after,
      g.stored,
      from_file v g.lines 1 g.split g.read,
      g.synced.no_errors,
      finalize-clean g.after g.synced.no_errors g.synced.in_segment
          ∙ ap (λ b. not (b && ltb 0 (unsigned_count g.after))) g.same_strict,
    )

-- An honest log passes: a worker starts from its first message, without embedding certificates, and
-- the verifier holds the public key of its private key and has read nothing; OpenSSL's digests,
-- base64 and this key pair work as documented, the SD buffer has 512 bytes or more, each message
-- has 1 to 8191 bytes, no newline, no carriage return at its end and no certificate element inside,
-- and there are less than 2^64 - 1 messages. Then the worker emits an element for each message; the
-- file of these elements, each in front of its message and with a newline behind it, is read by the
-- verifier line by line without an error, and after the last line it passes, except in strict mode
-- with messages behind the last signature.
pub honest_log_passes :
    ⦃h : Host⦄
    → {hash : HashAlg → Bytes → Bytes} (d : IsDigest hash) (b64 : IsBase64) (unbroken : IsUnbroken)
      (inst : Instance) (room : ℕ) (alg : HashAlg) (pk : h.Pkey) (sign : Bytes → Bytes) (a : Active)
      (v : Verifier) (p : Bytes) (ps : List Bytes)
    → sd_max_len ≤ room
    → IsFresh alg pk a v
    → inst.embedcert ≡ false
    → IsKeyPair a.signer.privkey pk sign
    → All IsStored (p ∷ ps)
    → length ps + 2 < u64_mod
    → (lines : List Bytes) × (after : Verifier) × (stored_lines inst a (p ∷ ps) room ≡ some lines)
      × (run_lines v (file_lines (concat lines)) 1 ≡ ok after)
      × (after.errors ≡ [])
      × (verifier_passed (verifier_finalize after) ≡ not (v.strict && ltb 0 (unsigned_count after)))
honest_log_passes d b64 unbroken inst room alg pk sign a v p ps enough f e k (s, ss) few =
    whole_log_passes d b64 unbroken inst room enough alg pk sign a v p ps
      (step-init d inst room enough alg pk a v p 1 s.storable f.worker_new e f.holding f.expecting
        f.no_alg f.none_signed f.no_errors)
      f.worker_new.seq_one k (s, ss) few
