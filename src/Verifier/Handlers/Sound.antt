-- ===== src/Verifier/Handlers/Sound.antt =====
-- What it means that a handler has recorded no error.
use mathlib.Core.Path.{subst}
use mmhashchainsigs.Base.{
  Bool-cases, Bytes, Option, Option-cases, [], ap, arith, bytes_eq_iff, if_false, if◌then◌else◌,
  inc64, inl, inr, length, length-append, none, not, refl, some, sub64, sym, ℕ, ◌<◌, ◌==◌, ◌∙◌, ◌∷◌,
  ◌≡◌,
}
use mmhashchainsigs.Crypto.Hash.{hash_chain}
use mmhashchainsigs.Crypto.Host.{Host}
use mmhashchainsigs.Crypto.Keys.{Verdict, bad, broken, good, hcs_verify}
use mmhashchainsigs.Format.Parse.{SdRecord}
use mmhashchainsigs.Verifier.Errors.{
  VerifyIssue, hash_len_changed, hash_mismatch, seq_mismatch, sig_before_init, sig_error,
  sig_from_mismatch, sig_invalid, sig_missing, sig_to_mismatch,
}
use mmhashchainsigs.Verifier.Handlers.{
  Outcome, aborted, broken_off, check_range, compare_hash, handle_sd_msg, handle_sd_sig,
  is_processing, judge, key_verdict, returned, sig_hashed, verify_sd_msg_hash,
}
use mmhashchainsigs.Verifier.Handlers.Accept.{advanced}
use mmhashchainsigs.Verifier.State.{Verifier, add_error}

module _ ⦃h : Host⦄ where
  -- A verifier that has just recorded an error has one.
  pub add_error-some :
      (v : Verifier) (line : ℕ) (e : VerifyIssue) → 0 < length ((add_error v line e).errors)
  unfolding add_error
  add_error-some v line e = ground (arith, length-append v.errors ((line, e) ∷ []))

  pub compare_hash_sound :
      (sd : SdRecord) (v : Verifier) (line : ℕ) (next : Bytes)
      → (compare_hash next sd v line).errors ≡ []
      → (next ≡ sd.chain_hash)
        × (v.errors ≡ [])
        × (compare_hash next sd v line ≡ advanced v sd.chain_hash)
  unfolding compare_hash
  compare_hash_sound sd v line next clean = ground (
    arith,
    add_error-some (record v { chain_hash = next }) line (hash_mismatch sd.seq),
    bytes_eq_iff next sd.chain_hash,
  )

  -- The same of the part of `verify_sd_msg_hash` behind the test of the sequence number.
  unfoldable pub hash_part : SdRecord → Bytes → Verifier → ℕ → Outcome Verifier
  hash_part sd msg u line =
      if not (length sd.chain_hash == u.hash_len)
      then broken_off (add_error u line (hash_len_changed (length sd.chain_hash) u.hash_len))
      else elim (hash_chain u.hash_alg u.chain_hash u.next_seq msg) [
        | none ↦ broken_off u
        | some next ↦ returned (compare_hash next sd u line)
      ]

  pub hash_part_sound :
      (sd : SdRecord) (msg : Bytes) (u : Verifier) (line : ℕ) {w : Verifier}
      → hash_part sd msg u line ≡ returned w
      → w.errors ≡ []
      → (length sd.chain_hash ≡ u.hash_len)
        × (u.errors ≡ [])
        × (hash_chain u.hash_alg u.chain_hash u.next_seq msg ≡ some sd.chain_hash)
        × (w ≡ advanced u sd.chain_hash)
  unfolding hash_part
  hash_part_sound sd msg u line {w} r clean =
      elim (Option-cases (hash_chain u.hash_alg u.chain_hash u.next_seq msg)) [
        | inl e ↦ ground arith
        | inr (next, e) ↦ ground (arith, compare_hash_sound sd u line next)
      ]

  -- The number, the width and the hash of the record are the ones that the verifier computes.
  pub record Agrees (sd : SdRecord) (msg : Bytes) (v : Verifier) : Type 0 where
    pub same_seq : sd.seq ≡ v.next_seq
    pub same_len : length sd.chain_hash ≡ v.hash_len
    pub same_hash : hash_chain v.hash_alg v.chain_hash v.next_seq msg ≡ some sd.chain_hash

  unfoldable pub seq_checked : SdRecord → Verifier → ℕ → Verifier
  seq_checked sd v line =
      if sd.seq == v.next_seq then v else add_error v line (seq_mismatch sd.seq v.next_seq)

  pub seq_checked_sound :
      (sd : SdRecord) (v : Verifier) (line : ℕ)
      → (seq_checked sd v line).errors ≡ []
      → (sd.seq ≡ v.next_seq) × (seq_checked sd v line ≡ v)
  unfolding seq_checked
  seq_checked_sound sd v line clean =
      ground (arith, add_error-some v line (seq_mismatch sd.seq v.next_seq))

  pub verify_lem :
      (sd : SdRecord) (msg : Bytes) (v : Verifier) (line : ℕ)
      → verify_sd_msg_hash sd msg v line ≡ hash_part sd msg (seq_checked sd v line) line
  unfolding verify_sd_msg_hash hash_part seq_checked
  verify_lem sd msg v line = refl

  pub agreed :
      (sd : SdRecord) (msg : Bytes) (v : Verifier) {u w : Verifier}
      → (length sd.chain_hash ≡ u.hash_len)
        × (u.errors ≡ [])
        × (hash_chain u.hash_alg u.chain_hash u.next_seq msg ≡ some sd.chain_hash)
        × (w ≡ advanced u sd.chain_hash)
      → (sd.seq ≡ v.next_seq) × (u ≡ v)
      → Agrees sd msg v × (w ≡ advanced v sd.chain_hash)
  agreed sd msg v (l, c, e, a) (q, u) =
      (record { same_seq = q; same_len = ground arith; same_hash = ground arith }, ground arith)

  -- If verify_sd_msg_hash returns 0 and the verifier then has no error, the record has the
  -- expected sequence number, a hash of the expected width, and that hash is the digest of the
  -- previous hash, the number and the message; the state advances by this one message and changes
  -- nothing else.
  pub verify_sd_msg_hash_sound :
      (sd : SdRecord) (msg : Bytes) (v : Verifier) (line : ℕ) {w : Verifier}
      → verify_sd_msg_hash sd msg v line ≡ returned w
      → w.errors ≡ []
      → Agrees sd msg v × (w ≡ advanced v sd.chain_hash)
  verify_sd_msg_hash_sound sd msg v line r clean =
      let parts =
        hash_part_sound sd msg (seq_checked sd v line) line (sym (verify_lem sd msg v line) ∙ r)
          clean in
      agreed sd msg v parts (seq_checked_sound sd v line parts.1)

  pub handle_sd_msg_sound :
      (sd : SdRecord) (msg : Bytes) (v : Verifier) (line : ℕ) {w : Verifier}
      → handle_sd_msg sd msg v line ≡ returned w
      → w.errors ≡ []
      → Agrees sd msg v × (w ≡ advanced v sd.chain_hash)
  unfolding handle_sd_msg is_processing
  handle_sd_msg_sound sd msg v line r clean =
      verify_sd_msg_hash_sound sd msg v line (ground arith) clean

  pub judge_sound :
      (x : Verdict) (sd : SdRecord) (u : Verifier) (line : ℕ)
      → (judge x sd u line).errors ≡ []
      → (x ≡ good) × (u.errors ≡ [])
  unfolding judge
  judge_sound good sd u line clean = (refl, clean)
  judge_sound bad sd u line clean =
      ground (arith, add_error-some u line (sig_invalid sd.seq_from sd.seq_to))
  judge_sound broken sd u line clean =
      ground (arith, add_error-some u line (sig_error sd.seq_from sd.seq_to))

  pub check_range_sound :
      (sd : SdRecord) (u : Verifier) (line : ℕ)
      → (check_range sd u line).errors ≡ []
      → (sd.seq_from ≡ inc64 u.last_signed_seq) × (sd.seq_to ≡ sub64 u.next_seq 1) × (u.errors ≡ [])
  unfolding check_range
  check_range_sound sd u line clean =
      let w =
        if sd.seq_from == inc64 u.last_signed_seq
        then u
        else add_error u line (sig_from_mismatch sd.seq_from (inc64 u.last_signed_seq)) in
      ground (
        arith,
        add_error-some w line (sig_to_mismatch sd.seq_to (sub64 u.next_seq 1)),
        add_error-some u line (sig_from_mismatch sd.seq_from (inc64 u.last_signed_seq)),
      )

  pub key_verdict_sound :
      (k : Option h.Pkey) (msg sig : Bytes)
      → key_verdict k msg sig ≡ good
      → (key : h.Pkey) × (k ≡ some key) × (hcs_verify key msg sig ≡ good)
  unfolding key_verdict
  key_verdict_sound none msg sig e = absurd (ground arith)
  key_verdict_sound (some key) msg sig e = (key, refl, e)

  abbrev judged : SdRecord → Verifier → ℕ → Verifier
  judged sd u line =
      judge (key_verdict u.pubkey u.chain_hash sd.signature) sd (check_range sd u line) line

  signed :
      (sd : SdRecord) (u : Verifier) (line : ℕ) {w : Verifier}
      → returned (judged sd u line) ≡ returned w
      → w.errors ≡ []
      → (u' : Verifier) × (returned u ≡ returned u')
        × (u'.errors ≡ [])
        × (sd.seq_from ≡ inc64 u'.last_signed_seq)
        × (sd.seq_to ≡ sub64 u'.next_seq 1)
        × (key_verdict u'.pubkey u'.chain_hash sd.signature ≡ good)
  signed sd u line r clean =
      let (accepted, checked) =
        judge_sound (key_verdict u.pubkey u.chain_hash sd.signature) sd (check_range sd u line) line
          (ground arith) in
      let (from, to, none_before) = check_range_sound sd u line checked in
      (u, refl, none_before, from, to, accepted)

  sig_hashed_sound :
      (sd : SdRecord) (o : Outcome Verifier) (line : ℕ) {w : Verifier}
      → sig_hashed o sd line ≡ returned w
      → w.errors ≡ []
      → (u : Verifier) × (o ≡ returned u)
        × (u.errors ≡ [])
        × (sd.seq_from ≡ inc64 u.last_signed_seq)
        × (sd.seq_to ≡ sub64 u.next_seq 1)
        × (key_verdict u.pubkey u.chain_hash sd.signature ≡ good)
  unfolding sig_hashed
  sig_hashed_sound sd (aborted u) line r clean = absurd (ground arith)
  sig_hashed_sound sd (returned u) line {w} r clean = elim (Bool-cases sd.has_signature) [
    | inl e ↦ signed sd u line (sym (if_false _ _ (ap not e)) ∙ r) clean
    | inr e ↦ absurd (ground (arith, add_error-some u line sig_missing))
  ]

  open_sig :
      (sd : SdRecord) (msg : Bytes) (v : Verifier) (line : ℕ) {w : Verifier}
      → handle_sd_sig sd msg v line ≡ returned w
      → w.errors ≡ []
      → sig_hashed (verify_sd_msg_hash sd msg v line) sd line ≡ returned w
  unfolding handle_sd_sig
  open_sig sd msg v line r clean = elim (Bool-cases (is_processing v.state)) [
    | inl e ↦ sym (if_false _ _ (ap not e)) ∙ r
    | inr e ↦ absurd (ground (arith, add_error-some v line sig_before_init))
  ]

  -- In terms of the state in front of the line.
  before_line :
      (sd : SdRecord) (v : Verifier) {u : Verifier}
      → u ≡ advanced v sd.chain_hash
      → (sd.seq_from ≡ inc64 u.last_signed_seq)
        × (sd.seq_to ≡ sub64 u.next_seq 1)
        × (key_verdict u.pubkey u.chain_hash sd.signature ≡ good)
      → (sd.seq_from ≡ inc64 v.last_signed_seq)
        × (sd.seq_to ≡ sub64 (inc64 v.next_seq) 1)
        × (key_verdict v.pubkey sd.chain_hash sd.signature ≡ good)
  before_line sd v e =
      subst
        (λ (x : Verifier).
          (sd.seq_from ≡ inc64 x.last_signed_seq)
          × (sd.seq_to ≡ sub64 x.next_seq 1)
          × (key_verdict x.pubkey x.chain_hash sd.signature ≡ good))
        e

  -- If a SIG line is handled and the verifier then has no error, its record agrees with the state
  -- in number, width and hash, its range begins behind the last signature and ends at this
  -- message, and the verifier has a key that accepts the signature of the chain hash.
  pub handle_sd_sig_sound :
      (sd : SdRecord) (msg : Bytes) (v : Verifier) (line : ℕ) {w : Verifier}
      → handle_sd_sig sd msg v line ≡ returned w
      → w.errors ≡ []
      → Agrees sd msg v
        × (sd.seq_from ≡ inc64 v.last_signed_seq)
        × (sd.seq_to ≡ sub64 (inc64 v.next_seq) 1)
        × ((key : h.Pkey) × (v.pubkey ≡ some key)
            × (hcs_verify key sd.chain_hash sd.signature ≡ good))
  handle_sd_sig_sound sd msg v line r clean =
      let (u, verified, none_there, f, t, k) =
        sig_hashed_sound sd (verify_sd_msg_hash sd msg v line) line (open_sig sd msg v line r clean)
          clean in
      let (agrees, next) = verify_sd_msg_hash_sound sd msg v line verified none_there in
      let (from, to, accepted) = before_line sd v next (f, t, k) in
      (agrees, from, to, key_verdict_sound v.pubkey sd.chain_hash sd.signature accepted)
