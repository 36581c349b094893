-- ===== src/Tests/Refusals.antt =====
-- The theorems on lines that are refused: a signature that fails, and a certificate element in a
-- client's message.
use mathlib.Core.Path.{subst}
use mmhashchainsigs.Base.{
  All, Bytes, IsByte, List, Option, [], ap, arith, bytes_eq, bytes_eq_refl, codes, inc64, length,
  false, if◌then◌else◌, inl, none, ok, refl, some, strip_prefix, true, ℕ, ◌++◌, ◌∙◌, ◌∷◌, ◌≡◌, ◌≤◌,
}
use mmhashchainsigs.Cli.Lines.{chomp, run_lines}
use mmhashchainsigs.Crypto.Alg.{hash_len, sha256}
use mmhashchainsigs.Crypto.Hash.{chain_iv, uint64_to_be}
use mmhashchainsigs.Crypto.Hash.Laws.{IsDigest, link}
use mmhashchainsigs.Crypto.Host.{Host}
use mmhashchainsigs.Crypto.Keys.{hcs_sign, pick_md}
use mmhashchainsigs.Format.Codec.Laws.{IsBase64}
use mmhashchainsigs.Format.Element.{sd_element, sig_params}
use mmhashchainsigs.Format.Element.Ids.{cert_prefix, sd_prefix}
use mmhashchainsigs.Format.Element.Clean.{sig_params-IsClean}
use mmhashchainsigs.Format.Parse.{SdRecord, sig_len_max}
use mmhashchainsigs.Format.Parse.RoundTrip.{parse_sd-sig}
use mmhashchainsigs.Format.Scan.{find_prefix}
use mmhashchainsigs.HashChain.{reset_count}
use mmhashchainsigs.Pipeline.{IsStorable, IsSynced}
use mmhashchainsigs.Pipeline.Refused.Emission.{IsSigner}
use mmhashchainsigs.Pipeline.Refused.Missing.{missing_line_refused}
use mmhashchainsigs.Pipeline.Run.{chomp_line}
use mmhashchainsigs.Pipeline.Step.{sig_record}
use mmhashchainsigs.Signer.{signer_sign}
use mmhashchainsigs.Tests.Logs.{small_instance}
use mmhashchainsigs.Tests.States.{first_hash}
use mmhashchainsigs.Tests.Toy.{toy, toy_encode, toy_hash, toy_key, toy_sign}
use mmhashchainsigs.Tests.ToyLaws.{toy-IsBase64, toy-IsDigest, toy-IsKeyPair}
use mmhashchainsigs.Verifier.Handlers.{Outcome, aborted, handle_sd_sig, returned}
use mmhashchainsigs.Verifier.Handlers.Accept.{advanced, opened}
use mmhashchainsigs.Verifier.Line.{process_line}
use mmhashchainsigs.Verifier.Line.Element.{process_line-sig}
use mmhashchainsigs.Verifier.State.{Verifier, fresh, verifier_finalize, verifier_passed}
use mmhashchainsigs.Worker.Process.{process_next}
use mmhashchainsigs.Worker.Process.Emits.{process_next-signed, process_next-unsigned}
use mmhashchainsigs.Worker.Process.Interval.{worker_after}
use mmhashchainsigs.Worker.State.{Active}

-- A host whose `EVP_DigestSign` fails on one chain hash.
abbrev mute_hash : Bytes
mute_hash = link ⦃h = toy⦄ toy_hash sha256 first_hash 2 (codes "one")

abbrev mute : Host
mute = record toy {
  digest_sign = λ md k m. if bytes_eq m mute_hash then none else some (toy_sign m);
}

mute-IsDigest : IsDigest ⦃h = mute⦄ toy_hash
mute-IsDigest = record {
  digest_total = toy-IsDigest.digest_total;
  hash_width = toy-IsDigest.hash_width;
  hash_bytes = toy-IsDigest.hash_bytes;
}

mute-IsBase64 : IsBase64 ⦃h = mute⦄
mute-IsBase64 = record {
  encode_plain = toy-IsBase64.encode_plain;
  encode_length = toy-IsBase64.encode_length;
  encode_padding = toy-IsBase64.encode_padding;
  decode_encode = toy-IsBase64.decode_encode;
}

abbrev mute_worker : Active ⦃h = mute⦄
mute_worker = record {
  chain = record { alg = sha256; hash_len = 32; current = first_hash; seq = 2; msg_count = 1 };
  signer = record {
    privkey = tt;
    cert = none;
    cert_der = none;
    pubkey_fp = toy_hash sha256 toy_key;
  };
  sig_seq_from = 1;
  is_first = false;
}

made_by_toy :
    (m sig : Bytes) → signer_sign ⦃h = mute⦄ mute_worker.signer m ≡ some sig → toy_sign m ≡ sig
unfolding signer_sign hcs_sign pick_md
made_by_toy m sig e = ground arith

mute-IsSigner : IsSigner ⦃h = mute⦄ mute_worker.signer
mute-IsSigner = record {
  bytes =
      λ m sig e. subst (λ (x : Bytes). All IsByte x) (made_by_toy m sig e) (toy-IsKeyPair.bytes m);
  short = λ m sig e.
      subst (λ (x : Bytes). length x ≤ sig_len_max) (made_by_toy m sig e) (toy-IsKeyPair.short m);
}

-- The worker behind the message whose signature has failed.
abbrev muted : Active ⦃h = mute⦄
muted = record mute_worker {
  chain = record (mute_worker.chain) { current = mute_hash; seq = 3; msg_count = 2 };
}

sign_fails : signer_sign ⦃h = mute⦄ mute_worker.signer mute_hash ≡ none
unfolding signer_sign hcs_sign pick_md
sign_fails = rw (bytes_eq_refl mute_hash) refl

mute_step : process_next ⦃h = mute⦄ small_instance mute_worker (codes "one") 512 ≡ (muted, none)
unfolding inc64
mute_step =
    process_next-unsigned ⦃h = mute⦄ mute-IsDigest small_instance mute_worker (codes "one") 512
      (omega arith) (omega arith) sign_fails refl (omega arith)

-- What it emits for the next one.
abbrev next_hash : Bytes
next_hash = link ⦃h = toy⦄ toy_hash sha256 mute_hash 3 (codes "two")

sign_works : signer_sign ⦃h = mute⦄ mute_worker.signer next_hash ≡ some (toy_sign next_hash)
unfolding signer_sign hcs_sign pick_md bytes_eq toy_hash hash_len chain_iv uint64_to_be
sign_works = refl

abbrev mute_params : List (Bytes × Bytes)
mute_params = sig_params 3 next_hash 1 3 (toy_encode (toy_sign next_hash))

abbrev spoken : Active ⦃h = mute⦄
spoken = record muted {
  chain = record (muted.chain) { current = next_hash; seq = 4; msg_count = 0 };
  sig_seq_from = 4;
}

mute_text :
    process_next ⦃h = mute⦄ small_instance
      (worker_after ⦃h = mute⦄ small_instance mute_worker (codes "one" ∷ []) 512)
      (codes "two")
      512
    ≡ (spoken, some (sd_element sd_prefix mute_params))
unfolding worker_after inc64 reset_count
mute_text =
    ap
      (λ (r : Active ⦃h = mute⦄ × Option Bytes).
        process_next ⦃h = mute⦄ small_instance (r.0) (codes "two") 512)
      mute_step
    ∙ process_next-signed ⦃h = mute⦄ mute-IsDigest small_instance muted (codes "two") 512
        (omega arith) (omega arith) (toy_sign next_hash) mute-IsBase64 sign_works
        (toy-IsKeyPair.short next_hash) refl (omega arith)

abbrev mute_verifier : Verifier ⦃h = mute⦄
mute_verifier =
    advanced ⦃h = mute⦄
      (opened ⦃h = mute⦄ sha256 (toy_hash sha256 chain_iv) (record (fresh ⦃h = mute⦄ false) {
        pubkey = some tt;
        pubkey_fp = toy_hash sha256 toy_key;
        have_pubkey = true;
      }))
      first_hash

mute-IsSynced : IsSynced ⦃h = mute⦄ sha256 tt mute_worker mute_verifier
unfolding hash_len inc64
mute-IsSynced = record {
  is_open = refl;
  alg_is = refl;
  verifier_alg = refl;
  verifier_len = refl;
  same_hash = refl;
  same_seq = refl;
  same_range = refl;
  from_small = omega arith;
  in_segment = refl;
  has_key = refl;
  no_errors = refl;
}

two-IsStorable : IsStorable (codes "two")
unfolding find_prefix cert_prefix strip_prefix chomp
two-IsStorable = record {
  no_cert = refl;
  short = omega arith;
  end_kept = refl;
  some_byte = omega arith;
}

-- A log of one line that stays inside the buffers is read.
pub one_line_read :
    ⦃h : Host⦄
    → (v : Verifier ⦃h = h⦄) (l : Bytes) {text : Bytes} {beyond : ℕ} (line : ℕ)
      (o : Outcome (Verifier ⦃h = h⦄))
    → chomp l ≡ (text, beyond)
    → process_line ⦃h = h⦄ v text beyond line ≡ ok o
    → (w : Verifier ⦃h = h⦄) × (run_lines ⦃h = h⦄ v (l ∷ []) line ≡ ok w)
unfolding run_lines
one_line_read v l line (returned w) t p = (w, rw (t, run_lines) (rw p refl))
one_line_read v l line (aborted w) t p = (w, rw (t, run_lines) (rw p refl))

abbrev gap_line : Bytes
gap_line = sd_element sd_prefix mute_params ++ (codes "two" ++ b'\n' ∷ [])

next_width : length next_hash ≡ hash_len sha256
next_width = toy-IsDigest.hash_width sha256 _

abbrev gap_record : SdRecord
gap_record = sig_record ⦃h = mute⦄ 3 next_hash 1 (toy_sign next_hash)

gap_read : (w : Verifier ⦃h = mute⦄) × (run_lines ⦃h = mute⦄ mute_verifier (gap_line ∷ []) 2 ≡ ok w)
gap_read =
    one_line_read ⦃h = mute⦄ mute_verifier gap_line 2
      (handle_sd_sig ⦃h = mute⦄ gap_record (codes "two") mute_verifier 2)
      (chomp_line (sd_element sd_prefix mute_params) (codes "two") two-IsStorable.end_kept
        (omega arith))
      (process_line-sig ⦃h = mute⦄ mute_verifier mute_params gap_record (codes "two") b'\n' 2
        (sig_params-IsClean 3 next_hash (toy-IsDigest.hash_bytes sha256 _) 1 3 _
          (toy-IsBase64.encode_plain (toy_sign next_hash) (toy-IsKeyPair.bytes next_hash)))
        (parse_sd-sig ⦃h = mute⦄ sha256 3 next_hash (omega arith) next_width
          (toy-IsDigest.hash_bytes sha256 _) mute-IsBase64 1 3 (toy_sign next_hash) (omega arith)
          (omega arith) (toy-IsKeyPair.bytes next_hash) (toy-IsKeyPair.short next_hash))
        two-IsStorable.no_cert two-IsStorable.short (inl refl) refl)

missing_line_refused_example :
    verifier_passed ⦃h = mute⦄ (verifier_finalize ⦃h = mute⦄ (gap_read.0)) ≡ false
missing_line_refused_example =
    missing_line_refused ⦃h = mute⦄ mute-IsDigest mute-IsBase64 small_instance 512 sha256 tt
      mute_worker mute_verifier (codes "one" ∷ []) (codes "two") [] 2 (omega arith) mute-IsSynced
      mute-IsSigner (omega arith) (omega arith) two-IsStorable mute_text (gap_read.1)
