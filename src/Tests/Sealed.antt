-- ===== src/Tests/Sealed.antt =====
-- The theorem on forged signatures, at a log of two lines and a key pair.
use mathlib.Core.Path.{subst}
use mmhashchainsigs.Base.{
  All, Bytes, List, Res, [], ap, arith, codes, inc64, ok, refl, some, sub64, sym, true, ℕ, ◌++◌,
  ◌∙◌, ◌∷◌, ◌≡◌, ◌⊎◌,
}
use mmhashchainsigs.Cli.Lines.{chomp}
use mmhashchainsigs.Cli.Lines.Trace.{Trace, payloads}
use mmhashchainsigs.Crypto.Alg.{hash_len, sha256}
use mmhashchainsigs.Crypto.Hash.{chain_init_hash, hash_chain}
use mmhashchainsigs.Crypto.Hash.Laws.{link}
use mmhashchainsigs.Format.Element.{opening_params, sd_element, sig_params}
use mmhashchainsigs.Format.Element.Clean.{IsCleanParam, opening_params-IsClean, sig_params-IsClean}
use mmhashchainsigs.Format.Element.Ids.{sd_prefix}
use mmhashchainsigs.Format.Parse.{SdRecord, parse_sd}
use mmhashchainsigs.Format.Parse.RoundTrip.{parse_sd-opening, parse_sd-sig}
use mmhashchainsigs.Format.Strip.{strip_sd_from_line}
use mmhashchainsigs.Format.Strip.Line.{strip_sd_from_line-element}
use mmhashchainsigs.HashChain.{HashChain, chain_init, chain_update}
use mmhashchainsigs.HashChain.Binding.{chain_updates}
use mmhashchainsigs.Pipeline.Genuine.{AllIssued, run_lines-AllIssued}
use mmhashchainsigs.Pipeline.Genuine.Issued.{Clash, IsIssued, IsUnforged}
use mmhashchainsigs.Pipeline.Run.{chomp_line}
use mmhashchainsigs.Pipeline.Step.{sig_record}
use mmhashchainsigs.Tests.Logs.{one-IsStorable}
use mmhashchainsigs.Tests.Passing.{first_text, in_mode, key_verifier}
use mmhashchainsigs.Tests.States.{first_hash, first_init, first_width}
use mmhashchainsigs.Tests.Strict.{
  behind_second, second_text, signed_log, signed_log_read, strict_opts, strict_start,
}
use mmhashchainsigs.Tests.Texts.{fp_width, some_fp}
use mmhashchainsigs.Tests.Toy.{toy, toy_hash, toy_key, toy_sign}
use mmhashchainsigs.Tests.ToyLaws.{toy-IsBase64, toy-IsDigest, toy-IsKeyPair}
use mmhashchainsigs.Verifier.Line.{msg_buf_len}
use mmhashchainsigs.Verifier.State.{unsigned_count, verifier_finalize, verifier_passed}

-- The chain hash behind the second message of a chain.
abbrev sealed_hash : Bytes
sealed_hash = link ⦃h = toy⦄ toy_hash sha256 first_hash 2 (codes "one")

-- The signer has signed behind these messages and nowhere else.
abbrev IsTwice : List Bytes → Type 0
IsTwice ms = ms ≡ (codes "one" ∷ codes "one" ∷ [])

abbrev sealed_chain : HashChain
sealed_chain = record { alg = sha256; hash_len = 32; current = sealed_hash; seq = 3; msg_count = 2 }

sealed_chain-hashed :
    chain_updates ⦃h = toy⦄ ((chain_init ⦃h = toy⦄ sha256).0) (codes "one" ∷ codes "one" ∷ [])
    ≡ some sealed_chain
unfolding chain_updates chain_update chain_init chain_init_hash hash_chain inc64 hash_len
sealed_chain-hashed = refl

sealed-IsIssued : IsIssued ⦃h = toy⦄ IsTwice sealed_hash
sealed-IsIssued = record {
  alg = sha256;
  messages = codes "one" ∷ codes "one" ∷ [];
  chain = sealed_chain;
  hashed = sealed_chain-hashed;
  ends = refl;
  number = (omega arith, omega arith);
  issued = refl;
}

-- A line of an element that is read as a record: it is the only one.
line_record :
    (ps : List (Bytes × Bytes)) (r : SdRecord)
    → All IsCleanParam ps
    → parse_sd ⦃h = toy⦄ (sd_element sd_prefix ps) ≡ ok r
    → let l = sd_element sd_prefix ps ++ (codes "one" ++ b'\n' ∷ []) in
      (msg : Bytes) (sd : SdRecord)
      → strip_sd_from_line ⦃h = toy⦄ ((chomp l).0) ((chomp l).1) msg_buf_len ≡ ok (msg, sd)
      → r ≡ sd
line_record ps r clean parsed msg sd e = ap (record_of r) (
    sym (
      ap (λ (c : Bytes × ℕ). strip_sd_from_line ⦃h = toy⦄ (c.0) (c.1) msg_buf_len)
        (chomp_line (sd_element sd_prefix ps) (codes "one") one-IsStorable.end_kept
          one-IsStorable.some_byte)
      ∙ strip_sd_from_line-element ⦃h = toy⦄ ps r (codes "one") b'\n' msg_buf_len clean parsed
          (omega arith))
    ∙ e)
  where
    record_of : SdRecord → Res (Bytes × SdRecord) → SdRecord
    record_of s (ok (m, t)) = t
    record_of s _ = s

first-IsUnforged : IsUnforged ⦃h = toy⦄ tt IsTwice (first_text ++ (codes "one" ++ b'\n' ∷ []))
unfolding hash_len
first-IsUnforged msg sd e t accepted =
    let same =
      line_record (opening_params (codes "I") 1 first_hash some_fp) first_init
        (opening_params-IsClean 1 first_hash (toy-IsDigest.hash_bytes sha256 _) (codes "I") some_fp
          (omega arith) (toy-IsDigest.hash_bytes sha256 toy_key))
        (parse_sd-opening ⦃h = toy⦄ sha256 1 first_hash (omega arith) first_width
          (toy-IsDigest.hash_bytes sha256 _) b'I' some_fp (omega arith) fp_width
          (toy-IsDigest.hash_bytes sha256 toy_key))
        msg sd e in
    let kind : b'I' ≡ b'S' = ap (λ (r : SdRecord). r.sd_type) same ∙ t in
    absurd (omega (arith, kind))

second-IsUnforged : IsUnforged ⦃h = toy⦄ tt IsTwice (second_text ++ (codes "one" ++ b'\n' ∷ []))
second-IsUnforged msg sd e t accepted =
    let same =
      line_record (sig_params 2 sealed_hash 1 2 (toy.encode_block (toy_sign sealed_hash)))
        (sig_record 2 sealed_hash 1 (toy_sign sealed_hash))
        (sig_params-IsClean 2 sealed_hash (toy-IsDigest.hash_bytes sha256 _) 1 2 _
          (toy-IsBase64.encode_plain (toy_sign sealed_hash) (toy-IsKeyPair.bytes sealed_hash)))
        (parse_sd-sig ⦃h = toy⦄ sha256 2 sealed_hash (omega arith)
          (toy-IsDigest.hash_width sha256 _) (toy-IsDigest.hash_bytes sha256 _) toy-IsBase64 1 2
          (toy_sign sealed_hash) (omega arith) (omega arith) (toy-IsKeyPair.bytes sealed_hash)
          (toy-IsKeyPair.short sealed_hash))
        msg sd e in
    subst (λ (r : SdRecord). IsIssued ⦃h = toy⦄ IsTwice r.chain_hash) same sealed-IsIssued

run_lines-AllIssued_example :
    (t : Trace ⦃h = toy⦄ (in_mode true key_verifier) signed_log behind_second) × (AllIssued
        ⦃h = toy⦄ IsTwice
        (payloads ⦃h = toy⦄ t)
      ⊎ Clash ⦃h = toy⦄ toy_hash IsTwice (payloads ⦃h = toy⦄ t))
unfolding verifier_passed verifier_finalize unsigned_count sub64 inc64
run_lines-AllIssued_example =
    run_lines-AllIssued ⦃h = toy⦄ toy-IsDigest tt strict_opts signed_log strict_start refl
      (refl, refl) (omega arith) (first-IsUnforged, (second-IsUnforged, tt)) signed_log_read refl
