-- ===== src/Tests/Carried.antt =====
-- The theorem on a certificate element in a client's message.
use mathlib.Core.Path.{subst}
use mmhashchainsigs.Base.{
  All, Bytes, IsByte, [], arith, codes, false, inc64, length, ok, refl, some, strip_prefix, ◌++◌,
  ◌∷◌, ◌<◌, ◌≡◌, ◌≤◌, ◌⊎◌,
}
use mmhashchainsigs.Cli.Lines.{chomp, run_lines}
use mmhashchainsigs.Crypto.Alg.{hash_len, sha256}
use mmhashchainsigs.Crypto.Hash.{uint64_to_be}
use mmhashchainsigs.Crypto.Hash.Laws.{link}
use mmhashchainsigs.Crypto.Keys.{hcs_sign, pick_md}
use mmhashchainsigs.Format.Codec.{b64_decode}
use mmhashchainsigs.Format.Element.{msg_params, sd_element}
use mmhashchainsigs.Format.Element.Clean.{msg_params-IsClean}
use mmhashchainsigs.Format.Element.Ids.{cert_prefix, sd_prefix}
use mmhashchainsigs.Format.Parse.{sig_len_max}
use mmhashchainsigs.Format.Parse.RoundTrip.{parse_sd-msg}
use mmhashchainsigs.Format.Scan.{find_prefix, quoted}
use mmhashchainsigs.Format.Strip.{extract_and_strip_cert_sd}
use mmhashchainsigs.Format.Strip.Cert.{cert_text}
use mmhashchainsigs.HashChain.Binding.{Collision}
use mmhashchainsigs.Pipeline.Refused.Emission.{IsSigner}
use mmhashchainsigs.Pipeline.Refused.Inside.{cert_in_message_refused}
use mmhashchainsigs.Pipeline.Run.{chomp_line}
use mmhashchainsigs.Pipeline.Step.{msg_record}
use mmhashchainsigs.Signer.{signer_sign}
use mmhashchainsigs.Tests.Logs.{small_instance}
use mmhashchainsigs.Tests.Passing.{read_verifier}
use mmhashchainsigs.Tests.Refusals.{one_line_read}
use mmhashchainsigs.Tests.Restarts.{one_behind, one_behind-IsSynced}
use mmhashchainsigs.Tests.States.{first_hash}
use mmhashchainsigs.Tests.Toy.{toy, toy_decode, toy_encode, toy_hash, toy_sign}
use mmhashchainsigs.Tests.ToyLaws.{toy-IsBase64, toy-IsDigest, toy-IsKeyPair}
use mmhashchainsigs.Verifier.Handlers.{handle_sd_msg}
use mmhashchainsigs.Verifier.Line.Element.{process_line-carried_msg}
use mmhashchainsigs.Verifier.State.{Verifier, verifier_finalize, verifier_passed}
use mmhashchainsigs.Worker.Process.{process_next}
use mmhashchainsigs.Worker.Process.Emits.{process_next-msg}
use mmhashchainsigs.Worker.State.{Active, Instance}

abbrev wide_instance : Instance
wide_instance = record (small_instance) { sign_interval = 9 }

-- A message with a certificate element in the middle.
abbrev odd_message : Bytes
odd_message = codes "x" ++ (cert_text (toy_encode (codes "abc")) ++ codes "one")

odd_found :
    extract_and_strip_cert_sd ⦃h = toy⦄ odd_message 8192 4096
    ≡ ok (codes "xone", some (codes "abc"))
unfolding extract_and_strip_cert_sd find_prefix strip_prefix quoted b64_decode toy_encode toy_decode
    cert_prefix
odd_found = refl

odd_end : chomp odd_message ≡ (odd_message, 0)
unfolding chomp toy_encode cert_prefix
odd_end = refl

odd_short : length odd_message < 8192
unfolding toy_encode cert_prefix
odd_short = omega arith

made_by_toy :
    (m sig : Bytes) → signer_sign ⦃h = toy⦄ one_behind.signer m ≡ some sig → toy_sign m ≡ sig
unfolding signer_sign hcs_sign pick_md
made_by_toy m sig e = ground arith

one_behind-IsSigner : IsSigner ⦃h = toy⦄ one_behind.signer
one_behind-IsSigner = record {
  bytes =
      λ m sig e. subst (λ (x : Bytes). All IsByte x) (made_by_toy m sig e) (toy-IsKeyPair.bytes m);
  short = λ m sig e.
      subst (λ (x : Bytes). length x ≤ sig_len_max) (made_by_toy m sig e) (toy-IsKeyPair.short m);
}

abbrev odd_hash : Bytes
odd_hash = link ⦃h = toy⦄ toy_hash sha256 first_hash 2 odd_message

abbrev behind_odd : Active ⦃h = toy⦄
behind_odd = record one_behind {
  chain = record (one_behind.chain) { current = odd_hash; seq = 3; msg_count = 2 };
}

odd_text :
    process_next ⦃h = toy⦄ wide_instance one_behind odd_message 512
    ≡ (behind_odd, some (sd_element sd_prefix (msg_params 2 odd_hash)))
unfolding inc64
odd_text =
    process_next-msg ⦃h = toy⦄ toy-IsDigest wide_instance one_behind odd_message 512 (omega arith)
      (omega arith) refl (omega arith)

abbrev odd_line : Bytes
odd_line = sd_element sd_prefix (msg_params 2 odd_hash) ++ (odd_message ++ b'\n' ∷ [])

odd_width : length odd_hash ≡ hash_len sha256
odd_width = toy-IsDigest.hash_width sha256 _

odd_read : (w : Verifier ⦃h = toy⦄) × (run_lines ⦃h = toy⦄ read_verifier (odd_line ∷ []) 2 ≡ ok w)
odd_read =
    one_line_read ⦃h = toy⦄ read_verifier odd_line 2
      (handle_sd_msg ⦃h = toy⦄ (msg_record ⦃h = toy⦄ 2 odd_hash) (codes "xone") read_verifier 2)
      (chomp_line (sd_element sd_prefix (msg_params 2 odd_hash)) odd_message odd_end (omega arith))
      (process_line-carried_msg ⦃h = toy⦄ read_verifier (msg_params 2 odd_hash)
        (msg_record ⦃h = toy⦄ 2 odd_hash) (codes "xone") b'\n' 2
        (msg_params-IsClean 2 odd_hash (toy-IsDigest.hash_bytes sha256 _))
        (parse_sd-msg ⦃h = toy⦄ sha256 2 odd_hash (omega arith) odd_width
          (toy-IsDigest.hash_bytes sha256 _))
        odd_message (codes "abc") odd_found odd_short refl refl)

cert_in_message_refused_example :
    (verifier_passed ⦃h = toy⦄ (verifier_finalize ⦃h = toy⦄ (odd_read.0)) ≡ false)
    ⊎ Collision toy_hash sha256
        ((first_hash ++ (uint64_to_be 2 ++ odd_message)) ∷ [])
        ((first_hash ++ (uint64_to_be 2 ++ codes "xone")) ∷ [])
cert_in_message_refused_example =
    cert_in_message_refused ⦃h = toy⦄ toy-IsDigest toy-IsBase64 wide_instance 512 sha256 tt
      one_behind read_verifier odd_message (codes "xone") (codes "abc") [] 2 (omega arith)
      one_behind-IsSynced (omega arith) one_behind-IsSigner odd_found odd_short odd_end odd_text
      (odd_read.1)
