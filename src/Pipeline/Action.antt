-- ===== src/Pipeline/Action.antt =====
-- A message through `doAction`: what rsyslog then stores, the verifier accepts.
use mmhashchainsigs.Base.{
  Bytes, Option, ap, append_assoc, arith, ok, refl, some, u64_mod, ℕ, ◌++◌, ◌+◌, ◌<◌, ◌∙◌, ◌≡◌, All,
  List, inc64, sym, ◌∷◌, [],
}
use mmhashchainsigs.Cli.Lines.Split.{All-join, IsInline, file_lines-cons}
use mmhashchainsigs.Cli.Lines.{file_lines, run_lines}
use mmhashchainsigs.Crypto.Alg.{HashAlg}
use mmhashchainsigs.Crypto.Hash.Laws.{IsDigest, IsKeyPair}
use mmhashchainsigs.Crypto.Host.{Host}
use mmhashchainsigs.Format.Codec.Laws.{IsBase64, IsUnbroken}
use mmhashchainsigs.Pipeline.{IsSynced, IsStored}
use mmhashchainsigs.Pipeline.Restart.Resume.{process_msg-running, running}
use mmhashchainsigs.Pipeline.Run.{step-open, chomp_line}
use mmhashchainsigs.Verifier.Handlers.{returned}
use mmhashchainsigs.Verifier.Line.{process_line}
use mmhashchainsigs.Verifier.State.{Verifier}
use mmhashchainsigs.Worker.Action.{SyslogMsg, act, cleaned_sd, do_action, sd_room, with_sd}
use mmhashchainsigs.Worker.Process.{process_next}
use mmhashchainsigs.Worker.State.{Active, Instance}

module _ ⦃h : Host⦄ {hash : HashAlg → Bytes → Bytes} (d : IsDigest hash) (b64 : IsBase64)
    (inst : Instance) (alg : HashAlg) (pk : h.Pkey) (unbroken : IsUnbroken)
    (sign : Bytes → Bytes) where
  shape :
      (text cleaned body rest : Bytes)
      → (text ++ cleaned) ++ (body ++ b'\n' ∷ rest) ≡ (text ++ (cleaned ++ body)) ++ b'\n' ∷ rest
  shape text cleaned body rest =
      sym (append_assoc (text ++ cleaned) body (b'\n' ∷ rest))
      ∙ ap (λ (t : Bytes). t ++ b'\n' ∷ rest) (append_assoc text cleaned body)

  -- An accepted line in front of the rest of a file.
  read_line :
      (v w : Verifier) (text p rest : Bytes) (line : ℕ)
      → IsStored p
      → All IsInline text
      → ((beyond : ℕ) → process_line v (text ++ p) beyond line ≡ ok (returned w))
      → run_lines v (file_lines ((text ++ p) ++ b'\n' ∷ rest)) line
        ≡ run_lines w (file_lines rest) (inc64 line)
  unfolding run_lines
  read_line v w text p rest line s inline acc =
      ap (λ (ls : List Bytes). run_lines v ls line)
        (file_lines-cons (text ++ p) rest (All-join text p inline s.inline)
          ∙ ap (λ (l : Bytes). l ∷ file_lines rest) (append_assoc text p (b'\n' ∷ [])))
      ∙ rw (chomp_line text p s.storable.end_kept s.storable.some_byte, run_lines)
          (rw (acc b'\n') refl)

  act_text :
      (file : Option Bytes) (a b : Active) (m : SyslogMsg) (cleaned text : Bytes)
      → cleaned_sd m ≡ some cleaned
      → process_next inst a (cleaned ++ m.body) sd_room ≡ (b, some text)
      → do_action (running inst file a) m ≡ (running inst file b, some (text ++ cleaned))
  unfolding do_action act with_sd
  act_text file a b m cleaned text c e =
      rw (c, act) (rw (process_msg-running inst file a (cleaned ++ m.body) sd_room) (rw e refl))

  -- A message that doAction takes for a running worker that a verifier has followed is stored as
  -- one line that this verifier accepts, whatever stands behind it in the file, and the verifier
  -- has then followed the worker again: the new structured data and the message are the element and
  -- the payload that was hashed. The message's header and client data can be cleaned, the payload
  -- has 1 to 8191 bytes, no newline, no carriage return at its end and no certificate element
  -- inside, the sequence number is below 2^64 - 1, and OpenSSL's digests, base64 and the key pair
  -- work as documented.
  pub do_action-accepted :
      (file : Option Bytes) (a : Active) (v : Verifier) (m : SyslogMsg) (cleaned : Bytes) (line : ℕ)
      → IsSynced alg pk a v
      → IsKeyPair a.signer.privkey pk sign
      → a.chain.seq + 1 < u64_mod
      → cleaned_sd m ≡ some cleaned
      → IsStored (cleaned ++ m.body)
      → (b : Active) × (sd : Bytes) × (w : Verifier) × (do_action (running inst file a) m
          ≡ (running inst file b, some sd))
        × ((rest : Bytes)
            → run_lines v (file_lines (sd ++ (m.body ++ b'\n' ∷ rest))) line
              ≡ run_lines w (file_lines rest) (inc64 line))
        × IsSynced alg pk b w
  do_action-accepted file a v m cleaned line s k small c p =
      let x =
        step-open d b64 inst sd_room (omega arith) alg pk unbroken sign a v (cleaned ++ m.body) line
          p.storable small s k in
      (
        x.next,
        x.text ++ cleaned,
        x.after,
        act_text file a x.next m cleaned x.text c x.emitted,
        (λ rest.
            ap (λ (t : Bytes). run_lines v (file_lines t) line) (shape x.text cleaned m.body rest)
            ∙ read_line v x.after x.text (cleaned ++ m.body) rest line p x.inline x.accepted),
        x.synced,
      )
