-- ===== src/Pipeline/Bundle.antt =====
-- A log with an embedded certificate, read with a CA bundle.
use mmhashchainsigs.Base.{
  All, Bytes, IsByte, List, [], ap, append_assoc, arith, codes, false, length, ltb, not, ok, refl,
  some, true, u64_mod, ℕ, ◌&&◌, ◌*◌, ◌++◌, ◌+◌, ◌-◌, ◌/◌, ◌<◌, ◌∙◌, ◌∷◌, ◌≡◌, ◌≤◌, concat,
}
use mmhashchainsigs.Cli.Lines.Split.{All-join}
use mmhashchainsigs.Format.Strip.Cert.{format_sd_cert-IsInline}
use mmhashchainsigs.Format.Element.Inline.{opening-IsInline}
use mmhashchainsigs.Cli.Lines.{run_lines, file_lines}
use mmhashchainsigs.Crypto.Alg.{HashAlg}
use mmhashchainsigs.Crypto.Hash.Laws.{IsDigest, IsKeyPair}
use mmhashchainsigs.Crypto.Host.{Host, trusted}
use mmhashchainsigs.Crypto.Keys.{pubkey_fingerprint, x509_get_pubkey}
use mmhashchainsigs.Format.Codec.Laws.{IsBase64, IsUnbroken}
use mmhashchainsigs.Format.Element.{cert_der_max, format_sd_cert, opening_params, sd_element}
use mmhashchainsigs.Format.Element.Bounds.{sd_max_len}
use mmhashchainsigs.Format.Element.Clean.{opening_params-IsClean}
use mmhashchainsigs.Format.Element.Ids.{sd_prefix}
use mmhashchainsigs.Format.Parse.RoundTrip.{parse_sd-opening}
use mmhashchainsigs.Pipeline.{IsStorable, stored_lines, IsStored}
use mmhashchainsigs.Pipeline.Opening.{IsNew, first_hashed, init_record, opening-IsSynced}
use mmhashchainsigs.Pipeline.Run.{whole_log_passes}
use mmhashchainsigs.Pipeline.Step.{Accepted, hash_after, new_bytes, new_width}
use mmhashchainsigs.Signer.{Signer, signer_get_cert_der}
use mmhashchainsigs.Verifier.Handlers.Accept.{advanced, handle_sd_init-installed, opened}
use mmhashchainsigs.Verifier.Line.{msg_buf_len, process_line}
use mmhashchainsigs.Verifier.Line.Element.{process_line-cert}
use mmhashchainsigs.Verifier.State.{
  Verifier, expect_init, unsigned_count, verifier_finalize, verifier_passed,
}
use mmhashchainsigs.Worker.Process.Emits.{process_next-embedded}
use mmhashchainsigs.Worker.State.{Active, Instance}

-- A verifier with a CA bundle before its first line, and a certificate that the bundle trusts, whose
-- key has the worker's fingerprint.
pub record IsTrusting ⦃h : Host⦄ (pk : h.Pkey) (fp der : Bytes) (v : Verifier) : Type 0 where
  pub store : h.TrustStore
  pub cert : h.Cert
  pub has_store : v.trust_store ≡ some store
  pub no_key : v.have_pubkey ≡ false
  pub parsed : h.d2i der ≡ some cert
  pub has_ctx : h.new_store_ctx ≡ true
  pub is_trusted : h.verify_cert store cert ≡ trusted
  pub certified : x509_get_pubkey cert ≡ some pk
  pub printed : pubkey_fingerprint pk ≡ some fp
  pub expecting : v.state ≡ expect_init
  pub no_alg : v.have_hash_alg ≡ false
  pub none_signed : v.last_signed_seq ≡ 0
  pub no_errors : v.errors ≡ []

-- The worker's signer gives this certificate, and its element fits the buffer behind the INIT; the
-- element and the payload fit the verifier's.
pub record IsEmbedding ⦃h : Host⦄ (room : ℕ) (sd : Bytes) (a : Active) (der payload : Bytes)
    : Type 0 where
  pub signer : Signer
  pub text : Bytes
  pub given : signer_get_cert_der a.signer ≡ (signer, some der)
  pub same_privkey : signer.privkey ≡ a.signer.privkey
  pub shown : format_sd_cert der (room - length sd) ≡ some text
  pub bytes : All IsByte der
  pub some_byte : 0 < length der
  pub small : (length der + 2) / 3 * 3 ≤ cert_der_max
  pub fits_both : length (text ++ payload) < msg_buf_len

module _ ⦃h : Host⦄ {hash : HashAlg → Bytes → Bytes} (d : IsDigest hash) (b64 : IsBase64)
    (inst : Instance) (room : ℕ) (enough : sd_max_len ≤ room) (alg : HashAlg) (pk : h.Pkey)
    (a : Active) (v : Verifier) (payload : Bytes) (line : ℕ) (p : IsStorable payload)
    (f : IsNew alg a) where
  abbrev pub init_text : Bytes
  init_text =
      sd_element sd_prefix
        (opening_params (codes "I") a.chain.seq (hash_after hash a payload) a.signer.pubkey_fp)

  pub step-cert :
      (unbroken : IsUnbroken) (der : Bytes)
      → inst.embedcert ≡ true
      → IsTrusting pk a.signer.pubkey_fp der v
      → IsEmbedding room init_text a der payload
      → Accepted inst room alg pk a v payload line
  step-cert unbroken der e t m =
      let new = hash_after hash a payload in
      let below : a.chain.seq < u64_mod = omega (arith, f.seq_one) in
      let u : Verifier = record v {
        pubkey = some pk;
        pubkey_fp = a.signer.pubkey_fp;
        have_pubkey = true;
      } in
      record {
        next = _;
        text = init_text ++ m.text;
        after = advanced (opened alg a.chain.current u) new;
        emitted =
            process_next-embedded d inst a payload room enough below m.signer der m.text f.is_first
              e f.fp_width m.given m.shown;
        inline =
            All-join init_text m.text
              (opening-IsInline a.chain.seq new (new_bytes d a payload) a.signer.pubkey_fp
                f.fp_bytes)
              (format_sd_cert-IsInline unbroken der (room - length init_text) m.bytes m.shown);
        accepted = λ beyond.
            ap (λ (l : Bytes). process_line v l beyond line) (append_assoc init_text m.text payload)
            ∙ process_line-cert v (opening_params (codes "I") a.chain.seq new a.signer.pubkey_fp)
                (init_record d inst room enough alg pk a v payload line p f) payload beyond line
                (opening_params-IsClean a.chain.seq new (new_bytes d a payload) (codes "I")
                  a.signer.pubkey_fp (omega arith) f.fp_bytes)
                (parse_sd-opening alg a.chain.seq new below (new_width d a payload alg f.alg_is)
                  (new_bytes d a payload) b'I' a.signer.pubkey_fp (omega arith) f.fp_width
                  f.fp_bytes)
                b64 der m.text (room - length init_text) m.bytes m.shown m.small m.fits_both
                t.expecting refl
            ∙ ap ok (
                handle_sd_init-installed
                  (init_record d inst room enough alg pk a v payload line p f) payload line alg
                  a.chain.current (new_width d a payload alg f.alg_is) f.start f.seq_one
                  (first_hashed d inst room enough alg pk a v payload line p f) t.store t.cert pk
                  a.signer.pubkey_fp der v refl t.has_store t.no_key m.some_byte t.parsed t.has_ctx
                  t.is_trusted t.certified t.printed refl t.expecting t.no_alg);
        synced =
            opening-IsSynced d inst room enough alg pk a v payload line p f u m.signer t.none_signed
              refl t.no_errors;
        one_more = refl;
        same_privkey = m.same_privkey;
        same_strict = refl;
      }

-- A log with an embedded certificate passes with a CA bundle: a worker starts from its first
-- message and embeds the certificate of its key, and the verifier holds no key but a CA bundle that
-- trusts this certificate and has read nothing. The first line carries the certificate, from which
-- the verifier installs the key; it reads the file of the elements and messages, line by line,
-- without an error and passes behind the last one, except in strict mode with messages behind the
-- last signature. OpenSSL's digests, base64 and this key pair work as documented, the SD buffer has
-- 512 bytes or more and the room for the certificate's element, each message has 1 to 8191 bytes,
-- no newline, no carriage return at its end and no certificate element inside, there are less than
-- 2^64 - 1 messages, and the verifier's buffers hold the decoded certificate and the first message
-- with the element.
pub embedded_log_passes :
    ⦃h : Host⦄
    → {hash : HashAlg → Bytes → Bytes} (d : IsDigest hash) (b64 : IsBase64) (unbroken : IsUnbroken)
      (inst : Instance) (room : ℕ) (enough : sd_max_len ≤ room) (alg : HashAlg) (pk : h.Pkey)
      (sign : Bytes → Bytes) (a : Active) (v : Verifier) (p : Bytes) (ps : List Bytes)
      (sp : All IsStored (p ∷ ps)) (f : IsNew alg a) (der : Bytes)
    → inst.embedcert ≡ true
    → IsTrusting pk a.signer.pubkey_fp der v
    → IsEmbedding room (init_text d b64 inst room enough alg pk a v p 1 (sp.0.storable) f) a der p
    → IsKeyPair a.signer.privkey pk sign
    → length ps + 2 < u64_mod
    → (lines : List Bytes) × (after : Verifier) × (stored_lines inst a (p ∷ ps) room ≡ some lines)
      × (run_lines v (file_lines (concat lines)) 1 ≡ ok after)
      × (after.errors ≡ [])
      × (verifier_passed (verifier_finalize after) ≡ not (v.strict && ltb 0 (unsigned_count after)))
embedded_log_passes d b64 unbroken inst room enough alg pk sign a v p ps sp f der e t m k few =
    whole_log_passes d b64 unbroken inst room enough alg pk sign a v p ps
      (step-cert d b64 inst room enough alg pk a v p 1 (sp.0.storable) f unbroken der e t m)
      f.seq_one k sp few
