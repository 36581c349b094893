-- ===== src/Pipeline/Opening.antt =====
-- The first message of a chain: what the worker emits in front of it, the verifier accepts, whether
-- it is at the start of a log or inside one.
use mmhashchainsigs.Base.{
  All, Bytes, IsByte, [], ap, arith, codes, false, inc64, inl, inr, length, none, ok, refl, some,
  sym, true, u64_mod, ℕ, ◌<◌, ◌∙◌, ◌≡◌, ◌≤◌, ◌⊎◌,
}
use mmhashchainsigs.Format.Element.Inline.{opening-IsInline}
use mmhashchainsigs.Crypto.Alg.{HashAlg, fp_len}
use mmhashchainsigs.Crypto.Hash.{chain_init_hash, hash_chain}
use mmhashchainsigs.Crypto.Hash.Laws.{IsDigest, hash_chain-link}
use mmhashchainsigs.Crypto.Host.{Host}
use mmhashchainsigs.Format.Element.{opening_params, sd_element}
use mmhashchainsigs.Format.Element.Bounds.{sd_max_len}
use mmhashchainsigs.Format.Element.Clean.{opening_params-IsClean}
use mmhashchainsigs.Format.Element.Ids.{sd_prefix}
use mmhashchainsigs.Format.Parse.{SdRecord, empty_record}
use mmhashchainsigs.Format.Parse.RoundTrip.{parse_sd-opening}
use mmhashchainsigs.Pipeline.{IsStorable, IsSynced}
use mmhashchainsigs.Pipeline.Step.{Accepted, hash_after, new_bytes, new_width}
use mmhashchainsigs.Signer.{Signer}
use mmhashchainsigs.Verifier.Handlers.{handle_sd_init, returned}
use mmhashchainsigs.Verifier.Handlers.Accept.{
  advanced, handle_sd_init-first, handle_sd_init-next, opened,
}
use mmhashchainsigs.Verifier.Line.Element.{process_line-init}
use mmhashchainsigs.Verifier.State.{Verifier, expect_init, processing, unsigned_count}
use mmhashchainsigs.Worker.Process.Emits.{process_next-first}
use mmhashchainsigs.Worker.State.{Active, Instance}

-- A worker before the first message of a chain.
pub record IsNew ⦃h : Host⦄ (alg : HashAlg) (a : Active) : Type 0 where
  pub is_first : a.is_first ≡ true
  pub alg_is : a.chain.alg ≡ alg
  pub seq_one : a.chain.seq ≡ 1
  pub from_one : a.sig_seq_from ≡ 1
  pub start : chain_init_hash alg ≡ some (a.chain.current)
  pub fp_width : length a.signer.pubkey_fp ≡ fp_len
  pub fp_bytes : All IsByte a.signer.pubkey_fp

-- A verifier that holds a key of this fingerprint, and no CA bundle.
pub record IsHolding ⦃h : Host⦄ (pk : h.Pkey) (fp : Bytes) (v : Verifier) : Type 0 where
  pub no_store : v.trust_store ≡ none
  pub have_pubkey : v.have_pubkey ≡ true
  pub has_key : v.pubkey ≡ some pk
  pub same_fp : v.pubkey_fp ≡ fp

-- A worker before its first message, and a verifier before its first line, with the two keys of a
-- pair.
pub record IsFresh ⦃h : Host⦄ (alg : HashAlg) (pk : h.Pkey) (a : Active) (v : Verifier)
    : Type 0 where
  pub worker_new : IsNew alg a
  pub holding : IsHolding pk (a.signer.pubkey_fp) v
  pub expecting : v.state ≡ expect_init
  pub no_alg : v.have_hash_alg ≡ false
  pub none_signed : v.last_signed_seq ≡ 0
  pub no_errors : v.errors ≡ []

module _ ⦃h : Host⦄ {hash : HashAlg → Bytes → Bytes} (d : IsDigest hash) (inst : Instance)
    (room : ℕ) (enough : sd_max_len ≤ room) (alg : HashAlg) (pk : h.Pkey) (a : Active)
    (v : Verifier) (payload : Bytes) (line : ℕ) (p : IsStorable payload) (f : IsNew alg a) where
  abbrev pub init_record : SdRecord
  init_record = record empty_record {
    sd_type = b'I';
    seq = a.chain.seq;
    chain_hash = hash_after hash a payload;
    pubkey_fp = a.signer.pubkey_fp;
    has_pubkey_fp = true;
  }

  pub first_hashed : hash_chain alg a.chain.current 1 payload ≡ some (hash_after hash a payload)
  first_hashed =
      ap (λ x. hash_chain x a.chain.current 1 payload) (sym f.alg_is)
      ∙ ap (λ x. hash_chain a.chain.alg a.chain.current x payload) (sym f.seq_one)
      ∙ hash_chain-link d a.chain.alg a.chain.current a.chain.seq payload

  -- The states behind the opening of a segment from the state u; the signer may have kept its
  -- certificate.
  pub opening-IsSynced :
      (u : Verifier) (signer : Signer)
      → u.last_signed_seq ≡ 0
      → u.pubkey ≡ some pk
      → u.errors ≡ []
      → IsSynced alg pk
          (record a {
            chain = record (a.chain) {
              current = hash_after hash a payload;
              seq = inc64 a.chain.seq;
              msg_count = inc64 a.chain.msg_count;
            };
            is_first = false;
            signer = signer;
          })
          (advanced (opened alg a.chain.current u) (hash_after hash a payload))
  unfolding inc64
  opening-IsSynced u signer none_signed has_key no_errors = record {
    is_open = refl;
    alg_is = f.alg_is;
    verifier_alg = refl;
    verifier_len = refl;
    same_hash = refl;
    same_seq = rw f.seq_one;
    same_range = rw (none_signed, f.from_one);
    from_small = omega (arith, f.from_one);
    in_segment = refl;
    has_key = has_key;
    no_errors = no_errors;
  }

  -- The line, where the handler opens a segment from the state u.
  process_line-opening :
      inst.embedcert ≡ false
      → (u : Verifier)
      → ((v.state ≡ processing) ⊎ ((v.state ≡ expect_init) × (init_record.sd_type ≡ b'I')))
      → handle_sd_init init_record payload [] v line
        ≡ returned (advanced (opened alg a.chain.current u) (hash_after hash a payload))
      → u.last_signed_seq ≡ 0
      → u.pubkey ≡ some pk
      → u.errors ≡ []
      → u.strict ≡ v.strict
      → Accepted inst room alg pk a v payload line
  unfolding inc64
  process_line-opening e u ready handled none_signed has_key no_errors same =
      let new = hash_after hash a payload in
      let below : a.chain.seq < u64_mod = omega (arith, f.seq_one) in
      record {
        next = _;
        text = sd_element sd_prefix (opening_params (codes "I") a.chain.seq new a.signer.pubkey_fp);
        after = advanced (opened alg a.chain.current u) new;
        emitted = process_next-first d inst a payload room enough below f.is_first e f.fp_width;
        inline =
            opening-IsInline a.chain.seq new (new_bytes d a payload) a.signer.pubkey_fp f.fp_bytes;
        accepted = λ beyond.
            process_line-init v (opening_params (codes "I") a.chain.seq new a.signer.pubkey_fp)
              init_record payload beyond line
              (opening_params-IsClean a.chain.seq new (new_bytes d a payload) (codes "I")
                a.signer.pubkey_fp (omega arith) f.fp_bytes)
              (parse_sd-opening alg a.chain.seq new below (new_width d a payload alg f.alg_is)
                (new_bytes d a payload) b'I' a.signer.pubkey_fp (omega arith) f.fp_width f.fp_bytes)
              p.no_cert p.short ready refl
            ∙ ap ok handled;
        synced = opening-IsSynced u a.signer none_signed has_key no_errors;
        one_more = refl;
        same_privkey = refl;
        same_strict = same;
      }

  -- At the start of a log.
  pub step-init :
      inst.embedcert ≡ false
      → IsHolding pk a.signer.pubkey_fp v
      → v.state ≡ expect_init
      → v.have_hash_alg ≡ false
      → v.last_signed_seq ≡ 0
      → v.errors ≡ []
      → Accepted inst room alg pk a v payload line
  step-init e k expecting no_alg none_signed no_errors =
      process_line-opening e v (inr (expecting, refl))
        (handle_sd_init-first init_record payload line alg a.chain.current
          (new_width d a payload alg f.alg_is) f.start f.seq_one first_hashed [] v refl k.no_store
          k.have_pubkey (sym k.same_fp) expecting no_alg)
        none_signed k.has_key no_errors refl

  -- Inside a log, where the mode is not strict or no message is unsigned.
  pub step-next :
      inst.embedcert ≡ false
      → IsHolding pk a.signer.pubkey_fp v
      → v.state ≡ processing
      → v.hash_alg ≡ alg
      → (v.strict ≡ false) ⊎ (unsigned_count v ≡ 0)
      → v.errors ≡ []
      → Accepted inst room alg pk a v payload line
  step-next e k within same_alg signed no_errors =
      process_line-opening e (record v { last_signed_seq = 0 }) (inl within)
        (handle_sd_init-next init_record payload line alg a.chain.current
          (new_width d a payload alg f.alg_is) f.start f.seq_one first_hashed [] v refl k.no_store
          k.have_pubkey (sym k.same_fp) within same_alg signed)
        refl k.has_key no_errors refl
