-- ===== src/Verifier/Entry.antt =====
-- What an accepted line says of its message: the step of the chain that the verifier has checked,
-- apart from how the handlers find it.
use mmhashchainsigs.Base.{Bytes, false, inc64, some, sub64, true, ℕ, ◌≡◌, ◌≢◌, ◌⊎◌, Option}
use mmhashchainsigs.Format.Parse.{SdRecord}
use mmhashchainsigs.Crypto.Hash.{chain_init_hash, hash_chain}
use mmhashchainsigs.Crypto.Host.{Host, trusted}
use mmhashchainsigs.Crypto.Keys.{good, hcs_verify, x509_get_pubkey, pubkey_fingerprint}
use mmhashchainsigs.Verifier.State.{Verifier, processing, unsigned_count}

module _ ⦃h : Host⦄ where
  -- The message continues the chain of a segment.
  pub record Link (v : Verifier) (payload : Bytes) (w : Verifier) : Type 0 where
    pub inside : v.state ≡ processing
    pub hashed : hash_chain v.hash_alg v.chain_hash v.next_seq payload ≡ some w.chain_hash
    pub counted : w.next_seq ≡ inc64 v.next_seq
    pub same_alg : w.hash_alg ≡ v.hash_alg

  -- The verifier's key accepts a signature of the chain hash, for the messages behind the last
  -- signature up to this one.
  pub record Signed (v w : Verifier) : Type 0 where
    pub key : h.Pkey
    pub sig : Bytes
    pub from : ℕ
    pub has_key : v.pubkey ≡ some key
    pub accepted : hcs_verify key w.chain_hash sig ≡ good
    pub from_next : from ≡ inc64 v.last_signed_seq
    pub up_to : w.last_signed_seq ≡ sub64 w.next_seq 1

  -- The message is the first of a chain with an algorithm's initial hash. Inside a log the range of
  -- signatures starts again, and in strict mode no message is left unsigned.
  pub record Opens (v : Verifier) (payload : Bytes) (w : Verifier) : Type 0 where
    pub start : Bytes
    pub initial : chain_init_hash w.hash_alg ≡ some start
    pub hashed : hash_chain w.hash_alg start 1 payload ≡ some w.chain_hash
    pub counted : w.next_seq ≡ inc64 1
    pub closed :
        ((v.state ≢ processing) × (w.last_signed_seq ≡ v.last_signed_seq))
        ⊎ ((w.last_signed_seq ≡ 0) × ((v.strict ≡ false) ⊎ (unsigned_count v ≡ 0)))

  pub data Entry (v : Verifier) (payload : Bytes) (w : Verifier) : Type 0 where
    opens : Opens v payload w → Entry v payload w
    links : Link v payload w → w.last_signed_seq ≡ v.last_signed_seq → Entry v payload w
    signs : Link v payload w → Signed v w → Entry v payload w

  -- A key, with its fingerprint.
  abbrev pub KeyOf : Option h.Pkey → Bytes → Type 0
  KeyOf held fp = (key : h.Pkey) × (held ≡ some key) × (pubkey_fingerprint key ≡ some fp)

  -- What the element says, with the step that is made of it: its type is that of the step, its
  -- number the expected one, and in a SIG its range and signature are those that were checked.
  abbrev pub OfType : SdRecord → {v w : Verifier} {payload : Bytes} → Entry v payload w → Type 0
  OfType sd {v} (opens o) = (sd.sd_type ≡ b'I') × (sd.seq ≡ 1)
  OfType sd {v} (links l k) = ((sd.sd_type ≡ 0) ⊎ (sd.sd_type ≡ b'C')) × (sd.seq ≡ v.next_seq)
  OfType sd {v} {w} (signs l s) =
      (sd.sd_type ≡ b'S')
      × (sd.seq ≡ v.next_seq)
      × (s.sig ≡ sd.signature)
      × (s.from ≡ sd.seq_from)
      × (w.last_signed_seq ≡ sd.seq_to)

  pub record Recorded (sd : SdRecord) {v w : Verifier} {payload : Bytes} (e : Entry v payload w)
      : Type 0 where
    pub of_type : OfType sd e
    pub same_hash : w.chain_hash ≡ sd.chain_hash

  -- The key is that of a certificate which the verifier's CA bundle trusts.
  pub record Certified (v : Verifier) (der : Bytes) (w : Verifier) : Type 0 where
    pub store : h.TrustStore
    pub cert : h.Cert
    pub key : h.Pkey
    pub has_store : v.trust_store ≡ some store
    pub no_key : v.have_pubkey ≡ false
    pub parsed : h.d2i der ≡ some cert
    pub is_trusted : h.verify_cert store cert ≡ trusted
    pub of_cert : x509_get_pubkey cert ≡ some key
    pub holds : w.pubkey ≡ some key
    pub held : w.have_pubkey ≡ true

  pub data Keyed (v : Verifier) (der : Bytes) (w : Verifier) : Type 0 where
    kept : w.pubkey ≡ v.pubkey → w.have_pubkey ≡ v.have_pubkey → Keyed v der w
    installed : Certified v der w → Keyed v der w

  -- An accepted line, with the certificate in front of its message, keeps the verifier's key or
  -- installs the certificate's, and leaves it inside a segment with its anchor and mode.
  pub record Step (v : Verifier) (der payload : Bytes) (w : Verifier) : Type 0 where
    pub entry : Entry v payload w
    pub keys : Keyed v der w
    pub same_store : w.trust_store ≡ v.trust_store
    pub same_strict : w.strict ≡ v.strict
    pub in_segment : w.state ≡ processing
