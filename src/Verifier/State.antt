-- ===== src/Verifier/State.antt =====
-- `verifier_ctx_t`, `add_error`, `verifier_init`, `verifier_finalize` and `verifier_passed`.
pub mod Start
use mmhashchainsigs.Base.{
  Bool, Bytes, List, Option, [], false, if◌then◌else◌, leb, length, ltb, none, some, sub64, true, ℕ,
  ◌&&◌, ◌++◌, ◌+◌, ◌==◌, ◌>>=◌, ◌∷◌,
}
use mmhashchainsigs.Crypto.Alg.{HashAlg, hash_len, sha256}
use mmhashchainsigs.Crypto.Host.{Host}
use mmhashchainsigs.Crypto.Keys.{
  load_public_key, load_x509_cert, pubkey_fingerprint, x509_get_pubkey,
}
use mmhashchainsigs.Verifier.Errors.{VerifyIssue, empty_file, unsigned_tail}

pub data VerifierState : Type 0 where
  expect_init processing done errored : VerifierState

abbrev pub max_errors : ℕ
max_errors = 64

-- `verifier_opts_t`
pub record VerifierOpts : Type 0 where
  pub pubkey_path : Option Bytes
  pub cert_path : Option Bytes
  pub ca_bundle_path : Option Bytes
  pub crl_file : Option Bytes
  pub strict : Bool

-- `(p != NULL)` as a number
abbrev pub is_set : Option Bytes → ℕ
is_set none = 0
is_set (some p) = 1

module _ ⦃h : Host⦄ where
  -- `chain_hash` is the first `hash_len` bytes of the source's array; `error_count` is the length
  -- of `errors`, which holds each message with its line.
  pub record Verifier : Type 0 where
    pub state : VerifierState
    pub pubkey : Option h.Pkey
    pub pubkey_fp : Bytes
    pub have_pubkey : Bool
    pub trust_store : Option h.TrustStore
    pub hash_alg : HashAlg
    pub hash_len : ℕ
    pub have_hash_alg : Bool
    pub chain_hash : Bytes
    pub next_seq : ℕ
    pub msg_count : ℕ
    pub sig_count : ℕ
    pub last_signed_seq : ℕ
    pub segment_count : ℕ
    pub strict : Bool
    pub errors : List (ℕ × VerifyIssue)

  unfoldable pub add_error : Verifier → ℕ → VerifyIssue → Verifier
  add_error v line_num e =
      if leb max_errors (length v.errors)
      then v
      else record v { errors = v.errors ++ (line_num, e) ∷ [] }

  -- The state after the `memset` and the assignments behind it.
  abbrev pub fresh : Bool → Verifier
  fresh strict = record {
    state = expect_init;
    pubkey = none;
    pubkey_fp = [];
    have_pubkey = false;
    trust_store = none;
    hash_alg = sha256;
    hash_len = 0;
    have_hash_alg = false;
    chain_hash = [];
    next_seq = 1;
    msg_count = 0;
    sig_count = 0;
    last_signed_seq = 0;
    segment_count = 0;
    strict = strict;
    errors = [];
  }

  unfoldable load_pubkey_from_cert_file : Bytes → Option h.Pkey
  load_pubkey_from_cert_file path = do cert ← load_x509_cert path; x509_get_pubkey cert

  unfoldable with_pubkey : Bool → Option h.Pkey → Option Verifier
  with_pubkey strict found = do
    key ← found
    fp ← pubkey_fingerprint key
    some (record (fresh strict) { pubkey = some key; pubkey_fp = fp; have_pubkey = true })

  unfoldable with_crl : Option Bytes → h.TrustStore → Option h.TrustStore
  with_crl none store = some store
  with_crl (some crl) store = do loaded ← h.load_file store crl; some (h.set_crl_flags loaded)

  unfoldable with_ca_bundle : Bool → Bytes → Option Bytes → Option Verifier
  unfolding with_crl
  with_ca_bundle strict bundle crl = do
    store ← h.new_store
    loaded ← h.load_file store bundle
    ready ← with_crl crl loaded
    some (record (fresh strict) { trust_store = some ready })

  -- The first anchor that is given, where exactly one is.
  unfoldable init_from :
      Option Bytes → Option Bytes → Option Bytes → Option Bytes → Bool → Option Verifier
  unfolding load_pubkey_from_cert_file with_pubkey with_ca_bundle
  init_from (some path) cert bundle crl strict = with_pubkey strict (load_public_key path)
  init_from none (some path) bundle crl strict =
      with_pubkey strict (load_pubkey_from_cert_file path)
  init_from none none (some bundle) crl strict = with_ca_bundle strict bundle crl
  init_from none none none crl strict = none

  unfoldable pub verifier_init : VerifierOpts → Option Verifier
  unfolding init_from
  verifier_init o =
      if is_set o.pubkey_path + is_set o.cert_path + is_set o.ca_bundle_path == 1
      then init_from o.pubkey_path o.cert_path o.ca_bundle_path o.crl_file o.strict
      else none

  unfoldable pub is_expect_init : VerifierState → Bool
  is_expect_init expect_init = true
  is_expect_init _ = false

  -- The number of messages behind the last signature, as `uint64_t`.
  unfoldable pub unsigned_count : Verifier → ℕ
  unsigned_count v = sub64 (sub64 v.next_seq 1) v.last_signed_seq

  unfoldable pub verifier_finalize : Verifier → Verifier
  unfolding is_expect_init
  verifier_finalize v =
      let w = if is_expect_init v.state then add_error v 0 empty_file else v in
      let n = unsigned_count v in
      let x = if w.strict && ltb 0 n then add_error w 0 (unsigned_tail n) else w in
      record x { state = done }

  unfoldable pub verifier_passed : Verifier → Bool
  verifier_passed v = length v.errors == 0
