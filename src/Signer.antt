-- ===== src/Signer.antt =====
-- src/mmhashchainsigs/signer.c: the private key, its fingerprint and an optional certificate.
pub mod Init
use mmhashchainsigs.Base.{
  Bool, Bytes, Option, [], false, none, not, some, true, ℕ, ◌%◌, ◌/◌, ◌==◌, ◌>>=◌, ◌∷◌,
}
use mmhashchainsigs.Crypto.Host.{Host}
use mmhashchainsigs.Crypto.Keys.{
  hcs_sign, load_private_key, load_x509_cert, pubkey_fingerprint, x509_check_keypair,
  x509_get_pubkey,
}

-- `st.st_mode & S_IROTH`, the bit of weight 4.
abbrev world_readable : ℕ → Bool
world_readable mode = mode / 4 % 2 == 1

abbrev require : Bool → Option (Unit {0})
require true = some tt
require false = none

module _ ⦃h : Host⦄ where
  -- `signer_ctx_t`, once it is initialised; its private key is not null.
  pub record Signer : Type 0 where
    pub privkey : h.Pkey
    pub cert : Option h.Cert
    pub cert_der : Option Bytes
    pub pubkey_fp : Bytes

  -- The key file must not be readable by others.
  unfoldable pub check_privkey_perms : Bytes → Option (Unit {0})
  check_privkey_perms path = do mode ← h.file_mode path; require (not (world_readable mode))

  unfoldable pub signer_init : Bytes → Option Signer
  signer_init privkey_path = do
    _ ← check_privkey_perms privkey_path
    key ← load_private_key privkey_path
    fp ← pubkey_fingerprint key
    some (record { privkey = key; cert = none; cert_der = none; pubkey_fp = fp })

  unfoldable pub signer_init_x509 : Bytes → Bytes → Option Signer
  signer_init_x509 privkey_path cert_path = do
    _ ← check_privkey_perms privkey_path
    key ← load_private_key privkey_path
    cert ← load_x509_cert cert_path
    _ ← x509_get_pubkey cert
    _ ← require (x509_check_keypair cert key)
    fp ← pubkey_fingerprint key
    some (record { privkey = key; cert = some cert; cert_der = none; pubkey_fp = fp })

  unfoldable pub signer_sign : Signer → Bytes → Option Bytes
  signer_sign s msg = hcs_sign s.privkey msg

  -- `hcs_x509_to_der` gives a positive length or -1.
  encoded : Option Bytes → Signer → Signer × Option Bytes
  encoded none s = (record s { cert_der = none }, none)
  encoded (some []) s = (record s { cert_der = none }, none)
  encoded (some (c ∷ cs)) s = (record s { cert_der = some (c ∷ cs) }, some (c ∷ cs))

  cached : Option Bytes → h.Cert → Signer → Signer × Option Bytes
  unfolding encoded
  cached (some der) cert s = (s, some der)
  cached none cert s = encoded (h.i2d cert) s

  cert_der_of : Option h.Cert → Signer → Signer × Option Bytes
  unfolding cached
  cert_der_of none s = (s, none)
  cert_der_of (some cert) s = cached s.cert_der cert s

  -- The DER encoding, kept after the first call.
  unfoldable pub signer_get_cert_der : Signer → Signer × Option Bytes
  unfolding cert_der_of
  signer_get_cert_der s = cert_der_of s.cert s
