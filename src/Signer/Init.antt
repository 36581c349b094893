-- ===== src/Signer/Init.antt =====
-- Which keys the signer takes.
use mmhashchainsigs.Base.{Bytes, arith, bind-some, some, true, ℕ, ◌%◌, ◌/◌, ◌≡◌}
use mmhashchainsigs.Crypto.Host.{Host}
use mmhashchainsigs.Crypto.Keys.{
  load_private_key, load_x509_cert, pubkey_fingerprint, x509_check_keypair, x509_get_pubkey,
}
use mmhashchainsigs.Signer.{Signer, check_privkey_perms, require, signer_init_x509}

module _ ⦃h : Host⦄ where
  not_world_readable :
      (key_path : Bytes) {u : Unit {0}}
      → check_privkey_perms key_path ≡ some u
      → (mode : ℕ) × (h.file_mode key_path ≡ some mode) × (mode / 4 % 2 ≡ 0)
  unfolding check_privkey_perms
  not_world_readable key_path e =
      let (mode, read, private_mode) = bind-some (h.file_mode key_path) _ e in
      (mode, read, ground arith)

  -- If signer_init_x509 succeeds, the key file is not readable by others, the signer holds the
  -- key that the file loads as, the certificate that it holds has a supported public key that
  -- belongs to this key, and the fingerprint is the key's.
  pub signer_init_x509_sound :
      (key_path cert_path : Bytes) {s : Signer}
      → signer_init_x509 key_path cert_path ≡ some s
      → (mode : ℕ) × (cert : h.Cert) × (pk : h.Pkey) × (h.file_mode key_path ≡ some mode)
        × (mode / 4 % 2 ≡ 0)
        × (load_private_key key_path ≡ some s.privkey)
        × (s.cert ≡ some cert)
        × (x509_get_pubkey cert ≡ some pk)
        × (x509_check_keypair cert s.privkey ≡ true)
        × (pubkey_fingerprint s.privkey ≡ some s.pubkey_fp)
  unfolding signer_init_x509
  signer_init_x509_sound key_path cert_path e =
      let (u, perms, e1) = bind-some (check_privkey_perms key_path) _ e in
      let (mode, read, private_mode) = not_world_readable key_path perms in
      let (key, loaded, e2) = bind-some (load_private_key key_path) _ e1 in
      let (cert, found, e3) = bind-some (load_x509_cert cert_path) _ e2 in
      let (pk, has_key, e4) = bind-some (x509_get_pubkey cert) _ e3 in
      let (u', checked, e5) = bind-some (require (x509_check_keypair cert key)) _ e4 in
      let (fp, printed, e6) = bind-some (pubkey_fingerprint key) _ e5 in
      (
        mode,
        cert,
        pk,
        read,
        private_mode,
        ground arith,
        ground arith,
        has_key,
        ground arith,
        ground arith,
      )
