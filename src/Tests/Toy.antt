-- ===== src/Tests/Toy.antt =====
-- A host that can be evaluated: short check sums in place of digests, and a block code with the
-- grouping and the padding of base64.
use mmhashchainsigs.Base.{
  Bytes, Option, [], bytes_eq, codes, if◌then◌else◌, none, replicate, some, true, ℕ, ◌%◌, ◌*◌, ◌++◌,
  ◌+◌, ◌-◌, ◌>>=◌, ◌∷◌,
}
use mmhashchainsigs.Crypto.Alg.{HashAlg, hash_len}
use mmhashchainsigs.Crypto.Host.{Host, ed25519, invalid, trusted, valid}
use mmhashchainsigs.Format.Hex.{hex_encode}

unfoldable pub check_sum : Bytes → ℕ
check_sum [] = 7
check_sum (c ∷ cs) = (c + 3 * check_sum cs) % 256

unfoldable pub toy_hash : HashAlg → Bytes → Bytes
unfolding check_sum
toy_hash a m = replicate (hash_len a) (check_sum m)

unfoldable pub toy_sign : Bytes → Bytes
unfolding check_sum
toy_sign m = check_sum m ∷ 42 ∷ []

unfoldable pub toy_encode : Bytes → Bytes
toy_encode [] = []
toy_encode (a ∷ []) = (a + 1000) ∷ 1000 ∷ b'=' ∷ b'=' ∷ []
toy_encode (a ∷ b ∷ []) = (a + 1000) ∷ (b + 1000) ∷ 1000 ∷ b'=' ∷ []
toy_encode (a ∷ b ∷ c ∷ s) = (a + 1000) ∷ (b + 1000) ∷ (c + 1000) ∷ 1000 ∷ toy_encode s

-- A text whose length is no multiple of four is refused.
unfoldable pub toy_decode : Bytes → Option Bytes
toy_decode [] = some []
toy_decode (a ∷ b ∷ c ∷ d ∷ s) = do
  rest ← toy_decode s
  some ((a - 1000) ∷ (b - 1000) ∷ (c - 1000) ∷ rest)
toy_decode _ = none

abbrev pub toy_key : Bytes
toy_key = replicate 32 9

-- The log of `main`: one line, the INIT of a chain.
abbrev pub toy_log : Bytes
toy_log =
    codes "[mmhashchainsigs@32473 t=\"I\" q=\"1\" h=\""
    ++ hex_encode (replicate 32 46)
    ++ codes "\" f=\""
    ++ hex_encode (replicate 32 199)
    ++ codes "\"]one\n"

instance abbrev pub toy : Host
toy = record {
  Pkey = Unit {0};
  Cert = Bytes;
  TrustStore = Unit {0};
  digest = λ a m. some (toy_hash a m);
  pkey_id = λ k. ed25519;
  group_name = λ k. none;
  raw_public_key = λ k. some toy_key;
  public_point = λ k. none;
  digest_sign = λ md k m. some (toy_sign m);
  digest_verify = λ md k m s. if bytes_eq s (toy_sign m) then valid else invalid;
  encode_block = toy_encode;
  decode_block = toy_decode;
  read_private_key = λ f. some tt;
  read_pubkey = λ f. some tt;
  read_x509 = λ f. some f;
  x509_pubkey = λ c. some tt;
  x509_check_private_key = λ c k. true;
  i2d = λ c. some c;
  d2i = λ d. some d;
  new_store = some tt;
  load_file = λ s p. some tt;
  set_crl_flags = λ s. s;
  new_store_ctx = true;
  verify_cert = λ s c. trusted;
  read_file = λ p. some toy_log;
  open_failure = λ p. [];
  file_mode = λ p. some 0o600;
}
