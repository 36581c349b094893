-- ===== src/Format/Element.antt =====
-- The chain-metadata element and the certificate element: `hcs_format_sd_*`. A format string
-- `[%s k="%s" …]` is a list of parameters here, joined by spaces.
pub mod Ids
pub mod Clean
pub mod Inline
pub mod Bounds
use mmhashchainsigs.Base.{
  Bytes, List, Option, [], codes, if◌then◌else◌, length, ltb, none, ℕ, ◌*◌, ◌++◌, ◌+◌, ◌/◌, ◌>>=◌,
  ◌∷◌,
}
use mmhashchainsigs.Crypto.Alg.{hash_len_max}
use mmhashchainsigs.Crypto.Host.{Host}
use mmhashchainsigs.Format.Codec.{b64_encode, fits}
use mmhashchainsigs.Format.Element.Ids.{cert_prefix, sd_prefix}
use mmhashchainsigs.Format.Hex.{hex_encode}
use mmhashchainsigs.Format.Number.{print_ulong}

abbrev param : Bytes → Bytes → Bytes
param key value = key ++ (b'=' ∷ b'"' ∷ (value ++ (b'"' ∷ [])))

abbrev pub join_params : List (Bytes × Bytes) → Bytes
join_params [] = []
join_params ((k, v) ∷ []) = param k v
join_params ((k, v) ∷ p ∷ ps) = param k v ++ (b' ' ∷ join_params (p ∷ ps))

-- `[` and the SD-ID with a space stand in `prefix`.
abbrev pub sd_element : Bytes → List (Bytes × Bytes) → Bytes
sd_element prefix ps = prefix ++ (join_params ps ++ b']' ∷ [])

-- The parameters of an INIT (`t="I"`) and of a CONTINUE (`t="C"`) element.
abbrev pub opening_params : Bytes → ℕ → Bytes → Bytes → List (Bytes × Bytes)
opening_params t seq chain_hash fp =
    (codes "t", t)
    ∷ (codes "q", print_ulong seq)
    ∷ (codes "h", hex_encode chain_hash)
    ∷ (codes "f", hex_encode fp)
    ∷ []

abbrev pub msg_params : ℕ → Bytes → List (Bytes × Bytes)
msg_params seq chain_hash = (codes "q", print_ulong seq) ∷ (codes "h", hex_encode chain_hash) ∷ []

abbrev pub sig_params : ℕ → Bytes → ℕ → ℕ → Bytes → List (Bytes × Bytes)
sig_params seq chain_hash seq_from seq_to s =
    (codes "t", codes "S")
    ∷ (codes "q", print_ulong seq)
    ∷ (codes "h", hex_encode chain_hash)
    ∷ (codes "qf", print_ulong seq_from)
    ∷ (codes "qt", print_ulong seq_to)
    ∷ (codes "s", s)
    ∷ []

-- A chain hash that is longer than the largest digest is refused.
format_with_hash : Bytes → Option Bytes → Option Bytes
format_with_hash chain_hash text = if ltb hash_len_max (length chain_hash) then none else text

unfoldable pub format_sd_init : ℕ → Bytes → Bytes → ℕ → Option Bytes
unfolding format_with_hash
format_sd_init seq chain_hash fp room =
    format_with_hash chain_hash
      (fits room (sd_element sd_prefix (opening_params (codes "I") seq chain_hash fp)))

unfoldable pub format_sd_msg : ℕ → Bytes → ℕ → Option Bytes
unfolding format_with_hash
format_sd_msg seq chain_hash room =
    format_with_hash chain_hash (fits room (sd_element sd_prefix (msg_params seq chain_hash)))

unfoldable pub format_sd_continue : ℕ → Bytes → Bytes → ℕ → Option Bytes
unfolding format_with_hash
format_sd_continue seq chain_hash fp room =
    format_with_hash chain_hash
      (fits room (sd_element sd_prefix (opening_params (codes "C") seq chain_hash fp)))

-- `sizeof(s)` of the signature's text
abbrev pub b64_sig_room : ℕ
b64_sig_room = 204

abbrev pub cert_der_max : ℕ
cert_der_max = 4096

module _ ⦃h : Host⦄ where
  unfoldable pub format_sd_sig : ℕ → Bytes → ℕ → ℕ → Bytes → ℕ → Option Bytes
  unfolding format_with_hash
  format_sd_sig seq chain_hash seq_from seq_to signature room = format_with_hash chain_hash (do
    s ← b64_encode signature b64_sig_room
    fits room (sd_element sd_prefix (sig_params seq chain_hash seq_from seq_to s)))

  -- `malloc` is taken to succeed.
  unfoldable pub format_sd_cert : Bytes → ℕ → Option Bytes
  format_sd_cert der room = if ltb cert_der_max (length der) then none else (do
    b64 ← b64_encode der ((length der + 2) / 3 * 4 + 4)
    fits room (sd_element cert_prefix ((codes "cert", b64) ∷ [])))
