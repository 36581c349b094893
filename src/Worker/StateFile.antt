-- ===== src/Worker/StateFile.antt =====
-- `mmhashchainsigs_save_state` and `mmhashchainsigs_load_state`: the text of the state file. The
-- path is that of the instance's directory; `snprintf` of the path is not modelled.
pub mod Lines
pub mod RoundTrip
use mmhashchainsigs.Crypto.Alg
use mmhashchainsigs.Base.{
  Bool, Bytes, List, Option, [], c_string, codes, drop, false, if◌then◌else◌, is_space, length, ltb,
  none, replicate, skip_space, some, strip_prefix, suc, true, zero, ℕ, ◌&&◌, ◌++◌, ◌-◌, ◌==◌, ◌>>=◌,
  ◌||◌, ◌∷◌,
}
use mmhashchainsigs.Crypto.Alg.{
  alg_from_hex_len, fp_len, hash_from_name, hash_len, hash_name, sha256,
}
use mmhashchainsigs.Crypto.Host.{Host}
use mmhashchainsigs.Format.Hex.{hex_decode, hex_encode, hex_stored}
use mmhashchainsigs.Format.Number.{print_ulong, strtoull}
use mmhashchainsigs.Worker.State.{Active, SavedState, Worker}

-- `MMHASHCHAINSIGS_STATE_MAGIC`
unfoldable pub state_magic : Bytes
state_magic = codes "MMHASHCHAINSIGS_STATE_V1"

abbrev pub state_line : Bytes → Bytes → Bytes
state_line key value = key ++ (value ++ b'\n' ∷ [])

-- What `fprintf` writes.
unfoldable pub state_text : SavedState → Bytes
state_text st =
    (state_magic ++ b'\n' ∷ [])
    ++ (state_line (codes "hashalgo=") (hash_name st.hash_alg)
        ++ (state_line (codes "chain_hash=") (hex_encode st.chain_hash)
            ++ (state_line (codes "seq=") (print_ulong st.seq)
                ++ (state_line (codes "sig_seq_from=") (print_ulong st.sig_seq_from)
                    ++ state_line (codes "pubkey_fp=") (hex_encode st.pubkey_fp)))))

-- `fgets(line, 256, f)` again and again: a line ends behind its newline, or after 255 bytes. The
-- number is the room left.
unfoldable cons_to : ℕ → List Bytes → List Bytes
cons_to c [] = (c ∷ []) ∷ []
cons_to c (l ∷ ls) = (c ∷ l) ∷ ls

unfoldable pub fgets_lines : ℕ → Bytes → List Bytes
unfolding cons_to
fgets_lines room [] = []
fgets_lines room (c ∷ cs) =
    let full = c == b'\n' || room == 1 in
    let rest = fgets_lines (if full then 255 else room - 1) cs in
    if full then (c ∷ []) ∷ rest else cons_to c rest

-- `%Ns` behind the spaces: up to N bytes that are no space, and one at least.
unfoldable word : ℕ → Bytes → Bytes
word n [] = []
word zero (c ∷ cs) = []
word (suc n) (c ∷ cs) = if is_space c then [] else c ∷ word n cs

unfoldable word_found : Bytes → Option Bytes
word_found [] = none
word_found (c ∷ cs) = some (c ∷ cs)

unfoldable pub scan_word : ℕ → Bytes → Option Bytes
unfolding word word_found
scan_word n s = word_found (word n (skip_space s))

-- `%lu`: a number was read if the end pointer moved.
unfoldable pub scan_ulong : Bytes → Option ℕ
scan_ulong s = let (n, rest) = strtoull s in if ltb (length rest) (length s) then some n else none

-- The state being filled in, and the bits of `got`.
pub record Loading : Type 0 where
  pub st : SavedState
  pub got_hash : Bool
  pub got_seq : Bool
  pub got_from : Bool
  pub got_fp : Bool

-- `calloc`, with the defaults of the older layout.
abbrev pub blank : Loading
blank = record {
  st = record {
    hash_alg = sha256;
    hash_len = 32;
    chain_hash = replicate 64 0;
    seq = 0;
    sig_seq_from = 0;
    pubkey_fp = replicate 32 0;
  };
  got_hash = false;
  got_seq = false;
  got_from = false;
  got_fp = false;
}

unfoldable load_alg : Loading → Bytes → Option Loading
load_alg l v = do
  alg ← hash_from_name (some v)
  some (record l { st = record (l.st) { hash_alg = alg; hash_len = Alg.hash_len alg } })

-- `hcs_hex_decode` into the state being filled in, with what it stores and its result: a malformed
-- value overwrites the bytes in front of the failure.
unfoldable store_hash : Loading → Bytes → Option Bytes → Loading
store_hash l part none = record l {
  st = record (l.st) { chain_hash = part ++ drop (length part) l.st.chain_hash };
}
store_hash l part (some b) = record l {
  st = record (l.st) { chain_hash = b ++ drop (length b) l.st.chain_hash };
  got_hash = true;
}

unfoldable load_hash : Loading → Bytes → Loading
unfolding store_hash
load_hash l v = elim (alg_from_hex_len (length v)) [
  | none ↦ l
  | some alg ↦ store_hash l (hex_stored v (Alg.hash_len alg)) (hex_decode v (Alg.hash_len alg))
]

unfoldable load_seq : Loading → ℕ → Loading
load_seq l n = record l { st = record (l.st) { seq = n }; got_seq = true }

unfoldable load_from : Loading → ℕ → Loading
load_from l n = record l { st = record (l.st) { sig_seq_from = n }; got_from = true }

unfoldable store_fp : Loading → Bytes → Option Bytes → Loading
store_fp l part none = record l {
  st = record (l.st) { pubkey_fp = part ++ drop (length part) l.st.pubkey_fp };
}
store_fp l part (some b) = record l { st = record (l.st) { pubkey_fp = b }; got_fp = true }

unfoldable load_fp : Loading → Bytes → Loading
unfolding store_fp
load_fp l v = if length v == 64 then store_fp l (hex_stored v fp_len) (hex_decode v fp_len) else l

-- `sscanf(line, "key=%…", …) == 1`
abbrev field {ℓ} : {A : Type ℓ} → Bytes → (Bytes → Option A) → Bytes → Option A
field key scan s = do rest ← strip_prefix key s; scan rest

unfoldable load_last : Loading → Option Bytes → Loading
unfolding load_fp
load_last l none = l
load_last l (some v) = load_fp l v

unfoldable load_fourth : Loading → Option ℕ → Bytes → Loading
unfolding load_from load_last
load_fourth l (some n) s = load_from l n
load_fourth l none s = load_last l (field (codes "pubkey_fp=") (scan_word 64) s)

unfoldable load_third : Loading → Option ℕ → Bytes → Loading
unfolding load_seq load_fourth
load_third l (some n) s = load_seq l n
load_third l none s = load_fourth l (field (codes "sig_seq_from=") scan_ulong s) s

unfoldable load_second : Loading → Option Bytes → Bytes → Loading
unfolding load_hash load_third
load_second l (some v) s = load_hash l v
load_second l none s = load_third l (field (codes "seq=") scan_ulong s) s

unfoldable load_first : Loading → Option Bytes → Bytes → Option Loading
unfolding load_alg load_second
load_first l (some v) s = load_alg l v
load_first l none s = some (load_second l (field (codes "chain_hash=") (scan_word 128) s) s)

-- One line of the file; `none` for an unknown algorithm.
unfoldable pub load_line : Loading → Bytes → Option Loading
unfolding load_first
load_line l s = let t = c_string s in load_first l (field (codes "hashalgo=") (scan_word 63) t) t

unfoldable load_lines : Loading → List Bytes → Option Loading
load_lines l [] = some l
load_lines l (s ∷ ss) = load_line l s >>= λ m. load_lines m ss

-- `got == 15`
unfoldable complete : Loading → Option SavedState
complete l = if l.got_hash && l.got_seq && l.got_from && l.got_fp then some l.st else none

unfoldable load_from_lines : List Bytes → Option SavedState
unfolding load_lines complete
load_from_lines [] = none
load_from_lines (first ∷ rest) = do
  _ ← strip_prefix state_magic first
  l ← load_lines blank rest
  complete l

-- `none` is a null result; a missing file gives it too.
unfoldable pub load_state : Option Bytes → Option SavedState
unfolding load_from_lines
load_state none = none
load_state (some text) = load_from_lines (fgets_lines 255 text)

-- `1`, `0`, `-1`
pub data SaveResult : Type 0 where
  saved nothing save_failed : SaveResult

module _ ⦃h : Host⦄ where
  -- What a worker's saved state holds.
  abbrev pub state_of : Active → SavedState
  state_of a = record {
    hash_alg = a.chain.alg;
    hash_len = a.chain.hash_len;
    chain_hash = a.chain.current;
    seq = a.chain.seq;
    sig_seq_from = a.sig_seq_from;
    pubkey_fp = a.signer.pubkey_fp;
  }

  save_active : Worker → Active → Bool → Bool → Bool → Worker × SaveResult
  save_active w a open_ok close_ok rename_ok =
      if a.chain.msg_count == 0
      then (w, nothing)
      else if open_ok && close_ok && rename_ok
      then (record w { state_file = some (state_text (state_of a)) }, saved)
      else (w, save_failed)

  -- The flags are the results of `fopen`, `fclose` and `rename`. The file appears by the rename
  -- alone, whole; a failure leaves the old one.
  unfoldable pub save_state : Worker → Bool → Bool → Bool → Worker × SaveResult
  unfolding save_active
  save_state w open_ok close_ok rename_ok = elim w.active [
    | none ↦ (w, nothing)
    | some a ↦ save_active w a open_ok close_ok rename_ok
  ]
