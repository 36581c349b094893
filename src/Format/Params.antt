-- ===== src/Format/Params.antt =====
-- `sd_get_param` and the extraction of values from an element's body.
pub mod Lookup
pub mod Typed
use mmhashchainsigs.Base.{
  Bool, Bytes, Option, [], c_string, codes, false, if◌then◌else◌, length, ltb, none, not, some,
  strip_prefix, true, ℕ, ◌*◌, ◌++◌, ◌==◌, ◌>>=◌, ◌||◌, ◌∷◌,
}
use mmhashchainsigs.Crypto.Alg.{alg_from_hex_len, hash_len}
use mmhashchainsigs.Format.Hex.{hex_decode}
use mmhashchainsigs.Format.Number.{strtoull}
use mmhashchainsigs.Format.Scan.{quoted}

-- `sd_get_param` from a place on; the flag is `at_start || after_space`. That `p + klen + 2 <= end`
-- is part of the match: no shorter text begins with the key, `=` and a quote.
unfoldable pub get_param_from : Bool → Bytes → Bytes → Option Bytes
get_param_from at [] key = none
get_param_from at (c ∷ cs) key =
    let later = get_param_from (c == b' ') cs key in
    let here = strip_prefix (key ++ (b'=' ∷ b'"' ∷ [])) (c ∷ cs) in
    if at
    then elim here [ none ↦ later | some value ↦ (do (v, after) ← quoted false value; some v) ]
    else later

unfoldable pub get_param : Bytes → Bytes → Option Bytes
get_param body key = get_param_from true body key

-- `sd_extract_hex`; the local buffer holds 128 digits and a NUL.
unfoldable pub extract_hex : Bytes → Bytes → ℕ → Option Bytes
extract_hex body key out_len = do
  v ← get_param body key
  if not (length v == out_len * 2)
      then none
      else if ltb 128 (length v)
      then none
      else hex_decode v out_len

-- `sd_extract_chain_hash`: the width of the value decides the algorithm.
unfoldable pub extract_chain_hash : Bytes → Option Bytes
extract_chain_hash body = do
  v ← get_param body (codes "h")
  alg ← alg_from_hex_len (length v)
  if ltb 128 (length v) then none else hex_decode v (hash_len alg)

is_end : Bytes → Bool
is_end [] = true
is_end (c ∷ cs) = false

-- A value of `sd_extract_uint64`: what is left in `*out`, and whether 0 is returned. The number is
-- stored before the text behind it is looked at.
uint64_value : Bytes → ℕ → ℕ × Bool
uint64_value v old =
    let (n, rest) = strtoull (c_string v) in
    if length v == 0 || ltb 20 (length v) then (old, false) else (n, is_end rest)

unfoldable pub extract_uint64 : Bytes → Bytes → ℕ → ℕ × Bool
unfolding uint64_value is_end
extract_uint64 body key old = elim (get_param body key) [
  | none ↦ (old, false)
  | some v ↦ uint64_value v old
]
