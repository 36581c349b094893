-- ===== src/Format/Strip/Line.antt =====
-- A line that begins with a printed element is taken apart again.
use mmhashchainsigs.Base.{
  All, Bytes, List, [], append_assoc, arith, failed, length, le→ltb, lt→ltb, none, ok, some,
  strip_prefix-append, ℕ, ◌++◌, ◌<◌, ◌∷◌, ◌≡◌, ◌≤◌,
}
use mmhashchainsigs.Crypto.Host.{Host}
use mmhashchainsigs.Format.Element.{join_params, sd_element}
use mmhashchainsigs.Format.Element.Clean.{IsCleanParam, IsPlain, key_byte-IsPlain}
use mmhashchainsigs.Format.Element.Ids.{cert_prefix, sd_prefix}
use mmhashchainsigs.Format.Parse.{SdRecord, parse_sd}
use mmhashchainsigs.Format.Scan.{find_prefix}
use mmhashchainsigs.Format.Scan.Laws.{
  IsBalanced, IsClosing, append-IsBalanced, char-IsBalanced, nil-IsBalanced, plain-IsBalanced,
  plain-IsClosing, quote-IsBalanced, quote-IsClosing, scan_element-IsBalanced,
}
use mmhashchainsigs.Format.Strip.{extract_and_strip_cert_sd, strip_sd_from_line}

-- A parameter with a value that its quote closes.
param-IsBalanced :
    (k v : Bytes)
    → All IsPlain k
    → IsClosing (v ++ b'"' ∷ [])
    → IsBalanced (k ++ (b'=' ∷ b'"' ∷ (v ++ (b'"' ∷ []))))
param-IsBalanced k v hk hv =
    append-IsBalanced k _ (plain-IsBalanced k hk)
      (append-IsBalanced (b'=' ∷ []) _ (plain-IsBalanced _ (omega arith)) (quote-IsBalanced _ hv))

clean_param-IsBalanced :
    (k v : Bytes) → IsCleanParam (k, v) → IsBalanced (k ++ (b'=' ∷ b'"' ∷ (v ++ (b'"' ∷ []))))
clean_param-IsBalanced k v (hk, hv) =
    param-IsBalanced k v (key_byte-IsPlain k hk) (plain-IsClosing v _ hv quote-IsClosing)

join_params-IsBalanced :
    (ps : List (Bytes × Bytes)) → All IsCleanParam ps → IsBalanced (join_params ps)
join_params-IsBalanced [] h = nil-IsBalanced
join_params-IsBalanced ((k, v) ∷ []) (hp, hs) = clean_param-IsBalanced k v hp
join_params-IsBalanced ((k, v) ∷ p ∷ ps) (hp, hs) =
    append-IsBalanced _ _ (clean_param-IsBalanced k v hp) (
      append-IsBalanced (b' ' ∷ []) _ (char-IsBalanced b' ' (omega arith) (omega arith))
        (join_params-IsBalanced (p ∷ ps) hs))

pub find_prefix-here : (c : ℕ) (p s : Bytes) → find_prefix (c ∷ p) ((c ∷ p) ++ s) ≡ some ([], s)
unfolding find_prefix
find_prefix-here c p s = rw (strip_prefix-append (c ∷ p) s, find_prefix)

sd_prefix-here : (s : Bytes) → find_prefix sd_prefix (sd_prefix ++ s) ≡ some ([], s)
unfolding sd_prefix
sd_prefix-here s = find_prefix-here b'[' _ s

module _ ⦃h : Host⦄ where
  -- A line that begins with a printed element of clean parameters, which parses, gives the record
  -- and the rest of the line, if the rest has room, whatever the rest is and whatever byte stands
  -- behind the line.
  pub strip_sd_from_line-element :
      (ps : List (Bytes × Bytes)) (sd : SdRecord) (rest : Bytes) (beyond room : ℕ)
      → All IsCleanParam ps
      → parse_sd (sd_element sd_prefix ps) ≡ ok sd
      → length rest < room
      → strip_sd_from_line (sd_element sd_prefix ps ++ rest) beyond room ≡ ok (rest, sd)
  unfolding strip_sd_from_line
  strip_sd_from_line-element ps sd rest beyond room clean parsed fit =
      rw (append_assoc sd_prefix (join_params ps ++ b']' ∷ []) rest) (
        rw (sd_prefix-here ((join_params ps ++ b']' ∷ []) ++ rest), strip_sd_from_line)
          (rw (scan_element-IsBalanced (join_params ps) rest (join_params-IsBalanced ps clean))
            (rw parsed (rw (lt→ltb (length rest) room fit)))))

  -- An element that does not fit in front of its message: a line whose message needs more room
  -- than there is fails, whatever it says.
  pub strip_sd_from_line-long :
      (ps : List (Bytes × Bytes)) (rest : Bytes) (beyond room : ℕ)
      → All IsCleanParam ps
      → (sd : SdRecord) → parse_sd (sd_element sd_prefix ps) ≡ ok sd
      → room ≤ length rest
      → strip_sd_from_line (sd_element sd_prefix ps ++ rest) beyond room ≡ failed
  unfolding strip_sd_from_line
  strip_sd_from_line-long ps rest beyond room clean sd parsed long =
      rw (append_assoc sd_prefix (join_params ps ++ b']' ∷ []) rest) (
        rw (sd_prefix-here ((join_params ps ++ b']' ∷ []) ++ rest), strip_sd_from_line)
          (rw (scan_element-IsBalanced (join_params ps) rest (join_params-IsBalanced ps clean))
            (rw parsed (rw (le→ltb (length rest) room long)))))

  -- Where no certificate element occurs, the message is left as it is.
  pub extract_and_strip_cert_sd-none :
      (src : Bytes) (room der_room : ℕ)
      → find_prefix cert_prefix src ≡ none
      → length src < room
      → extract_and_strip_cert_sd src room der_room ≡ ok (src, none)
  unfolding extract_and_strip_cert_sd
  extract_and_strip_cert_sd-none src room der_room absent fit =
      rw (absent, extract_and_strip_cert_sd) (ground arith)
