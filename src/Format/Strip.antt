-- ===== src/Format/Strip.antt =====
-- `hcs_strip_sd_from_line`, `hcs_extract_and_strip_cert_sd` and `hcs_strip_all_sd`.
pub mod Line
pub mod All
pub mod Cert
pub mod Shorter
pub mod Room
use mmhashchainsigs.Base.{
  Bool, Bytes, Option, Res, [], codes, failed, false, fault, if◌then◌else◌, leb, length, ltb, none,
  ok, some, strip_prefix, suc, true, u64_mod, zero, ℕ, ◌%◌, ◌++◌, ◌+◌, ◌-◌, ◌==◌, ◌∷◌,
}
use mmhashchainsigs.Crypto.Host.{Host}
use mmhashchainsigs.Format.Codec.{b64_decode}
use mmhashchainsigs.Format.Element.Ids.{cert_prefix, prefix_of, sd_prefix}
use mmhashchainsigs.Format.Parse.{SdRecord, parse_sd}
use mmhashchainsigs.Format.Scan.{
  ScanEnd, after_element, closed, ended, find_prefix, outside, overrun, quoted, scan_element,
}

module _ ⦃h : Host⦄ where
  -- The line without its element, if it has room at the destination.
  stripped : ℕ → Bytes → Bytes → SdRecord → Res (Bytes × SdRecord)
  stripped room before after sd =
      if ltb (length (before ++ after)) room then ok (before ++ after, sd) else failed

  -- The scan stopped one byte behind the line: the length of what follows is -1 as a `size_t`, and
  -- so many bytes are copied where the wrapped total passes the test.
  past_end : ℕ → Bytes → Res (Bytes × SdRecord)
  past_end room before =
      if leb room ((length before + (u64_mod - 1)) % u64_mod) then failed else fault

  then_record {ℓ} : {A : Type ℓ} → Res SdRecord → (SdRecord → Res A) → Res A
  then_record (ok sd) f = f sd
  then_record failed f = failed
  then_record fault f = fault

  strip_at : ScanEnd → Bytes → Bytes → ℕ → ℕ → Res (Bytes × SdRecord)
  unfolding then_record stripped past_end
  strip_at (closed read after) before rest beyond room =
      then_record (parse_sd (sd_prefix ++ read)) (stripped room before after)
  strip_at ended before rest beyond room =
      then_record (parse_sd (sd_prefix ++ rest)) (stripped room before [])
  strip_at overrun before rest beyond room =
      then_record (parse_sd (sd_prefix ++ (rest ++ beyond ∷ []))) (λ _. past_end room before)

  -- `beyond` is the byte behind the line, which the scan may read; `out` is not null, as in its
  -- one call.
  unfoldable pub strip_sd_from_line : Bytes → ℕ → ℕ → Res (Bytes × SdRecord)
  unfolding strip_at
  strip_sd_from_line line beyond room = elim (find_prefix sd_prefix line) [
    | none ↦ failed
    | some (before, rest) ↦ strip_at (scan_element outside rest) before rest beyond room
  ]

  strip_cert : Res Bytes → Bytes → ℕ → Res (Bytes × Option Bytes)
  strip_cert (ok der) msg room = if ltb (length msg) room then ok (msg, some der) else failed
  strip_cert failed msg room = failed
  strip_cert fault msg room = fault

  -- Behind the closing quote must stand `]`.
  cert_value : Option (Bytes × Bytes) → Bytes → ℕ → ℕ → Res (Bytes × Option Bytes)
  unfolding strip_cert
  cert_value none before room der_room = failed
  cert_value (some (v, [])) before room der_room = failed
  cert_value (some (v, c ∷ after)) before room der_room =
      if c == b']' then strip_cert (b64_decode v der_room) (before ++ after) room else failed

  -- The message without its certificate element, and the decoded certificate: `none` where the
  -- source returns 0.
  unfoldable pub extract_and_strip_cert_sd : Bytes → ℕ → ℕ → Res (Bytes × Option Bytes)
  unfolding cert_value
  extract_and_strip_cert_sd src room der_room = elim (find_prefix cert_prefix src) [
    | none ↦ if leb room (length src) then failed else ok (src, none)
    | some (before, rest) ↦ elim (strip_prefix (codes "cert=\"") rest) [
      | none ↦ failed
      | some value ↦ cert_value (quoted false value) before room der_room
    ]
  ]

-- The copying loop of `hcs_strip_all_sd`, on fuel for each round; `none` is -1.
unfoldable strip_loop : ℕ → Bytes → Bytes → ℕ → Bytes → Bool → Option (Bytes × Bool)
strip_loop fuel prefix [] room out removed =
    if leb room (length out) then none else some (out, removed)
strip_loop zero prefix (c ∷ cs) room out removed = none
strip_loop (suc fuel) prefix (c ∷ cs) room out removed =
    let copied = strip_loop fuel prefix cs room (out ++ c ∷ []) removed in
    elim (strip_prefix prefix (c ∷ cs)) [
      | some rest ↦ strip_loop fuel prefix (after_element rest) room out true
      | none ↦ if leb room (length out + 1) then none else copied
    ]

-- A round reads a byte at least, so the length of the text is enough fuel. The local prefix buffer
-- has room for 79 bytes.
unfoldable pub strip_all_sd : Bytes → Bytes → ℕ → Option (Bytes × Bool)
unfolding strip_loop
strip_all_sd src id room =
    if ltb 79 (length (prefix_of id))
    then none
    else strip_loop (length src) (prefix_of id) src room [] false
