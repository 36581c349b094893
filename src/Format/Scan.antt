-- ===== src/Format/Scan.antt =====
-- The loops that walk over text: the first place of a prefix, the end of a quoted value, and the
-- end of an element (`sd_scan_element`, and the same loop inside `hcs_strip_sd_from_line`).
pub mod Laws
use mmhashchainsigs.Base.{
  Bool, Bytes, Option, [], false, if◌then◌else◌, none, not, some, strip_prefix, ℕ, ◌&&◌, ◌==◌,
  ◌>>=◌, ◌∷◌,
}

-- The first occurrence: the text in front of it, and behind it. The prefixes are not empty.
unfoldable pub find_prefix : Bytes → Bytes → Option (Bytes × Bytes)
find_prefix p [] = none
find_prefix p (c ∷ cs) =
    let later = find_prefix p cs in
    elim (strip_prefix p (c ∷ cs)) [
      | some after ↦ some ([], after)
      | none ↦ (do (before, after) ← later; some (c ∷ before, after))
    ]

-- `while (vend < end && *vend != '"') { if (*vend == '\\' && vend + 1 < end) vend++; vend++; }`:
-- the value, and what follows the quote; `none` if the text ends first. The flag holds for the
-- byte behind a backslash.
unfoldable pub quoted : Bool → Bytes → Option (Bytes × Bytes)
quoted skip [] = none
quoted skip (c ∷ cs) =
    let rest = quoted (not skip && c == b'\\') cs in
    if not skip && c == b'"' then some ([], cs) else (do (v, after) ← rest; some (c ∷ v, after))

-- Where the element loop stands: between values, in a quoted value, or behind a backslash in one.
pub data ScanMode : Type 0 where
  outside inside escaped : ScanMode

-- Behind the closing bracket, with the element's text up to it; at the end of the text; or one
-- byte past that, for a value that is not closed.
pub data ScanEnd : Type 0 where
  closed : Bytes → Bytes → ScanEnd
  ended overrun : ScanEnd

pub next_mode : ScanMode → ℕ → ScanMode
next_mode outside c = if c == b'"' then inside else outside
next_mode inside c = if c == b'"' then outside else if c == b'\\' then escaped else inside
next_mode escaped c = inside

unfoldable pub closes : ScanMode → ℕ → Bool
closes outside c = c == b']'
closes _ c = false

unfoldable pub push : ℕ → ScanEnd → ScanEnd
push c (closed read rest) = closed (c ∷ read) rest
push c ended = ended
push c overrun = overrun

unfoldable pub scan_element : ScanMode → Bytes → ScanEnd
unfolding next_mode closes push
scan_element outside [] = ended
scan_element _ [] = overrun
scan_element m (c ∷ cs) =
    let rest = scan_element (next_mode m c) cs in
    if closes m c then closed (c ∷ []) cs else push c rest

-- What `sd_scan_element` returns a pointer to: that loop stops at the end of the text.
unfoldable pub after_element : Bytes → Bytes
after_element s = elim (scan_element outside s) [
  | closed read rest ↦ rest
  | ended ↦ []
  | overrun ↦ []
]
