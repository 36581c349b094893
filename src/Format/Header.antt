-- ===== src/Format/Header.antt =====
-- `sd_escape_param` and `hcs_format_sd_hdr`.
pub mod Escape
use mmhashchainsigs.Base.{
  Bool, Bytes, List, Option, [], codes, if◌then◌else◌, leb, length, none, some, ℕ, ◌++◌, ◌+◌, ◌==◌,
  ◌>>=◌, ◌||◌, ◌∷◌,
}
use mmhashchainsigs.Format.Codec.{fits}
use mmhashchainsigs.Format.Element.{sd_element}
use mmhashchainsigs.Format.Element.Ids.{hdr_prefix}
use mmhashchainsigs.Format.Number.{print_ulong}

unfoldable needs_escape : ℕ → Bool
needs_escape c = c == b'\\' || c == b'"' || c == b']'

-- The loop, with what is written so far.
unfoldable escape_loop : Bytes → ℕ → Bytes → Option Bytes
unfolding needs_escape
escape_loop [] room out = if leb room (length out) then none else some out
escape_loop (c ∷ cs) room out =
    let hidden = needs_escape c in
    let rest = escape_loop cs room (if hidden then out ++ (b'\\' ∷ c ∷ []) else out ++ c ∷ []) in
    if leb room (length out + (if hidden then 2 else 1)) then none else rest

unfoldable pub escape_param : Bytes → ℕ → Option Bytes
unfolding escape_loop
escape_param s room = escape_loop s room []

-- `ts ? ts : ""`
abbrev or_empty : Option Bytes → Bytes
or_empty none = []
or_empty (some s) = s

-- The six captured header fields; a null string is `none`.
pub record HeaderFields : Type 0 where
  pub pri : ℕ
  pub ts : Option Bytes
  pub host : Option Bytes
  pub app : Option Bytes
  pub procid : Option Bytes
  pub msgid : Option Bytes

abbrev pub header_params : ℕ → Bytes → Bytes → Bytes → Bytes → Bytes → List (Bytes × Bytes)
header_params pri ts host app procid msgid =
    (codes "pri", print_ulong pri)
    ∷ (codes "ts", ts)
    ∷ (codes "host", host)
    ∷ (codes "app", app)
    ∷ (codes "procid", procid)
    ∷ (codes "msgid", msgid)
    ∷ []

unfoldable pub format_sd_hdr : HeaderFields → ℕ → Option Bytes
format_sd_hdr f room = do
  ts ← escape_param (or_empty f.ts) 80
  host ← escape_param (or_empty f.host) 520
  app ← escape_param (or_empty f.app) 136
  procid ← escape_param (or_empty f.procid) 136
  msgid ← escape_param (or_empty f.msgid) 136
  fits room (sd_element hdr_prefix (header_params f.pri ts host app procid msgid))
