-- ===== src/Format/Header/Escape.antt =====
-- The quoting of a header field, against the text it stands for and its reader.
use mmhashchainsigs.Base.{
  Bool, Bytes, [], append-nil, append_assoc, arith, false, if◌then◌else◌, length-append, not, refl,
  some, sym, true, ℕ, ◌&&◌, ◌++◌, ◌==◌, ◌∙◌, ◌∷◌, ◌≡◌,
}
use mmhashchainsigs.Format.Codec.{fits}
use mmhashchainsigs.Format.Header.{escape_loop, escape_param, needs_escape}
use mmhashchainsigs.Format.Scan.{quoted}

-- The field with a backslash in front of each byte that needs one, and what RFC 5424 reads there.
abbrev pub escaped_text : Bytes → Bytes
escaped_text [] = []
escaped_text (c ∷ cs) = if needs_escape c then b'\\' ∷ c ∷ escaped_text cs else c ∷ escaped_text cs

abbrev pub unescaped : Bool → Bytes → Bytes
unescaped hidden [] = []
unescaped hidden (c ∷ cs) =
    if not hidden && c == b'\\' then unescaped true cs else c ∷ unescaped false cs

escape_loop_lem :
    (s : Bytes) (room : ℕ) (out : Bytes)
    → escape_loop s room out ≡ fits room (out ++ escaped_text s)
unfolding escape_loop
escape_loop_lem [] room out = rw (append-nil out) (ground arith)
escape_loop_lem (c ∷ cs) room out = ground (
  arith,
  needs_escape,
  escape_loop_lem cs room (out ++ (b'\\' ∷ c ∷ [])),
  escape_loop_lem cs room (out ++ (c ∷ [])),
  append_assoc out (b'\\' ∷ c ∷ []) (escaped_text cs),
  append_assoc out (c ∷ []) (escaped_text cs),
  length-append out (b'\\' ∷ c ∷ escaped_text cs),
  length-append out (c ∷ escaped_text cs),
)

-- The loop writes the quoted field, where it and a NUL have room, and gives -1 elsewhere.
pub escape_param_lem : (s : Bytes) (room : ℕ) → escape_param s room ≡ fits room (escaped_text s)
unfolding escape_param
escape_param_lem s room = escape_loop_lem s room []

quoted-escaped :
    (s rest : Bytes) → quoted false (escaped_text s ++ b'"' ∷ rest) ≡ some (escaped_text s, rest)
unfolding quoted needs_escape
quoted-escaped [] rest = refl
quoted-escaped (c ∷ cs) rest = ground (arith, quoted-escaped cs rest)

unescaped-escaped : (s : Bytes) → unescaped false (escaped_text s) ≡ s
unfolding needs_escape
unescaped-escaped [] = refl
unescaped-escaped (c ∷ cs) = ground (arith, unescaped-escaped cs)

fits-some : (room : ℕ) (s : Bytes) {t : Bytes} → fits room s ≡ some t → s ≡ t
fits-some room s e = ground arith

-- What sd_escape_param writes for a field ends, for the reader of parameters, at the quote behind
-- it, whatever the field holds, and unescapes to the field.
pub quoted-escape_param :
    (s rest : Bytes) (room : ℕ) {t : Bytes}
    → escape_param s room ≡ some t
    → (quoted false (t ++ b'"' ∷ rest) ≡ some (t, rest)) × (unescaped false t ≡ s)
quoted-escape_param s rest room {t} e =
    let same = fits-some room (escaped_text s) (sym (escape_param_lem s room) ∙ e) in
    (cc (same, quoted-escaped s rest), cc (same, unescaped-escaped s))
