-- ===== src/Cli/Lines/Split.antt =====
-- A file of lines that end in a newline and hold none inside is split into these lines.
use mathlib.Core.Logic.{◌≢◌}
use mmhashchainsigs.Base.{
  All, Bytes, List, [], ap, arith, append_assoc, concat, false, ℕ, ◌++◌, ◌==◌, ◌∙◌, ◌∷◌, ◌≡◌, refl,
  sym,
}
use mmhashchainsigs.Cli.Lines.{cons_line, file_lines}

-- No newline.
abbrev pub IsInline : ℕ → Type 0
IsInline c = c ≢ b'\n'

-- A line as it is stored.
pub record IsLine (l : Bytes) : Type 0 where
  pub text : Bytes
  pub inline : All IsInline text
  pub ended : l ≡ text ++ b'\n' ∷ []

pub All-join : (s t : Bytes) → All IsInline s → All IsInline t → All IsInline (s ++ t)
All-join [] t hs ht = ht
All-join (c ∷ s) t (hc, hs) ht = (hc, All-join s t hs ht)

pub file_lines-cons :
    (s rest : Bytes)
    → All IsInline s
    → file_lines (s ++ b'\n' ∷ rest) ≡ (s ++ b'\n' ∷ []) ∷ file_lines rest
unfolding file_lines cons_line
file_lines-cons [] rest h = refl
file_lines-cons (c ∷ s) rest (hc, hs) =
    let other : (c == b'\n') ≡ false = ground (arith, hc) in
    rw other (rw (file_lines-cons s rest hs) refl)

pub file_lines-concat : (ls : List Bytes) → All IsLine ls → file_lines (concat ls) ≡ ls
file_lines-concat [] h = unfold file_lines in refl
file_lines-concat (l ∷ ls) (hl, hs) =
    ap (λ (x : Bytes). file_lines (x ++ concat ls)) hl.ended
    ∙ ap file_lines (append_assoc hl.text (b'\n' ∷ []) (concat ls))
    ∙ file_lines-cons hl.text (concat ls) hl.inline
    ∙ ap (λ (x : Bytes). x ∷ file_lines (concat ls)) (sym hl.ended)
    ∙ ap (◌∷◌ l) (file_lines-concat ls hs)
