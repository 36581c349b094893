-- ===== src/Cli/Lines/Trim.antt =====
-- Lines whose end is no newline or carriage return are kept whole by the trimming loop.
use mmhashchainsigs.Base.{Bytes, [], ap, arith, refl, ℕ, ◌++◌, ◌∙◌, ◌∷◌, ◌≡◌}
use mmhashchainsigs.Cli.Lines.{chomp, trim_onto}

-- The two cases in which a byte is kept in front of a trimmed text.
trim_onto-kept :
    (c : ℕ) (cs : Bytes) (r : Bytes × ℕ)
    → trim_onto c r ≡ (c ∷ cs, 0)
    → (r ≡ (cs, 0)) × (trim_onto c (cs, b'\n') ≡ (c ∷ cs, b'\n'))
unfolding trim_onto
trim_onto-kept c [] ([], b) h = ground arith
trim_onto-kept c (e ∷ es) ([], b) h = ground arith
trim_onto-kept c [] (d ∷ ds, b) h = ground arith
trim_onto-kept c (e ∷ es) (d ∷ ds, b) h = ground arith

-- A newline is taken off, and nothing else, where nothing would be taken off without it.
pub chomp-newline : (s : Bytes) → chomp s ≡ (s, 0) → chomp (s ++ b'\n' ∷ []) ≡ (s, b'\n')
unfolding chomp
chomp-newline [] h = refl
chomp-newline (c ∷ cs) h =
    let (r, kept) = trim_onto-kept c cs (chomp cs) h in ap (trim_onto c) (chomp-newline cs r) ∙ kept

pub chomp-behind :
    (w s : Bytes) {c : ℕ} {cs : Bytes} {b : ℕ}
    → chomp s ≡ (c ∷ cs, b)
    → chomp (w ++ s) ≡ (w ++ c ∷ cs, b)
unfolding chomp
chomp-behind [] s h = h
chomp-behind (d ∷ []) s h = rw (chomp-behind [] s h)
chomp-behind (d ∷ e ∷ w) s h = rw (chomp-behind (e ∷ w) s h)
