-- ===== src/Format/Number/Range.antt =====
-- What `strtoull` returns is a 64-bit number, whatever the text.
use mmhashchainsigs.Base.{Bool, Bytes, [], arith, false, skip_space, true, u64_mod, ℕ, ◌<◌, ◌∷◌}
use mmhashchainsigs.Format.Number.{clip, digit_run, signed, strtoull, unsigned}

clip-lt : (negative : Bool) (n : ℕ) → clip negative n < u64_mod
unfolding clip
clip-lt negative n = ground arith

unsigned-lt :
    (start : Bytes) (negative : Bool) (s : Bytes) → (unsigned start negative s).0 < u64_mod
unfolding unsigned
unsigned-lt start negative [] = omega arith
unsigned-lt start negative (c ∷ cs) = ground (arith, clip-lt negative ((digit_run (c ∷ cs) 0).0))

signed-lt : (start s : Bytes) → (signed start s).0 < u64_mod
unfolding signed
signed-lt start [] = omega arith
signed-lt start (c ∷ cs) =
    ground (
      arith,
      unsigned-lt start false cs,
      unsigned-lt start true cs,
      unsigned-lt start false (c ∷ cs),
    )

pub strtoull-lt : (s : Bytes) → (strtoull s).0 < u64_mod
unfolding strtoull
strtoull-lt s = signed-lt s (skip_space s)
