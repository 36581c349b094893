-- ===== src/Format/Number.antt =====
-- `%lu` of printf, and `strtoull` in base ten.
pub mod RoundTrip
pub mod Range
use mmhashchainsigs.Base.{
  Bool, Bytes, [], false, if◌then◌else◌, leb, ltb, skip_space, suc, true, u64_mod, zero, ℕ, ◌%◌,
  ◌&&◌, ◌*◌, ◌+◌, ◌-◌, ◌/◌, ◌==◌, ◌∷◌,
}

-- The decimal digits of `n` in front of `out`, on fuel for each digit.
unfoldable pub digits : ℕ → ℕ → Bytes → Bytes
digits zero n out = out
digits (suc f) n out =
    let rest = digits f (n / 10) ((b'0' + n % 10) ∷ out) in if n == 0 then out else rest

-- A 64-bit number has at most twenty digits.
unfoldable pub print_ulong : ℕ → Bytes
print_ulong n = if n == 0 then b'0' ∷ [] else digits 20 n []

abbrev pub is_digit : ℕ → Bool
is_digit c = leb b'0' c && leb c b'9'

-- The value of the digits behind `n`, and the text behind them.
unfoldable pub digit_run : Bytes → ℕ → ℕ × Bytes
digit_run [] n = (n, [])
digit_run (c ∷ cs) n = if is_digit c then digit_run cs (n * 10 + (c - b'0')) else (n, c ∷ cs)

-- `ULLONG_MAX` where the value is too large; a negative number wraps around.
clip : Bool → ℕ → ℕ
clip negative n =
    if ltb n u64_mod then (if negative then (u64_mod - n) % u64_mod else n) else u64_mod - 1

-- Behind the sign; with no digit the end pointer is the start of the whole text.
unsigned : Bytes → Bool → Bytes → ℕ × Bytes
unsigned start negative [] = (0, start)
unsigned start negative (c ∷ cs) =
    let (n, rest) = digit_run (c ∷ cs) 0 in
    if is_digit c then (clip negative n, rest) else (0, start)

signed : Bytes → Bytes → ℕ × Bytes
signed start [] = (0, start)
signed start (c ∷ cs) =
    if c == b'+'
    then unsigned start false cs
    else if c == b'-'
    then unsigned start true cs
    else unsigned start false (c ∷ cs)

-- The value and what `endptr` points to.
unfoldable pub strtoull : Bytes → ℕ × Bytes
unfolding digit_run clip unsigned signed skip_space
strtoull s = signed s (skip_space s)
