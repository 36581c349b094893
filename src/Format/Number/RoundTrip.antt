-- ===== src/Format/Number/RoundTrip.antt =====
-- `strtoull` reads back what `%lu` prints.
use native.Mathlib.Nat.{pow-suc}
use mmhashchainsigs.Base.{
  All, Bool-cases, Bytes, [], ap, arith, c_string, false, inl, inr, length, refl, suc, u64_mod,
  zero, ℕ, ◌%◌, ◌++◌, ◌+◌, ◌/◌, ◌<◌, ◌==◌, ◌^◌, ◌∷◌, ◌≡◌, ◌≤◌,
}
use mmhashchainsigs.Format.Number.{digit_run, digits, print_ulong, strtoull}

abbrev pub IsDigit : ℕ → Type 0
IsDigit c = (b'0' ≤ c) × (c ≤ b'9')

digit_run-digits :
    (f n : ℕ) (out : Bytes) → n < 10 ^ f → digit_run (digits f n out) 0 ≡ digit_run out n
unfolding digit_run digits
digit_run-digits zero n out h = ap (digit_run out) (omega arith)
digit_run-digits (suc f) n out h =
    ground (arith, digit_run-digits f (n / 10) ((b'0' + n % 10) ∷ out), pow-suc 10 f)

digits-IsDigit : (f n : ℕ) (out : Bytes) → All IsDigit out → All IsDigit (digits f n out)
unfolding digits
digits-IsDigit zero n out h = h
digits-IsDigit (suc f) n out h = ground (arith, digits-IsDigit f (n / 10) ((b'0' + n % 10) ∷ out))

length-digits : (f n : ℕ) (out : Bytes) → length (digits f n out) ≤ f + length out
unfolding digits
length-digits zero n out = omega arith
length-digits (suc f) n out = ground (arith, length-digits f (n / 10) ((b'0' + n % 10) ∷ out))

le-length-digits : (f n : ℕ) (out : Bytes) → length out ≤ length (digits f n out)
unfolding digits
le-length-digits zero n out = omega arith
le-length-digits (suc f) n out = ground (arith, le-length-digits f (n / 10) ((b'0' + n % 10) ∷ out))

pub print_ulong-IsDigit : (n : ℕ) → All IsDigit (print_ulong n)
unfolding print_ulong
print_ulong-IsDigit n = elim (Bool-cases (n == 0)) [
  | inl z ↦ rw z (omega arith)
  | inr nz ↦ rw nz (digits-IsDigit 20 n [] tt)
]

digits_positive : (f n : ℕ) → (n == 0) ≡ false → 0 < length (digits (suc f) n [])
unfolding digits
digits_positive f n nz = rw nz (omega (arith, le-length-digits f (n / 10) ((b'0' + n % 10) ∷ [])))

pub length-print_ulong : (n : ℕ) → (0 < length (print_ulong n)) × (length (print_ulong n) ≤ 20)
unfolding print_ulong
length-print_ulong n = elim (Bool-cases (n == 0)) [
  | inl z ↦ rw z (omega arith)
  | inr nz ↦ rw nz (digits_positive 19 n nz, omega (arith, length-digits 20 n []))
]

pub c_string-IsDigit : (s : Bytes) → All IsDigit s → c_string s ≡ s
unfolding c_string
c_string-IsDigit [] h = refl
c_string-IsDigit (c ∷ cs) (hc, hs) = ground (arith, c_string-IsDigit cs hs)

strtoull-IsDigit :
    (s : Bytes) (n : ℕ)
    → All IsDigit s
    → 0 < length s
    → digit_run s 0 ≡ (n, [])
    → n < u64_mod
    → strtoull s ≡ (n, [])
unfolding strtoull
strtoull-IsDigit [] n h p e r = absurd (omega arith)
strtoull-IsDigit (c ∷ cs) n (hc, hs) p e r = ground arith

digit_run-print_ulong : (n : ℕ) → n < u64_mod → digit_run (print_ulong n) 0 ≡ (n, [])
unfolding print_ulong digit_run
digit_run-print_ulong n h = elim (Bool-cases (n == 0)) [
  | inl z ↦ rw z (ground arith)
  | inr nz ↦ rw nz (digit_run-digits 20 n [] (omega arith))
]

-- Every 64-bit number is read back from its decimal print, to the end of the text.
pub strtoull-print_ulong : (n : ℕ) → n < u64_mod → strtoull (print_ulong n) ≡ (n, [])
strtoull-print_ulong n h =
    strtoull-IsDigit (print_ulong n) n (print_ulong-IsDigit n) (length-print_ulong n).0
      (digit_run-print_ulong n h) h

digits-append : (f n : ℕ) (out t : Bytes) → digits f n out ++ t ≡ digits f n (out ++ t)
unfolding digits
digits-append zero n out t = refl
digits-append (suc f) n out t = ground (arith, digits-append f (n / 10) ((b'0' + n % 10) ∷ out) t)

digit_run-line : (n : ℕ) → n < u64_mod → digit_run (print_ulong n ++ b'\n' ∷ []) 0 ≡ (n, b'\n' ∷ [])
unfolding print_ulong digit_run
digit_run-line n h = elim (Bool-cases (n == 0)) [
  | inl z ↦ rw z (ground arith)
  | inr nz ↦
      rw nz
        (rw (digits-append 20 n [] (b'\n' ∷ [])) (digit_run-digits 20 n (b'\n' ∷ []) (omega arith)))
]

strtoull-line :
    (s t : Bytes) (n : ℕ)
    → All IsDigit s
    → 0 < length s
    → digit_run (s ++ t) 0 ≡ (n, t)
    → n < u64_mod
    → strtoull (s ++ t) ≡ (n, t)
unfolding strtoull
strtoull-line [] t n h p e r = absurd (omega arith)
strtoull-line (c ∷ cs) t n (hc, hs) p e r = ground arith

-- The number is read back in front of a newline, which is left.
pub strtoull-print_ulong_line :
    (n : ℕ) → n < u64_mod → strtoull (print_ulong n ++ b'\n' ∷ []) ≡ (n, b'\n' ∷ [])
strtoull-print_ulong_line n h =
    strtoull-line (print_ulong n) (b'\n' ∷ []) n (print_ulong-IsDigit n) (length-print_ulong n).0
      (digit_run-line n h) h
