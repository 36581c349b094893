-- ===== src/Format/Strip/Shorter.antt =====
-- `hcs_extract_and_strip_cert_sd` makes a message shorter where it finds a certificate.
use mmhashchainsigs.Base.{
  Bool, Bool-cases, Bytes, Option, Res, [], ap, arith, codes, failed, false, fault, if_true,
  if◌then◌else◌, inl, inr, leb, length, length-append, none, not, ok, refl, some, strip_prefix,
  strip_prefix_sound, suc, sym, ℕ, ◌&&◌, ◌++◌, ◌+◌, ◌<◌, ◌==◌, ◌>>=◌, ◌≤◌, ◌∙◌, ◌∷◌, ◌≡◌,
}
use mmhashchainsigs.Crypto.Host.{Host}
use mmhashchainsigs.Format.Codec.{b64_decode}
use mmhashchainsigs.Format.Element.Ids.{cert_prefix}
use mmhashchainsigs.Format.Scan.{find_prefix, quoted}
use mmhashchainsigs.Format.Strip.{cert_value, extract_and_strip_cert_sd, strip_cert}

-- The two parts of a text of this length, and so many bytes between them.
abbrev IsSplit : ℕ → ℕ → Option (Bytes × Bytes) → Type 0
IsSplit between n none = Unit
IsSplit between n (some (front, after)) = length front + (between + length after) ≡ n

one_more-IsSplit :
    (between n c : ℕ) (r : Option (Bytes × Bytes))
    → IsSplit between n r
    → IsSplit between (suc n) (do (front, after) ← r; some (c ∷ front, after))
one_more-IsSplit between n c none s = tt
one_more-IsSplit between n c (some (front, after)) s = omega arith

find_at-IsSplit :
    (p : Bytes) (c : ℕ) (cs : Bytes) (o : Option Bytes)
    → strip_prefix p (c ∷ cs) ≡ o
    → IsSplit (length p) (length cs) (find_prefix p cs)
    → IsSplit (length p) (suc (length cs)) (elim o [
      | some after ↦ some ([], after)
      | none ↦ (do (before, after) ← find_prefix p cs; some (c ∷ before, after))
    ])
find_at-IsSplit p c cs none e s = one_more-IsSplit (length p) (length cs) c (find_prefix p cs) s
find_at-IsSplit p c cs (some after) e s =
    omega (arith, ap length (strip_prefix_sound p (c ∷ cs) e), length-append p after)

find_prefix-IsSplit : (p s : Bytes) → IsSplit (length p) (length s) (find_prefix p s)
unfolding find_prefix
find_prefix-IsSplit p [] = tt
find_prefix-IsSplit p (c ∷ cs) =
    find_at-IsSplit p c cs (strip_prefix p (c ∷ cs)) refl (find_prefix-IsSplit p cs)

quoted-IsSplit : (skip : Bool) (s : Bytes) → IsSplit 1 (length s) (quoted skip s)
unfolding quoted
quoted-IsSplit skip [] = tt
quoted-IsSplit skip (c ∷ cs) = elim (Bool-cases (not skip && c == b'"')) [
  | inl e ↦ rw e (omega arith)
  | inr e ↦ rw e (
      one_more-IsSplit 1 (length cs) c (quoted (not skip && c == b'\\') cs)
        (quoted-IsSplit (not skip && c == b'\\') cs))
]

module _ ⦃h : Host⦄ where
  strip_cert-shorter :
      (r : Res Bytes) (msg : Bytes) (room : ℕ) {q der : Bytes}
      → strip_cert r msg room ≡ ok (q, some der)
      → length q ≤ length msg
  unfolding strip_cert
  strip_cert-shorter (ok d) msg room e = ground arith
  strip_cert-shorter failed msg room e = absurd (ground arith)
  strip_cert-shorter fault msg room e = absurd (ground arith)

  cert_value-shorter :
      (n : ℕ) (r : Option (Bytes × Bytes)) (before : Bytes) (room der_room : ℕ) {q der : Bytes}
      → IsSplit 1 n r
      → cert_value r before room der_room ≡ ok (q, some der)
      → length q ≤ length before + n
  unfolding cert_value
  cert_value-shorter n none before room der_room s e = absurd (ground arith)
  cert_value-shorter n (some (v, [])) before room der_room s e = absurd (ground arith)
  cert_value-shorter n (some (v, c ∷ after)) before room der_room s e =
      elim (Bool-cases (c == b']')) [
        | inr other ↦ absurd (ground arith)
        | inl closed ↦ omega (
          arith,
          s,
          length-append before after,
          strip_cert-shorter (b64_decode v der_room) (before ++ after) room
              (sym (if_true _ _ closed) ∙ e),
        )
      ]

  -- The routine from the value on, and from the place of the element on.
  abbrev at_value : Bytes → ℕ → ℕ → Option Bytes → Res (Bytes × Option Bytes)
  at_value before room der_room o = elim o [
    | none ↦ failed
    | some value ↦ cert_value (quoted false value) before room der_room
  ]

  abbrev at_place : Bytes → ℕ → ℕ → Option (Bytes × Bytes) → Res (Bytes × Option Bytes)
  at_place src room der_room o = elim o [
    | none ↦ if leb room (length src) then failed else ok (src, none)
    | some (before, rest) ↦ at_value before room der_room (strip_prefix (codes "cert=\"") rest)
  ]

  found-shorter :
      (src before rest : Bytes) (room der_room : ℕ) (o : Option Bytes) {q der : Bytes}
      → strip_prefix (codes "cert=\"") rest ≡ o
      → length before + (length cert_prefix + length rest) ≡ length src
      → at_value before room der_room o ≡ ok (q, some der)
      → length q < length src
  found-shorter src before rest room der_room none p s e = absurd (ground arith)
  found-shorter src before rest room der_room (some value) p s e = omega (
    arith,
    s,
    cert_value-shorter (length value) (quoted false value) before room der_room
        (quoted-IsSplit false value) e,
    ap length (strip_prefix_sound (codes "cert=\"") rest p),
  )

  source-shorter :
      (src : Bytes) (room der_room : ℕ) (o : Option (Bytes × Bytes)) {q der : Bytes}
      → IsSplit (length cert_prefix) (length src) o
      → at_place src room der_room o ≡ ok (q, some der)
      → length q < length src
  source-shorter src room der_room none s e = absurd (ground arith)
  source-shorter src room der_room (some (before, rest)) s e =
      found-shorter src before rest room der_room (strip_prefix (codes "cert=\"") rest) refl s e

  -- What is left of the message is shorter.
  pub extract_and_strip_cert_sd-shorter :
      (src : Bytes) (room der_room : ℕ) {q der : Bytes}
      → extract_and_strip_cert_sd src room der_room ≡ ok (q, some der)
      → length q < length src
  unfolding extract_and_strip_cert_sd
  extract_and_strip_cert_sd-shorter src room der_room e =
      source-shorter src room der_room (find_prefix cert_prefix src)
        (find_prefix-IsSplit cert_prefix src) e
