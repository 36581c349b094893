-- ===== src/Format/Element/Inline.antt =====
-- The printed elements hold no newline.
use mmhashchainsigs.Base.{All, All-weaken, Bytes, IsByte, List, [], arith, codes, ℕ, ◌++◌, ◌∷◌}
use mmhashchainsigs.Cli.Lines.Split.{All-join, IsInline}
use mmhashchainsigs.Format.Element.{
  join_params, msg_params, opening_params, param, sd_element, sig_params,
}
use mmhashchainsigs.Format.Element.Ids.{cert_prefix, sd_prefix}
use mmhashchainsigs.Format.Hex.{hex_encode}
use mmhashchainsigs.Format.Hex.RoundTrip.{hex_encode-IsHex}
use mmhashchainsigs.Format.Number.{print_ulong}
use mmhashchainsigs.Format.Number.RoundTrip.{print_ulong-IsDigit}

abbrev IsInlineParam : Bytes × Bytes → Type 0
IsInlineParam (k, v) = All IsInline k × All IsInline v

print_ulong-IsInline : (n : ℕ) → All IsInline (print_ulong n)
print_ulong-IsInline n =
    All-weaken (λ c h. omega (arith, h)) (print_ulong n) (print_ulong-IsDigit n)

hex_encode-IsInline : (bs : Bytes) → All IsByte bs → All IsInline (hex_encode bs)
hex_encode-IsInline bs h =
    All-weaken (λ c x. omega (arith, x)) (hex_encode bs) (hex_encode-IsHex bs h)

param-IsInline : (k v : Bytes) → All IsInline k → All IsInline v → All IsInline (param k v)
param-IsInline k v hk hv =
    All-join k _ hk (omega arith, (omega arith, All-join v _ hv (omega arith)))

join_params-IsInline :
    (ps : List (Bytes × Bytes)) → All IsInlineParam ps → All IsInline (join_params ps)
join_params-IsInline [] h = tt
join_params-IsInline ((k, v) ∷ []) ((hk, hv), h) = param-IsInline k v hk hv
join_params-IsInline ((k, v) ∷ p ∷ ps) ((hk, hv), h) =
    All-join (param k v) (b' ' ∷ join_params (p ∷ ps)) (param-IsInline k v hk hv)
      (omega arith, join_params-IsInline (p ∷ ps) h)

element-IsInline :
    (prefix : Bytes) (ps : List (Bytes × Bytes))
    → All IsInline prefix
    → All IsInlineParam ps
    → All IsInline (sd_element prefix ps)
element-IsInline prefix ps hp h =
    All-join prefix (join_params ps ++ b']' ∷ []) hp
      (All-join (join_params ps) (b']' ∷ []) (join_params-IsInline ps h) (omega arith))

sd_prefix-IsInline : All IsInline sd_prefix
unfolding sd_prefix
sd_prefix-IsInline = omega arith

pub cert_element-IsInline :
    (v : Bytes) → All IsInline v → All IsInline (sd_element cert_prefix ((codes "cert", v) ∷ []))
unfolding cert_prefix
cert_element-IsInline v h =
    element-IsInline cert_prefix ((codes "cert", v) ∷ []) (omega arith) ((omega arith, h), tt)

module _ (seq : ℕ) (chain_hash : Bytes) (bytes : All IsByte chain_hash) where
  pub opening-IsInline :
      (fp : Bytes)
      → All IsByte fp
      → All IsInline (sd_element sd_prefix (opening_params (codes "I") seq chain_hash fp))
  opening-IsInline fp h =
      element-IsInline sd_prefix (opening_params (codes "I") seq chain_hash fp) sd_prefix-IsInline (
        (omega arith, omega arith),
        (
          (omega arith, print_ulong-IsInline seq),
          (
            (omega arith, hex_encode-IsInline chain_hash bytes),
            ((omega arith, hex_encode-IsInline fp h), tt),
          ),
        ),
      )

  pub msg-IsInline : All IsInline (sd_element sd_prefix (msg_params seq chain_hash))
  msg-IsInline = element-IsInline sd_prefix (msg_params seq chain_hash) sd_prefix-IsInline (
    (omega arith, print_ulong-IsInline seq),
    ((omega arith, hex_encode-IsInline chain_hash bytes), tt),
  )

  pub sig-IsInline :
      (from to : ℕ) (s : Bytes)
      → All IsInline s
      → All IsInline (sd_element sd_prefix (sig_params seq chain_hash from to s))
  sig-IsInline from to s h =
      element-IsInline sd_prefix (sig_params seq chain_hash from to s) sd_prefix-IsInline (
        (omega arith, omega arith),
        (
          (omega arith, print_ulong-IsInline seq),
          (
            (omega arith, hex_encode-IsInline chain_hash bytes),
            (
              (omega arith, print_ulong-IsInline from),
              ((omega arith, print_ulong-IsInline to), ((omega arith, h), tt)),
            ),
          ),
        ),
      )
