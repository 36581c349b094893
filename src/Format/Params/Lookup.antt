-- ===== src/Format/Params/Lookup.antt =====
-- `sd_get_param` on a body that was printed finds the value of the key.
use mmhashchainsigs.Base.{
  All, All-append, All-weaken, Bool-cases, Bytes, List, Option, [], ap, append-nil, append_assoc,
  arith, bytes_eq, bytes_eq_iff, false, if◌then◌else◌, inl, inr, length, length-append, none, refl,
  some, strip_prefix, strip_prefix-append, true, ℕ, ◌++◌, ◌<◌, ◌∙◌, ◌∷◌, ◌≡◌, ◌≢◌,
}
use mmhashchainsigs.Format.Element.{join_params}
use mmhashchainsigs.Format.Element.Clean.{IsCleanParam, IsKeyByte, IsPlain}
use mmhashchainsigs.Format.Params.{get_param, get_param_from}
use mmhashchainsigs.Format.Scan.{quoted}
use mmhashchainsigs.Format.Scan.Laws.{quoted-IsPlain}

-- The value that a list of parameters gives a key, the first one.
abbrev pub value_of : Bytes → List (Bytes × Bytes) → Option Bytes
value_of key [] = none
value_of key ((k, v) ∷ ps) = if bytes_eq key k then some v else value_of key ps

abbrev NoSpace : Bytes → Type 0
NoSpace = All (λ c. c ≢ b' ')

abbrev pattern_of : Bytes → Bytes
pattern_of key = key ++ (b'=' ∷ b'"' ∷ [])

skip_word :
    (w rest key : Bytes)
    → NoSpace w
    → get_param_from false (w ++ b' ' ∷ rest) key ≡ get_param_from true rest key
unfolding get_param_from
skip_word [] rest key h = refl
skip_word (c ∷ w) rest key (hc, hs) = ground (arith, skip_word w rest key hs)

skip_last : (w key : Bytes) → NoSpace w → get_param_from false w key ≡ none
unfolding get_param_from
skip_last [] key h = refl
skip_last (c ∷ w) key (hc, hs) = ground (arith, skip_last w key hs)

-- A word that does not begin with the key is passed over.
skip_other :
    (w rest key : Bytes)
    → NoSpace w
    → 0 < length w
    → strip_prefix (pattern_of key) (w ++ b' ' ∷ rest) ≡ none
    → get_param_from true (w ++ b' ' ∷ rest) key ≡ get_param_from true rest key
unfolding get_param_from
skip_other [] rest key h p m = absurd (omega arith)
skip_other (c ∷ w) rest key (hc, hs) p m = ground (arith, skip_word w rest key hs)

skip_other_last :
    (w key : Bytes)
    → NoSpace w
    → strip_prefix (pattern_of key) w ≡ none
    → get_param_from true w key ≡ none
unfolding get_param_from
skip_other_last [] key h m = refl
skip_other_last (c ∷ w) key (hc, hs) m = ground (arith, skip_last w key hs)

-- Two keys without `=` are told apart by the `=` behind them.
other_key :
    (key k after : Bytes)
    → All IsKeyByte key
    → All IsKeyByte k
    → bytes_eq key k ≡ false
    → strip_prefix (pattern_of key) (k ++ (b'=' ∷ after)) ≡ none
unfolding strip_prefix bytes_eq
other_key [] [] after hk h e = cc
other_key [] (c ∷ k) after hk (hc, h) e = ground arith
other_key (p ∷ key) [] after (hp, hk) h e = ground arith
other_key (p ∷ key) (c ∷ k) after (hp, hk) (hc, h) e = ground (arith, other_key key k after hk h)

found_at :
    (c : ℕ) (cs key value v after : Bytes)
    → strip_prefix (pattern_of key) (c ∷ cs) ≡ some value
    → quoted false value ≡ some (v, after)
    → get_param_from true (c ∷ cs) key ≡ some v
unfolding get_param_from
found_at c cs key value v after s q = rw s (rw q)

strip_key :
    (k v after : Bytes)
    → strip_prefix (pattern_of k) ((k ++ (b'=' ∷ b'"' ∷ (v ++ (b'"' ∷ [])))) ++ after)
      ≡ some (v ++ b'"' ∷ after)
strip_key k v after =
    ap (strip_prefix (pattern_of k)) (regroup k v after)
    ∙ strip_prefix-append (pattern_of k) (v ++ b'"' ∷ after)
  where
    regroup :
        (k v after : Bytes)
        → (k ++ (b'=' ∷ b'"' ∷ (v ++ (b'"' ∷ [])))) ++ after ≡ pattern_of k ++ (v ++ b'"' ∷ after)
    regroup k v after = simp append_assoc

-- The key's own parameter, with anything behind it.
find_here :
    (k v after : Bytes)
    → All IsPlain v
    → get_param_from true ((k ++ (b'=' ∷ b'"' ∷ (v ++ (b'"' ∷ [])))) ++ after) k ≡ some v
find_here [] v after h = found_at _ _ [] _ v after (strip_key [] v after) (quoted-IsPlain v after h)
find_here (c ∷ k) v after h =
    found_at _ _ (c ∷ k) _ v after (strip_key (c ∷ k) v after) (quoted-IsPlain v after h)

param-NoSpace :
    (k v : Bytes) → IsCleanParam (k, v) → NoSpace (k ++ (b'=' ∷ b'"' ∷ (v ++ (b'"' ∷ []))))
param-NoSpace k v (hk, hv) =
    All-append _ k _ (All-weaken (λ c p. p.0.0) k hk)
      (omega arith, (omega arith, All-append _ v _ (All-weaken (λ c p. p.0) v hv) (omega arith)))

param_positive : (k v : Bytes) → 0 < length (k ++ (b'=' ∷ b'"' ∷ (v ++ (b'"' ∷ []))))
param_positive k v = omega (arith, length-append k (b'=' ∷ b'"' ∷ (v ++ (b'"' ∷ []))))

get_param_from-join :
    (ps : List (Bytes × Bytes)) (key : Bytes)
    → All IsCleanParam ps
    → All IsKeyByte key
    → get_param_from true (join_params ps) key ≡ value_of key ps
unfolding get_param_from
get_param_from-join [] key h hk = refl
get_param_from-join ((k, v) ∷ []) key (hp, hs) hk = elim (Bool-cases (bytes_eq key k)) [
  | inl same ↦ rw same (rw ((bytes_eq_iff key k).0 same) (rw append-nil at (find_here k v [] hp.1)))
  | inr other ↦
      rw other (skip_other_last _ key (param-NoSpace k v hp) (other_key key k _ hk hp.0 other))
]
get_param_from-join ((k, v) ∷ p ∷ ps) key (hp, hs) hk = elim (Bool-cases (bytes_eq key k)) [
  | inl same ↦ rw same (rw ((bytes_eq_iff key k).0 same) (find_here k v _ hp.1))
  | inr other ↦ rw other (
      skip_other _ (join_params (p ∷ ps)) key (param-NoSpace k v hp) (param_positive k v)
        (rw append_assoc (other_key key k _ hk hp.0 other))
      ∙ get_param_from-join (p ∷ ps) key hs hk)
]

-- A body that was printed from clean parameters gives each key the value of its first parameter,
-- and a key that is not there none.
pub get_param-join_params :
    (ps : List (Bytes × Bytes)) (key : Bytes)
    → All IsCleanParam ps
    → All IsKeyByte key
    → get_param (join_params ps) key ≡ value_of key ps
unfolding get_param
get_param-join_params ps key h hk = get_param_from-join ps key h hk
