-- ===== src/Format/Strip/All.antt =====
-- `hcs_strip_all_sd`: with more room than text it ends and gives a text, and it changes nothing
-- where the element's name does not occur.
use mmhashchainsigs.Base.{
  Bool, Bool-cases, Bytes, Option, Option-cases, [], ap, append-nil, append_assoc, arith, false,
  inl, inr, length, length-append, le→ltb, none, refl, some, strip_prefix, strip_prefix_sound, suc,
  true, zero, ℕ, ◌++◌, ◌+◌, ◌<◌, ◌∙◌, ◌∷◌, ◌≡◌, ◌≢◌, ◌≤◌,
}
use mmhashchainsigs.Format.Element.Ids.{prefix_of}
use mmhashchainsigs.Format.Scan.{
  ScanEnd, ScanMode, after_element, closed, closes, ended, escaped, find_prefix, inside, next_mode,
  outside, overrun, push, scan_element,
}
use mmhashchainsigs.Format.Strip.{strip_all_sd, strip_loop}

strip_prefix-length :
    (p s : Bytes) {t : Bytes} → strip_prefix p s ≡ some t → length p + length t ≡ length s
strip_prefix-length p s {t} e =
    omega (arith, ap length (strip_prefix_sound p s e), length-append p t)

-- How much is left behind the scanned element.
abbrev left_over : ScanEnd → ℕ
left_over (closed read rest) = length rest
left_over _ = 0

left_over-push : (c : ℕ) (e : ScanEnd) → left_over (push c e) ≡ left_over e
unfolding push
left_over-push c (closed read rest) = refl
left_over-push c ended = refl
left_over-push c overrun = refl

left_over-scan_element : (m : ScanMode) (s : Bytes) → left_over (scan_element m s) ≤ length s
unfolding scan_element
left_over-scan_element outside [] = omega arith
left_over-scan_element inside [] = omega arith
left_over-scan_element escaped [] = omega arith
left_over-scan_element m (c ∷ cs) = elim (Bool-cases (closes m c)) [
  | inl e ↦ rw e (omega arith)
  | inr e ↦ rw e (
      omega (
        arith,
        left_over-push c (scan_element (next_mode m c) cs),
        left_over-scan_element (next_mode m c) cs,
      ))
]

after_element-length : (s : Bytes) → length (after_element s) ≤ length s
unfolding after_element
after_element-length s = ground (arith, left_over-scan_element outside s)

module _ (fuel : ℕ) (prefix : Bytes) (c : ℕ) (cs out : Bytes) (room : ℕ) (removed : Bool) where
  strip_loop-copy :
      strip_prefix prefix (c ∷ cs) ≡ none
      → length out + 1 < room
      → strip_loop (suc fuel) prefix (c ∷ cs) room out removed
        ≡ strip_loop fuel prefix cs room (out ++ c ∷ []) removed
  unfolding strip_loop
  strip_loop-copy absent fit = rw (absent, strip_loop) (ground arith)

  strip_loop-skip :
      (rest : Bytes)
      → strip_prefix prefix (c ∷ cs) ≡ some rest
      → strip_loop (suc fuel) prefix (c ∷ cs) room out removed
        ≡ strip_loop fuel prefix (after_element rest) room out true
  unfolding strip_loop
  strip_loop-skip rest found = rw (found, strip_loop)

  -- What is left to read behind a removed element.
  shorter :
      (rest : Bytes)
      → strip_prefix prefix (c ∷ cs) ≡ some rest
      → 0 < length prefix
      → length (after_element rest) < length (c ∷ cs)
  shorter rest found p =
      omega (arith, after_element-length rest, strip_prefix-length prefix (c ∷ cs) found)

-- A result of the loop that is no longer than a bound.
record Stripped (r : Option (Bytes × Bool)) (bound : ℕ) : Type 0 where
  text : Bytes
  removed : Bool
  result : r ≡ some (text, removed)
  short : length text ≤ bound

-- With fuel for each byte and room for all of them, the loop gives a text.
strip_loop-total :
    (fuel : ℕ) (prefix src out : Bytes) (room : ℕ) (removed : Bool)
    → 0 < length prefix
    → length src ≤ fuel
    → length out + length src < room
    → Stripped (strip_loop fuel prefix src room out removed) (length out + length src)
strip_loop-total fuel prefix [] out room removed p f r = record {
  text = out;
  removed = removed;
  result = unfold strip_loop in ground arith;
  short = omega arith;
}
strip_loop-total zero prefix (c ∷ cs) out room removed p f r = absurd (omega arith)
strip_loop-total (suc fuel) prefix (c ∷ cs) out room removed p f r =
    elim (Option-cases (strip_prefix prefix (c ∷ cs))) [
      | inl absent ↦
          let s =
            strip_loop-total fuel prefix cs (out ++ c ∷ []) room removed p (omega arith)
              (omega (arith, length-append out (c ∷ []))) in
          record {
            text = s.text;
            removed = s.removed;
            result =
                strip_loop-copy fuel prefix c cs out room removed absent (omega arith) ∙ s.result;
            short = omega (arith, s.short, length-append out (c ∷ []));
          }
      | inr (rest, found) ↦
          let less = shorter fuel prefix c cs out room removed rest found p in
          let s =
            strip_loop-total fuel prefix (after_element rest) out room true p (omega (arith, less))
              (omega (arith, less)) in
          record {
            text = s.text;
            removed = s.removed;
            result = strip_loop-skip fuel prefix c cs out room removed rest found ∙ s.result;
            short = omega (arith, s.short, less);
          }
    ]

later_absent :
    (prefix : Bytes) (c : ℕ) (cs : Bytes)
    → strip_prefix prefix (c ∷ cs) ≡ none
    → find_prefix prefix (c ∷ cs) ≡ none
    → find_prefix prefix cs ≡ none
unfolding find_prefix
later_absent prefix c cs absent n = ground arith

here_found :
    (prefix : Bytes) (c : ℕ) (cs rest : Bytes)
    → strip_prefix prefix (c ∷ cs) ≡ some rest
    → find_prefix prefix (c ∷ cs) ≢ none
unfolding find_prefix
here_found prefix c cs rest found = λ n. ground arith

-- Without the element's name in the text, the loop copies it.
strip_loop-absent :
    (fuel : ℕ) (prefix src out : Bytes) (room : ℕ) (removed : Bool)
    → find_prefix prefix src ≡ none
    → length src ≤ fuel
    → length out + length src < room
    → strip_loop fuel prefix src room out removed ≡ some (out ++ src, removed)
unfolding strip_loop find_prefix
strip_loop-absent fuel prefix [] out room removed n f r = rw (append-nil out) (ground arith)
strip_loop-absent zero prefix (c ∷ cs) out room removed n f r = absurd (omega arith)
strip_loop-absent (suc fuel) prefix (c ∷ cs) out room removed n f r =
    elim (Option-cases (strip_prefix prefix (c ∷ cs))) [
      | inl absent ↦
          strip_loop-copy fuel prefix c cs out room removed absent (omega arith)
          ∙ strip_loop-absent fuel prefix cs (out ++ c ∷ []) room removed
              (later_absent prefix c cs absent n) (omega arith)
              (omega (arith, length-append out (c ∷ [])))
          ∙ ap (λ (t : Bytes). some (t, removed)) (append_assoc out (c ∷ []) cs)
      | inr (rest, found) ↦ absurd (here_found prefix c cs rest found n)
    ]

-- With more room than text, and a prefix of 1 to 79 bytes, hcs_strip_all_sd succeeds and gives a
-- text that is no longer than the source.
pub strip_all_sd-total :
    (src id : Bytes) (room : ℕ)
    → length (prefix_of id) ≤ 79
    → 0 < length (prefix_of id)
    → length src < room
    → (t : Bytes) × (removed : Bool) × (strip_all_sd src id room ≡ some (t, removed))
      × (length t ≤ length src)
unfolding strip_all_sd
strip_all_sd-total src id room short some_id fit =
    let s =
      strip_loop-total (length src) (prefix_of id) src [] room false some_id (omega arith)
        (omega arith) in
    (
      s.text,
      s.removed,
      rw (le→ltb 79 (length (prefix_of id)) short) s.result,
      omega (arith, s.short),
    )

-- A text in which the element's prefix does not occur is left as it is and reported as unchanged,
-- with more room than text and a prefix of at most 79 bytes.
pub strip_all_sd-absent :
    (src id : Bytes) (room : ℕ)
    → length (prefix_of id) ≤ 79
    → find_prefix (prefix_of id) src ≡ none
    → length src < room
    → strip_all_sd src id room ≡ some (src, false)
unfolding strip_all_sd
strip_all_sd-absent src id room short absent fit = rw (le→ltb 79 (length (prefix_of id)) short) (
    strip_loop-absent (length src) (prefix_of id) src [] room false absent (omega arith)
      (omega arith))
