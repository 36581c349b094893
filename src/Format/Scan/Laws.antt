-- ===== src/Format/Scan/Laws.antt =====
-- How the scanning loops run over text that is built from clean pieces.
use mmhashchainsigs.Base.{
  All, Bytes, [], ap, append_assoc, arith, false, refl, some, ℕ, ◌++◌, ◌∙◌, ◌∷◌, ◌≡◌, ◌≢◌,
}
use mmhashchainsigs.Format.Element.Clean.{IsPlain}
use mmhashchainsigs.Format.Scan.{
  ScanEnd, closed, ended, inside, outside, overrun, push, quoted, scan_element,
}

-- A value without quotes and backslashes ends at the quote behind it.
pub quoted-IsPlain :
    (v after : Bytes) → All IsPlain v → quoted false (v ++ b'"' ∷ after) ≡ some (v, after)
unfolding quoted
quoted-IsPlain [] after h = refl
quoted-IsPlain (c ∷ cs) after (hc, hs) = ground (arith, quoted-IsPlain cs after hs)

-- The text in front of the place where a scan ends.
pub push_all : Bytes → ScanEnd → ScanEnd
push_all w (closed read rest) = closed (w ++ read) rest
push_all w ended = ended
push_all w overrun = overrun

-- The element loop walks over the text and is outside a value behind it.
abbrev pub IsBalanced : Bytes → Type 0
IsBalanced w =
    (after : Bytes) → scan_element outside (w ++ after) ≡ push_all w (scan_element outside after)

push_all-nil : (e : ScanEnd) → e ≡ push_all [] e
unfolding push_all
push_all-nil (closed r s) = refl
push_all-nil ended = refl
push_all-nil overrun = refl

push_all-append : (v w : Bytes) (e : ScanEnd) → push_all v (push_all w e) ≡ push_all (v ++ w) e
unfolding push_all
push_all-append v w (closed r s) = rw append_assoc
push_all-append v w ended = refl
push_all-append v w overrun = refl

push-push_all : (c : ℕ) (w : Bytes) (e : ScanEnd) → push c (push_all w e) ≡ push_all (c ∷ w) e
unfolding push push_all
push-push_all c w (closed r s) = refl
push-push_all c w ended = refl
push-push_all c w overrun = refl

pub nil-IsBalanced : IsBalanced []
nil-IsBalanced after = push_all-nil _

pub append-IsBalanced : (v w : Bytes) → IsBalanced v → IsBalanced w → IsBalanced (v ++ w)
append-IsBalanced v w hv hw after =
    rw append_assoc (hv (w ++ after) ∙ ap (push_all v) (hw after) ∙ push_all-append v w _)

scan_outside :
    (c : ℕ) (s : Bytes)
    → c ≢ b'"'
    → c ≢ b']'
    → scan_element outside (c ∷ s) ≡ push c (scan_element outside s)
unfolding scan_element
scan_outside c s q b = ground arith

pub char-IsBalanced : (c : ℕ) → c ≢ b'"' → c ≢ b']' → IsBalanced (c ∷ [])
char-IsBalanced c q b after =
    scan_outside c after q b ∙ ap (push c) (push_all-nil _) ∙ push-push_all c [] _

pub plain-IsBalanced : (w : Bytes) → All IsPlain w → IsBalanced w
plain-IsBalanced [] h after = push_all-nil _
plain-IsBalanced (c ∷ w) ((p, q, r, s), hs) after =
    scan_outside c (w ++ after) q s
    ∙ ap (push c) (plain-IsBalanced w hs after)
    ∙ push-push_all c w _

-- Inside a value, up to its closing quote.
abbrev pub IsClosing : Bytes → Type 0
IsClosing w =
    (after : Bytes) → scan_element inside (w ++ after) ≡ push_all w (scan_element outside after)

pub quote-IsBalanced : (w : Bytes) → IsClosing w → IsBalanced (b'"' ∷ w)
unfolding scan_element
quote-IsBalanced w h after = ap (push b'"') (h after) ∙ push-push_all b'"' w _

pub quote-IsClosing : IsClosing (b'"' ∷ [])
unfolding scan_element
quote-IsClosing after = ap (push b'"') (push_all-nil _) ∙ push-push_all b'"' [] _

scan_inside :
    (c : ℕ) (s : Bytes)
    → c ≢ b'"'
    → c ≢ b'\\'
    → scan_element inside (c ∷ s) ≡ push c (scan_element inside s)
unfolding scan_element
scan_inside c s q b = ground arith

pub plain-IsClosing : (v w : Bytes) → All IsPlain v → IsClosing w → IsClosing (v ++ w)
plain-IsClosing [] w h hw after = hw after
plain-IsClosing (c ∷ v) w ((p, q, r, s), hs) hw after =
    scan_inside c ((v ++ w) ++ after) q r
    ∙ ap (push c) (plain-IsClosing v w hs hw after)
    ∙ push-push_all c (v ++ w) _

-- A balanced text and a bracket are an element's end.
pub scan_element-IsBalanced :
    (w after : Bytes)
    → IsBalanced w
    → scan_element outside ((w ++ b']' ∷ []) ++ after) ≡ closed (w ++ b']' ∷ []) after
unfolding scan_element push_all
scan_element-IsBalanced w after h = rw append_assoc (h (b']' ∷ after))
