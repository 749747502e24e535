-- ===== src/Prelude/Texts.antt =====
-- Texts cut at a separator and trimmed: `strings.Split`, `strings.Trim` and `strings.TrimSpace` of the
-- source, a character being its code point.
use Prim.Native.Nat.{ℕ}
use Prim.Native.Char.{Char, code}
use Prim.Native.String.{String, ◌++◌, ◌∷◌ as str_cons}
use mathlib.Core.Path.{◌≡◌, refl, ap, ◌∙◌}
use mathlib.Core.Bool.{Bool, true, false, not, ◌&&◌, ◌||◌}
use mathlib.Core.List.{List, [], ◌∷◌}
use native.Mathlib.Omega.{arith}
use text.Mathlib.TextLemmas.{nil-append, cons-append}
use niova_mdsvc.Prelude.Tests.{◌==◌, leb, if◌then◌else◌}

-- The text up to the first separator and the pieces behind it.
unfoldable pub cut : ℕ → String → String × List String
cut sep String.[] = ("", [])
cut sep (String.◌∷◌ c s) =
    let (piece, pieces) = cut sep s in
    if code c == sep then ("", piece ∷ pieces) else (str_cons c piece, pieces)

unfoldable pub split : ℕ → String → List String
unfolding cut
split sep s = let (piece, pieces) = cut sep s in piece ∷ pieces

-- No character of the text is the separator.
abbrev pub free : ℕ → String → Bool
free sep String.[] = true
free sep (String.◌∷◌ c s) = not (code c == sep) && free sep s

abbrev pub is_empty : String → Bool
is_empty String.[] = true
is_empty (String.◌∷◌ c s) = false

unfoldable pub trim_left : (ℕ → Bool) → String → String
trim_left p String.[] = ""
trim_left p (String.◌∷◌ c s) = if p (code c) then trim_left p s else str_cons c s

unfoldable pub trim_right : (ℕ → Bool) → String → String
trim_right p String.[] = ""
trim_right p (String.◌∷◌ c s) =
    let rest = trim_right p s in if p (code c) && is_empty rest then "" else str_cons c rest

unfoldable pub trim : (ℕ → Bool) → String → String
unfolding trim_left trim_right
trim p s = trim_right p (trim_left p s)

-- `unicode.IsSpace`
unfoldable pub is_space : ℕ → Bool
is_space c =
    leb 9 c && leb c 13
    || c == 32
    || c == 0x85
    || c == 0xA0
    || c == 0x1680
    || (leb 0x2000 c && leb c 0x200A)
    || c == 0x2028
    || c == 0x2029
    || c == 0x202F
    || c == 0x205F
    || c == 0x3000

pub free-cons :
    (sep : ℕ) (c : Char) (s : String)
    → free sep (str_cons c s) ≡ true
    → ((code c == sep) ≡ false) × (free sep s ≡ true)
free-cons sep c s f = (ground (arith, f), ground (arith, f))

cut_sep :
    (sep : ℕ) (d : Char) (s : String)
    → (code d == sep) ≡ true
    → cut sep (str_cons d s) ≡ ("", (cut sep s).0 ∷ (cut sep s).1)
unfolding cut
cut_sep sep d s e = rw e refl

pub cut-cons :
    (sep : ℕ) (c : Char) (s : String) {r : String × List String}
    → (code c == sep) ≡ false
    → cut sep s ≡ r
    → cut sep (str_cons c s) ≡ (str_cons c r.0, r.1)
unfolding cut
cut-cons sep c s e h = rw e (ap (λ (r : String × List String). (str_cons c r.0, r.1)) h)

-- A piece and a separator in front of a text are one piece more.
module _ (sep : ℕ) (d : Char) (is_sep : (code d == sep) ≡ true) where
  cut-append :
      (a b : String)
      → free sep a ≡ true
      → cut sep (a ++ str_cons d b) ≡ (a, (cut sep b).0 ∷ (cut sep b).1)
  cut-append String.[] b f = rw (nil-append (str_cons d b)) (cut_sep sep d b is_sep)
  cut-append (String.◌∷◌ c s) b f =
      let (plain, rest) = free-cons sep c s f in
      rw (cons-append c s (str_cons d b))
        (cut-cons sep c (s ++ str_cons d b) plain (cut-append s b rest))

  pub split-append :
      (a b : String) → free sep a ≡ true → split sep (a ++ str_cons d b) ≡ a ∷ split sep b
  unfolding split
  split-append a b f = ap (λ (r : String × List String). r.0 ∷ r.1) (cut-append a b f)

cut-nil : (sep : ℕ) → cut sep "" ≡ ("", [])
unfolding cut
cut-nil sep = refl

cut-free : (sep : ℕ) (a : String) → free sep a ≡ true → cut sep a ≡ (a, [])
cut-free sep String.[] f = cut-nil sep
cut-free sep (String.◌∷◌ c s) f =
    let (plain, rest) = free-cons sep c s f in cut-cons sep c s plain (cut-free sep s rest)

pub split-free : (sep : ℕ) (a : String) → free sep a ≡ true → split sep a ≡ a ∷ []
unfolding split
split-free sep a f = ap (λ (r : String × List String). r.0 ∷ r.1) (cut-free sep a f)

-- Trimming stops at a character that is not to be trimmed.
pub trim_left-cons :
    (p : ℕ → Bool) (c : Char) (s : String)
    → p (code c) ≡ false
    → trim_left p (str_cons c s) ≡ str_cons c s
unfolding trim_left
trim_left-cons p c s e = rw e refl

-- Neither does trimming at the end reach a text behind such a character.
pub trim_right-keeps :
    (p : ℕ → Bool) (c : Char) (s : String)
    → p (code c) ≡ false
    → trim_right p (str_cons c s) ≡ str_cons c (trim_right p s)
unfolding trim_right
trim_right-keeps p c s e = rw e refl

trim_right-cons :
    (p : ℕ → Bool) (c : Char) (s : String)
    → trim_right p s ≡ s
    → (p (code c) && is_empty s) ≡ false
    → trim_right p (str_cons c s) ≡ str_cons c s
unfolding trim_right
trim_right-cons p c s kept e =
    ap (λ (r : String). if p (code c) && is_empty r then "" else str_cons c r) kept ∙ rw e refl

trim_right-nil : (p : ℕ → Bool) → trim_right p "" ≡ ""
unfolding trim_right
trim_right-nil p = refl

pub trim_right-free : (sep : ℕ) (a : String) → free sep a ≡ true → trim_right (λ c. c == sep) a ≡ a
trim_right-free sep String.[] f = trim_right-nil (λ c. c == sep)
trim_right-free sep (String.◌∷◌ c s) f =
    let (plain, rest) = free-cons sep c s f in
    trim_right-cons (λ c. c == sep) c s (trim_right-free sep s rest) (rw plain refl)

pub is_empty-append : (a b : String) → is_empty b ≡ false → is_empty (a ++ b) ≡ false
is_empty-append String.[] b e = rw (nil-append b) e
is_empty-append (String.◌∷◌ c s) b e = rw (cons-append c s b) refl

and_false : (x : Bool) {y : Bool} → y ≡ false → (x && y) ≡ false
and_false true h = h
and_false false h = refl

-- A text that stays whole and is not empty keeps whatever stands in front of it.
pub trim_right-append :
    (p : ℕ → Bool) (a b : String)
    → is_empty b ≡ false
    → trim_right p b ≡ b
    → trim_right p (a ++ b) ≡ a ++ b
trim_right-append p String.[] b full kept = rw (nil-append b) kept
trim_right-append p (String.◌∷◌ c s) b full kept = rw (cons-append c s b) (
    trim_right-cons p c (s ++ b) (trim_right-append p s b full kept)
      (and_false (p (code c)) (is_empty-append s b full)))
