-- ===== src/Keys.antt =====
-- The keys of the store: the pieces that `strings.Split(strings.Trim(k, "/"), "/")` gives in
-- controlplane/ctlplanefuncs/server/parser.go and controlplane/user/server/deserializer.go, and keys built
-- from pieces.
use Prim.Native.Char.{Char, code}
use Prim.Native.String.{◌++◌, ◌∷◌ as str_cons}
use text.Mathlib.TextLemmas.{nil-append, cons-append}
use niova_mdsvc.Prelude.{ℕ, String, ◌≡◌, refl, ap, ◌∙◌, Bool, true, false, List, [], ◌∷◌, All, ◌==◌}
use niova_mdsvc.Prelude.Texts.{
  split, trim, trim_left, trim_right, free, free-cons, is_empty, is_empty-append, split-append,
  split-free, trim_left-cons, trim_right-free, trim_right-append, trim_right-keeps, cut, cut-cons,
}
use niova_mdsvc.Commit.{◌/◌}

abbrev pub slash : ℕ
slash = b'/'

abbrev pub at_slash : ℕ → Bool
at_slash c = c == slash

unfoldable pub key_parts : String → List String
key_parts k = split slash (trim at_slash k)

-- The key with these pieces.
abbrev pub key : String → List String → String
key a [] = a
key a (b ∷ bs) = a / key b bs

abbrev pub IsFree : String → Type 0
IsFree a = free slash a ≡ true

abbrev pub LastFull : String → List String → Type 0
LastFull a [] = is_empty a ≡ false
LastFull a (b ∷ bs) = LastFull b bs

slash_char : Char
slash_char = Prim.Native.String.char_at "/" 0

slash_append : (b : String) → "/" ++ b ≡ str_cons slash_char b
unfolding slash_char
slash_append b = cons-append slash_char "" b ∙ ap (str_cons slash_char) (nil-append b)

is_slash : (code slash_char == slash) ≡ true
unfolding slash_char
is_slash = refl

split-key : (a : String) (bs : List String) → All IsFree (a ∷ bs) → split slash (key a bs) ≡ a ∷ bs
split-key a [] f = split-free slash a f.0
split-key a (b ∷ bs) f =
    rw (slash_append (key b bs)) (
      split-append slash slash_char is_slash a (key b bs) f.0
      ∙ ap (λ t. a ∷ t) (split-key b bs f.1))

is_empty-key : (a : String) (bs : List String) → LastFull a bs → is_empty (key a bs) ≡ false
is_empty-key a [] h = h
is_empty-key a (b ∷ bs) h =
    is_empty-append a ("/" ++ key b bs) (is_empty-append "/" (key b bs) (is_empty-key b bs h))

trim_right-key :
    (a : String) (bs : List String)
    → All IsFree (a ∷ bs)
    → LastFull a bs
    → trim_right at_slash (key a bs) ≡ key a bs
trim_right-key a [] f h = trim_right-free slash a f.0
trim_right-key a (b ∷ bs) f h =
    let full = is_empty-key b bs h in
    trim_right-append at_slash a ("/" ++ key b bs) (is_empty-append "/" (key b bs) full)
      (trim_right-append at_slash "/" (key b bs) full (trim_right-key b bs f.1 h))

trim_left-free :
    (a b : String) → IsFree a → is_empty a ≡ false → trim_left at_slash (a ++ b) ≡ a ++ b
trim_left-free String.[] b f h = cc
trim_left-free (String.◌∷◌ c s) b f h =
    rw (cons-append c s b) (trim_left-cons at_slash c (s ++ b) (free-cons slash c s f).0)

trim_left-key :
    (a : String) (bs : List String)
    → IsFree a
    → is_empty a ≡ false
    → trim_left at_slash (key a bs) ≡ key a bs
trim_left-key String.[] bs f h = cc
trim_left-key (String.◌∷◌ c s) [] f h = trim_left-cons at_slash c s (free-cons slash c s f).0
trim_left-key (String.◌∷◌ c s) (b ∷ bs) f h = trim_left-free (str_cons c s) ("/" ++ key b bs) f h

-- A key of pieces without a slash, the first and the last of them not empty, is read back.
pub key_parts-key :
    (a : String) (bs : List String)
    → All IsFree (a ∷ bs)
    → is_empty a ≡ false
    → LastFull a bs
    → key_parts (key a bs) ≡ a ∷ bs
unfolding key_parts trim
key_parts-key a bs f first last =
    ap (λ (k : String). split slash (trim_right at_slash k)) (trim_left-key a bs f.0 first)
    ∙ ap (split slash) (trim_right-key a bs f last)
    ∙ split-key a bs f

-- The first piece of a key begins with the key's first two characters, if these are no slashes.
pub key_parts-head :
    (c d : Char) (s : String)
    → at_slash (code c) ≡ false
    → at_slash (code d) ≡ false
    → (t : String) × (ts : List String) × (key_parts (str_cons c (str_cons d s))
        ≡ str_cons c (str_cons d t) ∷ ts)
unfolding key_parts trim split
key_parts-head c d s hc hd = (
  (cut slash (trim_right at_slash s)).0,
  (cut slash (trim_right at_slash s)).1,
  ap (λ (k : String). split slash (trim_right at_slash k))
        (trim_left-cons at_slash c (str_cons d s) hc)
      ∙ ap (split slash) (
          trim_right-keeps at_slash c (str_cons d s) hc
          ∙ ap (str_cons c) (trim_right-keeps at_slash d s hd))
      ∙ ap (λ (r : String × List String). r.0 ∷ r.1)
          (cut-cons slash c (str_cons d (trim_right at_slash s)) hc
            (cut-cons slash d (trim_right at_slash s) hd refl)),
)
