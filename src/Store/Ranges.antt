-- ===== src/Store/Ranges.antt =====
-- A data store with range reads, of github.com/00pauln00/niova-pumicedb: a range read whose pairs fit into
-- the reply gives every key that begins with the prefix, with its value.
use Prim.Native.Char.{code}
use Prim.Native.String.{◌++◌ as str_append, ◌∷◌ as str_cons}
use text.Mathlib.TextLemmas.{nil-append, cons-append}
use niova_mdsvc.Prelude.{
  String, ◌≡◌, refl, sym, ap, ◌∙◌, not, Bool, true, false, ◌&&◌, ◌||◌, ◌⊎◌, inr, Option, List,
  arith, ◌==◌, str_eq,
}
use niova_mdsvc.Authorizer.{lookup}
use niova_mdsvc.Store.{DataStore, RangeRead, found}

-- `strings.HasPrefix`
unfoldable pub begins : String → String → Bool
begins String.[] k = true
begins (String.◌∷◌ c p) String.[] = false
begins (String.◌∷◌ c p) (String.◌∷◌ d k) = code c == code d && begins p k

-- `strings.HasSuffix`
unfoldable pub ends : String → String → Bool
ends p String.[] = str_eq p ""
ends p (String.◌∷◌ c k) = str_eq p (str_cons c k) || ends p k

-- `strings.Contains`
unfoldable pub contains : String → String → Bool
unfolding begins
contains p String.[] = str_eq p ""
contains p (String.◌∷◌ c k) = begins p (str_cons c k) || contains p k

pub begins-append : (p k : String) → begins p (str_append p k) ≡ true
unfolding begins
begins-append String.[] k = refl
begins-append (String.◌∷◌ c p) k = rw (cons-append c p k) (ground (arith, begins-append p k))

pub begins_self : (k : String) → begins k k ≡ true
unfolding begins
begins_self String.[] = refl
begins_self (String.◌∷◌ c k) = ground (arith, begins_self k)

pub begins-append_both : (a p k : String) → begins (str_append a p) (str_append a k) ≡ begins p k
unfolding begins
begins-append_both String.[] p k = rw (nil-append p, nil-append k) refl
begins-append_both (String.◌∷◌ c a) p k =
    rw (cons-append c a p, cons-append c a k) (ground (arith, begins-append_both a p k))

-- The texts differ at a place that both have.
unfoldable pub diverge : String → String → Bool
diverge String.[] q = false
diverge (String.◌∷◌ c p) String.[] = false
diverge (String.◌∷◌ c p) (String.◌∷◌ d q) = not (code c == code d) || diverge p q

pub begins-diverge :
    (p q y k : String) → diverge p q ≡ true → begins (str_append q y) k ≡ true → begins p k ≡ false
unfolding begins diverge
begins-diverge String.[] q y k d b = cc
begins-diverge (String.◌∷◌ c p) String.[] y k d b = cc
begins-diverge (String.◌∷◌ c p) (String.◌∷◌ e q) y String.[] d b = refl
begins-diverge (String.◌∷◌ c p) (String.◌∷◌ e q) y (String.◌∷◌ f k) d b =
    let b' : (code e == code f && begins (str_append q y) k) ≡ true =
      ap (λ t. begins t (str_cons f k)) (sym (cons-append e q y)) ∙ b in
    ground (arith, begins-diverge p q y k)

-- A text that goes on from another one begins like it.
pub begins-false : (p q y : String) → diverge p q ≡ true → begins p (str_append q y) ≡ false
begins-false p q y d = begins-diverge p q y (str_append q y) d (begins_self (str_append q y))

pub record RangeStore : Type 1 where
  pub ds : DataStore
  pub range_read : ds.State → String → RangeRead
  pub lookup-range_read :
      (s : ds.State) (p k : String) {kvs : List (String × String)}
      → range_read s p ≡ found kvs
      → begins p k ≡ true
      → lookup k kvs ≡ ds.read k s

-- `DataStore.Read` as the authorizer calls it, in any column family.
abbrev pub reader : (rs : RangeStore) → rs.ds.State → String → String → String ⊎ Option String
reader rs s k family = inr (rs.ds.read k s)
