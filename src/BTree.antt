-- ===== src/BTree.antt =====
-- The counted B-tree of github.com/tidwall/btree, which the control plane only calls: a parameter.
-- `Tree A key` holds items of type `A` by the text `key`; `items` is the order of an ascending scan.
pub mod Lists
use niova_mdsvc.Prelude.{
  ℕ, ◌<◌, String, ◌≡◌, Option, none, some, List, length, get_elem?, str_eq, if◌then◌else◌,
}

pub record BTree : Type 1 where
  pub Tree : (A : Type 0) → (A → String) → Type 0
  pub new : (A : Type 0) (key : A → String) → Tree A key
  -- Get, Set, Delete and Len, with the item's key in place of a probe item.
  pub get : {A : Type 0} {key : A → String} → String → Tree A key → Option A
  pub set : {A : Type 0} {key : A → String} → A → Tree A key → Tree A key
  pub delete : {A : Type 0} {key : A → String} → String → Tree A key → Tree A key
  pub items : {A : Type 0} {key : A → String} → Tree A key → List A
  -- What the library documents of them.
  pub get-new : (A : Type 0) (key : A → String) (k : String) → get k (new A key) ≡ none
  pub get-set :
      {A : Type 0} {key : A → String} (k : String) (a : A) (t : Tree A key)
      → get k (set a t) ≡ (if str_eq (key a) k then some a else get k t)
  pub get-delete :
      {A : Type 0} {key : A → String} (k j : String) (t : Tree A key)
      → get k (delete j t) ≡ (if str_eq j k then none else get k t)
  pub key-get :
      {A : Type 0} {key : A → String} (k : String) (a : A) (t : Tree A key)
      → get k t ≡ some a
      → key a ≡ k
  pub get-items :
      {A : Type 0} {key : A → String} (i : ℕ) (a : A) (t : Tree A key)
      → get_elem? (items t) i ≡ some a
      → get (key a) t ≡ some a
  pub index-get :
      {A : Type 0} {key : A → String} (k : String) (a : A) (t : Tree A key)
      → get k t ≡ some a
      → (i : ℕ) × (i < length (items t)) × (get_elem? (items t) i ≡ some a)
