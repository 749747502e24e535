-- ===== src/BTree/Lists.antt =====
-- Lists with at most one item for each key meet what is assumed of the B-tree.
use niova_mdsvc.Prelude.{
  ℕ, zero, suc, ◌<◌, String, ◌≡◌, refl, sym, ap, ◌∙◌, false, inl, inr, Option, none, some, List, [],
  ◌∷◌, arith, length, get_elem?, str_eq, eq_iff, str_eq→eq, if◌then◌else◌, Bool-cases,
}
use niova_mdsvc.BTree.{BTree}

module _ {A : Type 0} (key : A → String) where
  unfoldable pub find : String → List A → Option A
  find k [] = none
  find k (x ∷ xs) = if str_eq (key x) k then some x else find k xs

  unfoldable pub put : A → List A → List A
  put a [] = a ∷ []
  put a (x ∷ xs) = let rest = put a xs in if str_eq (key x) (key a) then a ∷ xs else x ∷ rest

  unfoldable pub without : String → List A → List A
  without k [] = []
  without k (x ∷ xs) = let rest = without k xs in if str_eq (key x) k then rest else x ∷ rest

  abbrev pub Distinct : List A → Type 0
  Distinct [] = Unit
  Distinct (x ∷ xs) = (find (key x) xs ≡ none) × Distinct xs

  pub find-put :
      (k : String) (a : A) (xs : List A)
      → find k (put a xs) ≡ (if str_eq (key a) k then some a else find k xs)
  unfolding find put
  find-put k a [] = refl
  find-put k a (x ∷ xs) =
      ground (arith, find-put k a xs, eq_iff (key x) (key a), eq_iff (key x) k, eq_iff (key a) k)

  pub find-without :
      (k j : String) (xs : List A)
      → find k (without j xs) ≡ (if str_eq j k then none else find k xs)
  unfolding find without
  find-without k j [] = ground arith
  find-without k j (x ∷ xs) =
      ground (arith, find-without k j xs, eq_iff (key x) j, eq_iff (key x) k, eq_iff j k)

  pub key-find : (k : String) (a : A) (xs : List A) → find k xs ≡ some a → key a ≡ k
  unfolding find
  key-find k a [] h = cc
  key-find k a (x ∷ xs) h = ground (arith, key-find k a xs, eq_iff (key x) k)

  pub Distinct-put : (a : A) (xs : List A) → Distinct xs → Distinct (put a xs)
  unfolding put
  Distinct-put a [] d = (unfold find in refl, tt)
  Distinct-put a (x ∷ xs) d = elim (Bool-cases (str_eq (key x) (key a))) [
    | inl same ↦ rw same (find_same (str_eq→eq _ _ same), d.1)
    | inr other ↦ rw other (find_other other, Distinct-put a xs d.1)
  ]
    where
      find_same : key x ≡ key a → find (key a) xs ≡ none
      find_same e = ap (λ k. find k xs) (sym e) ∙ d.0

      find_other : str_eq (key x) (key a) ≡ false → find (key x) (put a xs) ≡ none
      find_other e =
          ground (arith, find-put (key x) a xs, d.0, eq_iff (key x) (key a), eq_iff (key a) (key x))

  pub Distinct-without : (k : String) (xs : List A) → Distinct xs → Distinct (without k xs)
  unfolding without
  Distinct-without k [] d = tt
  Distinct-without k (x ∷ xs) d =
      ground (arith, Distinct-without k xs d.1, find-without (key x) k xs, d.0)

  pub find-get_elem? :
      (i : ℕ) (a : A) (xs : List A)
      → Distinct xs
      → get_elem? xs i ≡ some a
      → find (key a) xs ≡ some a
  unfolding find
  find-get_elem? i a [] d h = cc
  find-get_elem? zero a (x ∷ xs) d h = ground (arith, eq_iff (key x) (key a))
  find-get_elem? (suc i) a (x ∷ xs) d h =
      ground (arith, find-get_elem? i a xs d.1 h, eq_iff (key x) (key a), d.0)

  pub index-find :
      (k : String) (a : A) (xs : List A)
      → find k xs ≡ some a
      → (i : ℕ) × (i < length xs) × (get_elem? xs i ≡ some a)
  unfolding find
  index-find k a [] h = cc
  index-find k a (x ∷ xs) h = elim (Bool-cases (str_eq (key x) k)) [
    | inl hit ↦ (0, omega arith, ground arith)
    | inr miss ↦ let (i, lt, e) = index-find k a xs (ground arith) in (suc i, omega arith, e)
  ]

pub record Sorted (A : Type 0) (key : A → String) : Type 0 where
  pub list : List A
  pub distinct : Distinct key list

unfoldable pub lists : BTree
unfolding find put without
lists = record {
  Tree = Sorted;
  new = λ A key. record { list = []; distinct = tt };
  get = λ {A} {key} k t. find key k t.list;
  set = λ {A} {key} a t. record {
    list = put key a t.list;
    distinct = Distinct-put key a t.list t.distinct;
  };
  delete = λ {A} {key} k t. record {
    list = without key k t.list;
    distinct = Distinct-without key k t.list t.distinct;
  };
  items = λ {A} {key} t. t.list;
  get-new = λ A key k. unfold find in refl;
  get-set = λ {A} {key} k a t. find-put key k a t.list;
  get-delete = λ {A} {key} k j t. find-without key k j t.list;
  key-get = λ {A} {key} k a t h. key-find key k a t.list h;
  get-items = λ {A} {key} i a t h. find-get_elem? key i a t.list t.distinct h;
  index-get = λ {A} {key} k a t h. index-find key k a t.list h;
}
