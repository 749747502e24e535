-- ===== src/Store/Pairs.antt =====
-- A store as a list of pairs, whose writes and deletions never fail: it meets what is assumed of range reads.
use niova_mdsvc.Prelude.{
  String, ◌≡◌, refl, sym, ap, ◌∙◌, Bool, true, not, inl, inr, none, some, some_eq, List, [], ◌∷◌,
  All, arith, str_eq, eq_iff, str_eq→eq, if◌then◌else◌, Bool-cases,
}
use niova_mdsvc.Authorizer.{lookup}
use niova_mdsvc.Store.{DataStore, RangeRead, found}
use niova_mdsvc.Store.Ranges.{begins, RangeStore}

abbrev pub Pairs : Type 0
Pairs = List (String × String)

-- The pairs whose key passes the test.
abbrev pub keep : (String → Bool) → Pairs → Pairs
keep p [] = []
keep p ((k, v) ∷ kvs) = let rest = keep p kvs in if p k then (k, v) ∷ rest else rest

lookup-keep :
    (p : String → Bool) (k : String) (kvs : Pairs)
    → p k ≡ true
    → lookup k (keep p kvs) ≡ lookup k kvs
lookup-keep p k [] h = refl
lookup-keep p k ((j, v) ∷ kvs) h = elim (Bool-cases (p j)) [
  | inl e ↦ rw e (ground (arith, lookup-keep p k kvs h))
  | inr e ↦ elim (Bool-cases (str_eq j k)) [
    | inl same ↦ absurd (ground (arith, e, h, ap p (str_eq→eq j k same)))
    | inr other ↦ rw (e, other) (lookup-keep p k kvs h)
  ]
]

pub lookup-deleted :
    (k j : String) (kvs : Pairs)
    → lookup j (keep (λ i. not (str_eq k i)) kvs) ≡ (if str_eq k j then none else lookup j kvs)
lookup-deleted k j [] = ground arith
lookup-deleted k j ((i, v) ∷ kvs) =
    ground (arith, eq_iff k i, eq_iff i j, eq_iff k j, lookup-deleted k j kvs)

abbrev pub pairs_store : DataStore
pairs_store = record {
  State = Pairs;
  read = λ k s. lookup k s;
  write = λ k v s. some ((k, v) ∷ s);
  delete = λ k s. some (keep (λ j. not (str_eq k j)) s);
  read-write = λ k v s s' e j. ap (lookup j) (sym (some_eq e));
  read-delete = λ k s s' e j. ap (lookup j) (sym (some_eq e)) ∙ lookup-deleted k j s;
}

found_eq : {a b : Pairs} → found a ≡ found b → a ≡ b
found_eq h = cc

abbrev read_pairs : Pairs → String → RangeRead
read_pairs s p = found (keep (begins p) s)

pub lookup-read_pairs :
    (s : Pairs) (p k : String) {kvs : Pairs}
    → read_pairs s p ≡ found kvs
    → begins p k ≡ true
    → lookup k kvs ≡ lookup k s
lookup-read_pairs s p k e b = ap (lookup k) (sym (found_eq e)) ∙ lookup-keep (begins p) k s b

abbrev pub pairs_ranges : RangeStore
pairs_ranges = record {
  ds = pairs_store;
  range_read = read_pairs;
  lookup-range_read = lookup-read_pairs;
}

pub keep-All :
    (p : String → Bool) (kvs : Pairs) → All (λ (kv : String × String). p kv.0 ≡ true) (keep p kvs)
keep-All p [] = tt
keep-All p ((k, v) ∷ kvs) = elim (Bool-cases (p k)) [
  | inl e ↦ rw e (e, keep-All p kvs)
  | inr e ↦ rw e (keep-All p kvs)
]
