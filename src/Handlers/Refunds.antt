-- ===== src/Handlers/Refunds.antt =====
-- What the loop of `APDeleteVdev` in controlplane/ctlplanefuncs/server/srvctlplanefuncs.go gathers: the space
-- to give back to each NISD, and the keys to delete.
use mathlib.Core.Path.{subst}
use niova_mdsvc.Prelude.{
  ℕ, zero, suc, ◌+◌, ◌*◌, ◌%◌, String, ◌≡◌, refl, sym, ap, ◌∙◌, true, ◌&&◌, inl, inr, Option, none,
  some, List, [], ◌∷◌, ◌++◌, ok, ◌>>=◌, ok_eq, arith, str_eq, eq_iff, str_eq→eq, if◌then◌else◌,
  Bool-cases, Option-cases, add64, two64,
}
use niova_mdsvc.Commit.{◌/◌, get_conf_key, nisd_key, nisd_cfg_key}
use niova_mdsvc.CpLib.{Nisd, chunk_size}
use niova_mdsvc.Authorizer.{lookup}
use niova_mdsvc.Store.{RangeRead, found, key_not_found, range_read_failure}
use niova_mdsvc.Store.Ranges.{RangeStore}
use niova_mdsvc.Parser.{parse_entities}
use niova_mdsvc.Parser.Storage.{nisd_parser}
use niova_mdsvc.Handlers.Mount.{or_failed}
use niova_mdsvc.Handlers.Delete.{Refunds, is_block, credit, add_first, with_nisd}

-- The blocks of the vdev that are on a NISD.
unfoldable pub blocks : String → List (String × String) → ℕ
blocks id [] = 0
blocks id ((k, v) ∷ kvs) =
    let rest = blocks id kvs in if is_block k && str_eq v id then suc rest else rest

-- A NISD with the chunks of so many blocks given back, where there is a block.
unfoldable pub refunded : ℕ → Option Nisd → Option Nisd
refunded zero n = none
refunded (suc k) none = none
refunded (suc k) (some n) =
    some (record n { available_size = (n.available_size + suc k * chunk_size) % two64 })

-- The keys that one pair and all pairs of the vdev `id` add to those that are deleted.
abbrev pub pair_keys : String → String → String → List String
pair_keys id k v = k ∷ (if is_block k then (nisd_key / v / id) ∷ [] else [])

abbrev pub keys_of : String → List (String × String) → List String
keys_of id [] = []
keys_of id ((k, v) ∷ kvs) = pair_keys id k v ++ keys_of id kvs

abbrev pub one_more : Option Nisd → Option Nisd
one_more none = none
one_more (some n) = some (record n { available_size = add64 n.available_size chunk_size })

abbrev pub or_known : Option Nisd → Option Nisd → Option Nisd
or_known none k = k
or_known (some n) k = some n

abbrev head_of : List Nisd → Option Nisd
head_of [] = none
head_of (n ∷ ns) = some n

pub refunded-suc :
    (c : ℕ) (n : Option Nisd) → refunded (suc c) n ≡ one_more (or_known (refunded c n) n)
unfolding refunded
refunded-suc zero none = refl
refunded-suc zero (some n) = ap (λ a. some (record n { available_size = a })) (omega arith)
refunded-suc (suc c) none = refl
refunded-suc (suc c) (some n) = ap (λ a. some (record n { available_size = a })) (omega arith)

pub lookup-credit :
    (i j : String) (m : Refunds)
    → lookup j (credit i m) ≡ (if str_eq i j then one_more (lookup j m) else lookup j m)
unfolding credit
lookup-credit i j [] = ground arith
lookup-credit i j ((k, n) ∷ m) =
    ground (arith, eq_iff i j, eq_iff k i, eq_iff k j, lookup-credit i j m)

-- No NISD stands in the map twice.
abbrev pub Distinct : Refunds → Type 0
Distinct [] = Unit
Distinct ((j, n) ∷ m) = (lookup j m ≡ none) × Distinct m

pub Distinct-credit : (i : String) (m : Refunds) → Distinct m → Distinct (credit i m)
unfolding credit
Distinct-credit i [] d = tt
Distinct-credit i ((j, n) ∷ m) d = elim (Bool-cases (str_eq j i)) [
  | inl e ↦ rw e d
  | inr e ↦
      let absent : lookup j (credit i m) ≡ none =
        lookup-credit i j m ∙ ground (arith, eq_iff i j, eq_iff j i, e, d.0) in
      rw e (absent, Distinct-credit i m d.1)
]

module _ (rs : RangeStore) (s : rs.ds.State) where
  -- The NISD that the store has under an ID.
  unfoldable pub stored_nisd : String → Option Nisd
  stored_nisd id = elim (rs.range_read s (get_conf_key nisd_cfg_key id)) [
    | found kvs ↦ head_of (parse_entities nisd_parser 1 kvs)
    | key_not_found ↦ none
    | range_read_failure ↦ none
  ]

  absent : (i j : String) (m : Refunds) → lookup i m ≡ none → str_eq i j ≡ true → lookup j m ≡ none
  absent i j m h e = ap (λ k. lookup k m) (sym (str_eq→eq i j e)) ∙ h

  -- The map with the NISD of `i`, read from the store if it is not there.
  pub record Has (i : String) (m m' : Refunds) (n : Option Nisd) : Type 0 where
    pub distinct : Distinct m → Distinct m'
    pub same :
        (j : String) → lookup j m' ≡ (if str_eq i j then or_known (lookup j m) n else lookup j m)

  add_first-Has :
      (ns : List Nisd) (i : String) (m : Refunds)
      → lookup i m ≡ none
      → Has i m (add_first ns i m) (head_of ns)
  unfolding add_first
  add_first-Has [] i m h = record {
    distinct = λ d. d;
    same = λ j. elim (Bool-cases (str_eq i j)) [
      | inl e ↦ rw e (rw (absent i j m h e) refl)
      | inr e ↦ rw e refl
    ];
  }
  add_first-Has (n ∷ ns) i m h = record {
    distinct = λ d. (h, d);
    same = λ j. elim (Bool-cases (str_eq i j)) [
      | inl e ↦ rw e (rw (absent i j m h e) refl)
      | inr e ↦ rw e refl
    ];
  }

  pub with_nisd-Has :
      (i : String) (m : Refunds) {m' : Refunds}
      → with_nisd rs s i m ≡ ok m'
      → Has i m m' (stored_nisd i)
  unfolding with_nisd stored_nisd or_failed
  with_nisd-Has i m {m'} h = elim (Option-cases (lookup i m)) [
    | inl e ↦
        read (rs.range_read s (get_conf_key nisd_cfg_key i)) refl e
          (sym (rw (e, with_nisd) refl) ∙ h)
    | inr (n, e) ↦
        subst (λ t. Has i m t (stored_nisd i))
          (ok_eq (with_nisd rs s i m) (rw (e, with_nisd) refl) h) (there n e)
  ]
    where
      there : (n : Nisd) → lookup i m ≡ some n → Has i m m (stored_nisd i)
      there n e = record {
        distinct = λ d. d;
        same = λ j. elim (Bool-cases (str_eq i j)) [
          | inl t ↦
              let here : lookup j m ≡ some n = ap (λ k. lookup k m) (sym (str_eq→eq i j t)) ∙ e in
              rw t (rw here refl)
          | inr t ↦ rw t refl
        ];
      }

      read :
          (r : RangeRead)
          → rs.range_read s (get_conf_key nisd_cfg_key i) ≡ r
          → lookup i m ≡ none
          → or_failed r >>= (λ kvs. ok (add_first (parse_entities nisd_parser 1 kvs) i m)) ≡ ok m'
          → Has i m m' (stored_nisd i)
      read (found kvs) e n k =
          subst (λ t. Has i m t (stored_nisd i))
            (ok_eq (ok (add_first (parse_entities nisd_parser 1 kvs) i m)) refl k)
            (rw (e, stored_nisd) (add_first-Has (parse_entities nisd_parser 1 kvs) i m n))
      read key_not_found e n k = cc
      read range_read_failure e n k = cc
