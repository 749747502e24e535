-- ===== src/Handlers/Named.antt =====
-- The vdev that `APMountVdev` of controlplane/ctlplanefuncs/server/srvctlplanefuncs.go takes a request to name.
use niova_mdsvc.Prelude.{
  String, ◌≡◌, refl, sym, ap, true, false, inl, inr, some, List, [], ◌∷◌, Outcome, ok, first_call,
  ok_eq, arith, Bool-cases, All, length, ◌≢◌, ◌⊎◌, ◌++◌, ◌==◌,
}
use mathlib.Core.Path.{subst}
use niova_mdsvc.Keys.{key_parts}
use niova_mdsvc.Commit.{◌/◌, get_conf_key}
use niova_mdsvc.Authorizer.{Config}
use niova_mdsvc.Store.{RangeRead, found, key_not_found, range_read_failure}
use niova_mdsvc.Store.Ranges.{RangeStore}
use niova_mdsvc.Handlers.{Env, HandlerError}
use niova_mdsvc.Handlers.Mount.{or_failed, named_id, resolve}

pub or_failed-eq-ok :
    (r : RangeRead) {kvs : List (String × String)} → or_failed r ≡ ok kvs → r ≡ found kvs
unfolding or_failed
or_failed-eq-ok (found kvs) h = cc
or_failed-eq-ok key_not_found h = cc
or_failed-eq-ok range_read_failure h = cc

-- A key that is not one of a name, with a piece before it.
abbrev Other : String × String → Type 0
Other kv = length (key_parts kv.0) ≢ 2

-- The value of the last key that has two pieces, or else the one given.
abbrev pub Latest : String → String → List (String × String) → Type 0
Latest old id kvs =
    ((id ≡ old) × All Other kvs)
    ⊎ ((before after : List (String × String)) × (k : String) × (kvs ≡ before ++ ((k, id) ∷ after))
        × (length (key_parts k) ≡ 2)
        × All Other after)

named_id-Latest : (old : String) (kvs : List (String × String)) → Latest old (named_id old kvs) kvs
unfolding named_id
named_id-Latest old [] = inl (refl, tt)
named_id-Latest old ((k, v) ∷ kvs) = elim (Bool-cases (length (key_parts k) == 2)) [
  | inl two ↦ rw (two, named_id) (found_here (ground (arith, two)) (named_id-Latest v kvs))
  | inr other ↦
      rw (other, named_id)
        (passed (λ e. absurd (ground (arith, other, e))) (named_id-Latest old kvs))
]
  where
    found_here :
        length (key_parts k) ≡ 2
        → Latest v (named_id v kvs) kvs
        → Latest old (named_id v kvs) ((k, v) ∷ kvs)
    found_here two (inl (same, all)) = inr ([], kvs, k, ap (λ x. (k, x) ∷ kvs) (sym same), two, all)
    found_here two (inr (before, after, j, split, is_two, all)) =
        inr ((k, v) ∷ before, after, j, ap (λ xs. (k, v) ∷ xs) split, is_two, all)

    passed :
        length (key_parts k) ≢ 2
        → Latest old (named_id old kvs) kvs
        → Latest old (named_id old kvs) ((k, v) ∷ kvs)
    passed other (inl (same, all)) = inl (same, (other, all))
    passed other (inr (before, after, j, split, is_two, all)) =
        inr ((k, v) ∷ before, after, j, ap (λ xs. (k, v) ∷ xs) split, is_two, all)

module _ (rs : RangeStore) (env : Env) (cfg : Config) where
  -- The vdev that a request names: by its ID, or by a name, whose ID is the value of the last key of two
  -- pieces in the range read with the prefix `vname/<name>`, and the name itself if there is none.
  abbrev pub Names : String → rs.ds.State → String → Type 0
  Names req_id s id =
      ((env.is_uuid req_id ≡ true) × (id ≡ req_id))
      ⊎ ((env.is_uuid req_id ≡ false)
          × ((kvs : List (String × String)) × (rs.range_read s ("vname" / req_id) ≡ found kvs)
              × Latest req_id id kvs))

  pub resolve-Names :
      (req_id : String) (s : rs.ds.State) (id : String)
      → resolve rs env true (some cfg) req_id s ≡ ok id
      → Names req_id s id
  unfolding resolve get_conf_key
  resolve-Names req_id s id h = elim (Bool-cases (env.is_uuid req_id)) [
    | inl u ↦ inl (u, ok_eq _ h (rw (u, resolve) refl))
    | inr u ↦
        let (kvs, rest, read) =
          first_call last_named (or_failed (rs.range_read s ("vname" / req_id))) id
            (rw (u, resolve) at h) in
        inr (
          u,
          (
            kvs,
            or_failed-eq-ok _ read,
            subst (λ i. Latest req_id i kvs) (ok_eq (last_named kvs) refl rest)
                (named_id-Latest req_id kvs),
          ),
        )
  ]
    where
      last_named : List (String × String) → Outcome HandlerError String
      last_named kvs = ok (named_id req_id kvs)
