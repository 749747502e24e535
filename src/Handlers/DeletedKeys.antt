-- ===== src/Handlers/DeletedKeys.antt =====
-- The keys that `APDeleteVdev` of controlplane/ctlplanefuncs/server/srvctlplanefuncs.go writes and deletes.
use Prim.Native.String.{◌++◌ as str_append}
use mathlib.Core.Path.{subst}
use mathlib.Core.List.{append_assoc as list_assoc}
use text.Mathlib.TextLemmas.{append_assoc, append_cancel_left, append_cancel_right}
use niova_mdsvc.Prelude.{
  String, ◌≡◌, refl, sym, ap, ◌∙◌, true, false, inl, inr, Option, none, some, List, [], ◌∷◌, ◌++◌,
  map, All, arith, elem, str_eq, eq_refl, eq_iff, str_eq→eq, str_eq-ne, if◌then◌else◌, Bool-cases,
  itoa,
}
use niova_mdsvc.Commit.{CommitChg, ◌/◌, get_conf_key, vdev_key, nisd_cfg_key, avail_space}
use niova_mdsvc.CpLib.{Nisd}
use niova_mdsvc.Authorizer.{lookup}
use niova_mdsvc.Session.{TokenClaims}
use niova_mdsvc.Prepare.{vdev_owner_key}
use niova_mdsvc.Store.Applied.{last}
use niova_mdsvc.Store.Ranges.{begins, begins-append, diverge, begins-diverge, begins-false}
use niova_mdsvc.Handlers.Delete.{
  Refunds, Deletion, is_block, refund_changes, deletion, deleted_keys,
}
use niova_mdsvc.Handlers.Refunds.{pair_keys, keys_of, Distinct}

-- The key of a NISD's available size.
abbrev pub as_key : String → String
as_key id = get_conf_key nisd_cfg_key id / avail_space

pub as_key-eq : (i j : String) → str_eq (as_key i) (as_key j) ≡ str_eq i j
unfolding get_conf_key
as_key-eq i j = elim (Bool-cases (str_eq i j)) [
  | inl e ↦ rw (str_eq→eq i j e) (eq_refl (as_key j) ∙ sym (eq_refl j))
  | inr e ↦ rw e (
      str_eq-ne (as_key i) (as_key j) λ same.
        let equal : i ≡ j =
          append_cancel_left "/" i j
            (append_cancel_left "n_cfg" _ _ (append_cancel_right _ _ "/as" same)) in
        absurd (ground (arith, e, equal, eq_iff i j)))
]

-- The value that the map of refunds gives a key.
abbrev pub or_size : Option Nisd → Option String → Option String
or_size none d = d
or_size (some n) d = some (itoa n.available_size)

pub last-refund_changes :
    (id : String) (m : Refunds) (d : Option String)
    → Distinct m
    → last (as_key id) (refund_changes m) d ≡ or_size (lookup id m) d
unfolding refund_changes
last-refund_changes id [] d h = refl
last-refund_changes id ((j, n) ∷ m) d h = elim (Bool-cases (str_eq j id)) [
  | inl e ↦
      let absent : lookup id m ≡ none = ap (λ k. lookup k m) (sym (str_eq→eq j id e)) ∙ h.0 in
      rw (as_key-eq j id, last) (rw e (last-refund_changes id m _ h.1 ∙ rw absent refl))
  | inr e ↦ rw (as_key-eq j id, last) (rw e (last-refund_changes id m d h.1))
]

-- No key of the list begins with the prefix, so one that does is not in the list.
pub elem-begins :
    (p k : String) (ks : List String)
    → begins p k ≡ true
    → All (λ j. begins p j ≡ false) ks
    → elem k ks ≡ false
elem-begins p k [] b a = refl
elem-begins p k (j ∷ ks) b a = elim (Bool-cases (str_eq j k)) [
  | inl e ↦ absurd (ground (arith, b, a.0, ap (begins p) (str_eq→eq j k e)))
  | inr e ↦ rw e (elem-begins p k ks b a.1)
]

All-append_keys :
    (P : String → Type 0) (xs ys : List String) → All P xs → All P ys → All P (xs ++ ys)
All-append_keys P [] ys a b = b
All-append_keys P (x ∷ xs) ys a b = (a.0, All-append_keys P xs ys a.1 b)

pub elem-append_left :
    (k : String) (xs ys : List String) → elem k xs ≡ true → elem k (xs ++ ys) ≡ true
elem-append_left k [] ys h = cc
elem-append_left k (x ∷ xs) ys h = ground (arith, elem-append_left k xs ys)

pub elem-append_right :
    (k : String) (xs ys : List String) → elem k ys ≡ true → elem k (xs ++ ys) ≡ true
elem-append_right k [] ys h = h
elem-append_right k (x ∷ xs) ys h = ground (arith, elem-append_right k xs ys h)

pub All-append_pairs :
    (p : String) (xs ys : List (String × String))
    → All (λ (kv : String × String). begins p kv.0 ≡ true) xs
    → All (λ (kv : String × String). begins p kv.0 ≡ true) ys
    → All (λ (kv : String × String). begins p kv.0 ≡ true) (xs ++ ys)
All-append_pairs p [] ys a b = b
All-append_pairs p (x ∷ xs) ys a b = (a.0, All-append_pairs p xs ys a.1 b)

-- Every pair's key is among those that are deleted.
pub elem-keys_of :
    (id : String) (kvs : List (String × String)) (more : List String)
    → All (λ (kv : String × String). elem kv.0 (more ++ keys_of id kvs) ≡ true) kvs
elem-keys_of id [] more = tt
elem-keys_of id ((k, v) ∷ kvs) more = (
  elem-append_right k more _
      (elem-append_left k (pair_keys id k v) (keys_of id kvs) (rw (eq_refl k) refl)),
  subst (λ ks. All (λ (kv : String × String). elem kv.0 ks ≡ true) kvs)
      (list_assoc more (pair_keys id k v) (keys_of id kvs))
      (elem-keys_of id kvs (more ++ pair_keys id k v)),
)

pub All-imp :
    {A : Type 0} (P Q : A → Type 0) (xs : List A) → ((a : A) → P a → Q a) → All P xs → All Q xs
All-imp P Q [] f a = tt
All-imp P Q (x ∷ xs) f a = (f x a.0, All-imp P Q xs f a.1)

pub map-deletion : (ks : List String) → map (λ (c : CommitChg). c.key) (map deletion ks) ≡ ks
map-deletion [] = refl
map-deletion (k ∷ ks) = ap (λ t. k ∷ t) (map-deletion ks)

-- No deleted key is that of a NISD.
pub keys_of-begins :
    (id : String) (kvs : List (String × String))
    → All (λ (kv : String × String). begins (get_conf_key vdev_key id) kv.0 ≡ true) kvs
    → All (λ k. begins "n_" k ≡ false) (keys_of id kvs)
unfolding get_conf_key diverge
keys_of-begins id [] a = tt
keys_of-begins id ((k, v) ∷ kvs) a =
    All-append_keys (λ k. begins "n_" k ≡ false) (pair_keys id k v) (keys_of id kvs)
      (
        begins-diverge "n_" "v" (str_append "/" id) k refl a.0,
        elim (Bool-cases (is_block k)) [
          | inl e ↦ rw e (
            ap (begins "n_") (sym (append_assoc "n" "/" (str_append v (str_append "/" id))))
                ∙ begins-false "n_" "n/" (str_append v (str_append "/" id)) refl,
            tt,
          )
          | inr e ↦ rw e tt
        ],
      )
      (keys_of-begins id kvs a.1)

pub deleted_keys-begins :
    (tc : TokenClaims) (id : String) (d : Deletion)
    → All (λ k. begins "n_" k ≡ false) d.deletes
    → All (λ k. begins "n_" k ≡ false) (deleted_keys tc id d)
unfolding deleted_keys vdev_owner_key diverge
deleted_keys-begins tc id d a =
    All-append_keys (λ k. begins "n_" k ≡ false) d.deletes _ a
      (
        begins-false "n_" "/u/" (str_append tc.user_id (str_append "/v/" id)) refl,
        All-append_keys (λ k. begins "n_" k ≡ false)
            (if str_eq d.vdev_name "" then [] else ("vname" / d.vdev_name) ∷ []) _
            (elim (Bool-cases (str_eq d.vdev_name "")) [
              | inl e ↦ rw e tt
              | inr e ↦ rw e (begins-false "n_" "vname" (str_append "/" d.vdev_name) refl, tt)
            ])
            (elim (Bool-cases (str_eq d.vdev_pfs_id "")) [
              | inl e ↦ rw e tt
              | inr e ↦
                  rw e
                    (begins-false "n_" "pfs" (str_append "/" (d.vdev_pfs_id / "v" / id)) refl, tt)
            ]),
      )

pub as_key-begins : (n : String) → begins "n_" (as_key n) ≡ true
unfolding get_conf_key
as_key-begins n =
    ap (begins "n_") (
      append_assoc "n_cfg" (str_append "/" n) "/as"
      ∙ append_assoc "n_" "cfg" (str_append (str_append "/" n) "/as"))
    ∙ begins-append "n_" (str_append "cfg" (str_append (str_append "/" n) "/as"))
