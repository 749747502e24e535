-- ===== src/Handlers/Gathered.antt =====
-- The loops of `APDeleteVdev` in controlplane/ctlplanefuncs/server/srvctlplanefuncs.go over the pairs and the
-- pages of a vdev.
use mathlib.Core.Path.{subst, fun_ext}
use mathlib.Core.List.{append-nil, append_assoc}
use niova_mdsvc.Prelude.{
  ℕ, suc, ◌+◌, String, ◌≡◌, refl, sym, ap, ◌∙◌, true, false, ◌&&◌, inl, inr, List, [], ◌∷◌, ◌++◌,
  Outcome, ok, err, panic, running, ◌>>=◌, first_call, ok_eq, arith, str_eq, str_eq→eq,
  if◌then◌else◌, Bool-cases,
}
use niova_mdsvc.Commit.{◌/◌, nisd_key}
use niova_mdsvc.Authorizer.{lookup}
use niova_mdsvc.Store.Ranges.{RangeStore}
use niova_mdsvc.Handlers.{HandlerError}
use niova_mdsvc.Handlers.Delete.{
  Refunds, Deletion, is_block, credit, with_nisd, noted, freed, delete_pair, delete_pairs,
}
use niova_mdsvc.Handlers.Refunds.{
  blocks, refunded, pair_keys, keys_of, one_more, or_known, refunded-suc, lookup-credit, Distinct,
  Distinct-credit, stored_nisd, Has, with_nisd-Has,
}

pub err≢ok :
    {A : Type 0} {e : HandlerError} {a : A} → ◌≡◌ {A = Outcome HandlerError A} (err e) (ok a) → ⊥
err≢ok h = cc

pub >>=-ok : {A : Type 0} (r : Outcome HandlerError A) → r >>= (λ a. ok a) ≡ r
>>=-ok (ok a) = refl
>>=-ok (err e) = refl
>>=-ok panic = refl
>>=-ok running = refl

>>=_assoc :
    {A B C : Type 0} (r : Outcome HandlerError A) (f : A → Outcome HandlerError B)
    (g : B → Outcome HandlerError C)
    → (r >>= f) >>= g ≡ r >>= (λ a. f a >>= g)
>>=_assoc (ok a) f g = refl
>>=_assoc (err e) f g = refl
>>=_assoc panic f g = refl
>>=_assoc running f g = refl

keys_of-append :
    (id : String) (xs ys : List (String × String))
    → keys_of id (xs ++ ys) ≡ keys_of id xs ++ keys_of id ys
keys_of-append id [] ys = refl
keys_of-append id ((k, v) ∷ xs) ys =
    ap (λ t. pair_keys id k v ++ t) (keys_of-append id xs ys)
    ∙ sym (append_assoc (pair_keys id k v) _ _)

blocks-append :
    (j : String) (xs ys : List (String × String)) → blocks j (xs ++ ys) ≡ blocks j xs + blocks j ys
unfolding blocks
blocks-append j [] ys = omega arith
blocks-append j ((k, v) ∷ xs) ys = ground (arith, blocks-append j xs ys)

blocks-one : (j k v : String) → blocks j ((k, v) ∷ []) ≡ (if is_block k && str_eq v j then 1 else 0)
unfolding blocks
blocks-one j k v = ground arith

blocks-none : (j k v : String) → is_block k ≡ false → blocks j ((k, v) ∷ []) ≡ 0
blocks-none j k v e = blocks-one j k v ∙ rw e refl

module _ (rs : RangeStore) (s : rs.ds.State) (id : String) where
  -- What the pairs `kvs` add to the variables of the loop.
  pub record Gathers (kvs : List (String × String)) (d d' : Deletion) : Type 0 where
    pub keys : d'.deletes ≡ d.deletes ++ keys_of id kvs
    pub distinct : Distinct d.refunds → Distinct d'.refunds
    pub refunds :
        (c : String → ℕ)
        → ((j : String) → lookup j d.refunds ≡ refunded (c j) (stored_nisd rs s j))
        → (j : String) → lookup j d'.refunds ≡ refunded (c j + blocks j kvs) (stored_nisd rs s j)

  Gathers-nil : (d : Deletion) → Gathers [] d d
  unfolding blocks
  Gathers-nil d = record {
    keys = sym (append-nil d.deletes);
    distinct = λ x. x;
    refunds = λ c h j. h j ∙ ap (λ n. refunded n (stored_nisd rs s j)) (omega arith);
  }

  pub Gathers-append :
      (xs ys : List (String × String)) (d e f : Deletion)
      → Gathers xs d e
      → Gathers ys e f
      → Gathers (xs ++ ys) d f
  Gathers-append xs ys d e f g h = record {
    keys =
        h.keys
        ∙ ap (λ t. t ++ keys_of id ys) g.keys
        ∙ append_assoc d.deletes (keys_of id xs) (keys_of id ys)
        ∙ ap (λ t. d.deletes ++ t) (sym (keys_of-append id xs ys));
    distinct = λ x. h.distinct (g.distinct x);
    refunds = λ c k j.
        h.refunds (λ i. c i + blocks i xs) (g.refunds c k) j
        ∙ ap (λ n. refunded n (stored_nisd rs s j)) (omega (arith, blocks-append j xs ys));
  }

  -- One block more on the NISD `v`.
  credited :
      (v j : String) (m m' : Refunds) (n : ℕ)
      → Has rs s v m m' (stored_nisd rs s v)
      → lookup j m ≡ refunded n (stored_nisd rs s j)
      → lookup j (credit v m') ≡ refunded (n + (if str_eq v j then 1 else 0)) (stored_nisd rs s j)
  credited v j m m' n h e = elim (Bool-cases (str_eq v j)) [
    | inl t ↦
        let same : or_known (lookup j m) (stored_nisd rs s v)
            ≡ or_known (refunded n (stored_nisd rs s j)) (stored_nisd rs s j) =
          ap (λ o. or_known o (stored_nisd rs s v)) e
          ∙ ap (λ i. or_known (refunded n (stored_nisd rs s j)) (stored_nisd rs s i))
              (str_eq→eq v j t) in
        let more : n + (if str_eq v j then 1 else 0) ≡ suc n = ground (arith, t) in
        rw more (
          lookup-credit v j m'
          ∙ rw t (ap one_more (h.same j ∙ rw t same) ∙ sym (refunded-suc n (stored_nisd rs s j))))
    | inr t ↦
        let more : n + (if str_eq v j then 1 else 0) ≡ n = ground (arith, t) in
        rw more (lookup-credit v j m' ∙ rw t (h.same j ∙ rw t e))
  ]

  freed-Gathers :
      (k v : String) (d : Deletion) (m : Refunds)
      → is_block k ≡ true
      → Has rs s v d.refunds m (stored_nisd rs s v)
      → Gathers ((k, v) ∷ []) d (freed id v m (noted k v d))
  unfolding freed noted
  freed-Gathers k v d m e h = record {
    keys = rw e (append_assoc d.deletes (k ∷ []) ((nisd_key / v / id) ∷ []));
    distinct = λ x. Distinct-credit v m (h.distinct x);
    refunds = λ c r j.
        credited v j d.refunds m (c j) h (r j)
        ∙ ap (λ n. refunded (c j + n) (stored_nisd rs s j)) (sym (blocks-one j k v ∙ rw e refl));
  }

  noted-Gathers :
      (k v : String) (d : Deletion) → is_block k ≡ false → Gathers ((k, v) ∷ []) d (noted k v d)
  unfolding noted
  noted-Gathers k v d e = record {
    keys = rw e refl;
    distinct = λ x. x;
    refunds = λ c r j.
        let none_more : c j + blocks j ((k, v) ∷ []) ≡ c j = omega (arith, blocks-none j k v e) in
        rw none_more (r j);
  }

  delete_pair-Gathers :
      (k v : String) (d d' : Deletion)
      → delete_pair rs s id k v d ≡ ok d'
      → Gathers ((k, v) ∷ []) d d'
  unfolding delete_pair
  delete_pair-Gathers k v d d' h = elim (Bool-cases (is_block k)) [
    | inl e ↦
        let (m, made, got) =
          first_call (λ m. ok (freed id v m (noted k v d))) (with_nisd rs s v d.refunds) d'
            (sym (rw (e, delete_pair) refl) ∙ h) in
        subst (Gathers ((k, v) ∷ []) d) (ok_eq (ok (freed id v m (noted k v d))) refl made)
          (freed-Gathers k v d m e (with_nisd-Has rs s v d.refunds got))
    | inr e ↦
        subst (Gathers ((k, v) ∷ []) d)
          (ok_eq (delete_pair rs s id k v d) (rw (e, delete_pair) refl) h) (noted-Gathers k v d e)
  ]

  pub delete_pairs-Gathers :
      (kvs : List (String × String)) (d d' : Deletion)
      → delete_pairs rs s id kvs d ≡ ok d'
      → Gathers kvs d d'
  unfolding delete_pairs
  delete_pairs-Gathers [] d d' h =
      subst (Gathers [] d) (ok_eq (delete_pairs rs s id [] d) refl h) (Gathers-nil d)
  delete_pairs-Gathers ((k, v) ∷ kvs) d d' h =
      let (e, rest, first) =
        first_call (delete_pairs rs s id kvs) (delete_pair rs s id k v d) d' h in
      Gathers-append ((k, v) ∷ []) kvs d e d' (delete_pair-Gathers k v d e first)
        (delete_pairs-Gathers kvs e d' rest)

  pub delete_pairs-append :
      (xs ys : List (String × String)) (d : Deletion)
      → delete_pairs rs s id (xs ++ ys) d ≡ delete_pairs rs s id xs d >>= delete_pairs rs s id ys
  unfolding delete_pairs
  delete_pairs-append [] ys d = refl
  delete_pairs-append ((k, v) ∷ xs) ys d =
      ap (λ f. delete_pair rs s id k v d >>= f) (fun_ext (delete_pairs-append xs ys))
      ∙ sym (
          >>=_assoc (delete_pair rs s id k v d) (delete_pairs rs s id xs) (delete_pairs rs s id ys))
