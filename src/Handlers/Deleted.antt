-- ===== src/Handlers/Deleted.antt =====
-- What `APDeleteVdev` of controlplane/ctlplanefuncs/server/srvctlplanefuncs.go leaves in the store.
use mathlib.Core.Path.{subst}
use niova_mdsvc.Prelude.{
  ℕ, String, ◌≡◌, refl, sym, ap, ◌∙◌, Bool, true, false, Option, none, some, List, [], ◌∷◌, map,
  All, Outcome, ok, err, panic, running, ◌>>=◌, first_call, ok_eq, arith, elem, eq_refl,
  if◌then◌else◌, ◌+◌,
}
use niova_mdsvc.Commit.{get_conf_key, vdev_key}
use niova_mdsvc.BTree.{BTree}
use niova_mdsvc.Authorizer.{Config, check_rbac}
use niova_mdsvc.Session.{TokenClaims, validate_token, validate_and_authorize_rbac}
use niova_mdsvc.Session.Claims.{validate_and_authorize_rbac-eq-ok}
use niova_mdsvc.Prepare.{map_error, vdev_owner_key}
use niova_mdsvc.Prepare.Accepted.{map_error-eq-ok}
use niova_mdsvc.Store.{apply_kv, delete_kv, StoreError}
use niova_mdsvc.Store.Applied.{last, all_applied, all_deleted}
use niova_mdsvc.Store.Ranges.{RangeStore, begins}
use niova_mdsvc.Hierarchy.{Heap, Hierarchy}
use niova_mdsvc.Handlers.{Env, HandlerError, auth, invalid_request}
use niova_mdsvc.Handlers.Mount.{require}
use niova_mdsvc.Handlers.Mounted.{require-eq-ok}
use niova_mdsvc.Handlers.Delete.{
  Page, Refunds, Deletion, nothing_deleted, refund_changes, deletion, deleted_keys, delete_pages,
  delete_plan, carry_out, ap_delete_vdev, after_deletes, after_writes, after_plan,
}
use niova_mdsvc.Handlers.Refunds.{blocks, refunded, keys_of, stored_nisd}
use niova_mdsvc.Handlers.Gathered.{Gathers}
use niova_mdsvc.Handlers.Paged.{Pages, delete_pages-Gathers}
use niova_mdsvc.Handlers.DeletedKeys.{
  as_key, or_size, last-refund_changes, elem-begins, elem-append_left, elem-append_right,
  elem-keys_of, All-append_pairs, All-imp, map-deletion, keys_of-begins, deleted_keys-begins,
  as_key-begins,
}

abbrev Result : Type 0 → Type 0
Result S = Outcome HandlerError (Unit {0}) × S × Heap

no_answer :
    {S : Type 0} {r : Outcome HandlerError (Unit {0})} {s s' : S} {h h' : Heap}
    → ◌≡◌ {A = Result S} (r, s, h) (ok tt, s', h')
    → r ≡ ok tt
no_answer e = ap (λ (p : Result _). p.0) e

after_deletes-eq-ok :
    {S : Type 0} (bt : BTree) (hr : Hierarchy bt) (m : Refunds) (h : Heap)
    (r : Outcome StoreError (Unit {0}) × S) {s' : S} {h' : Heap}
    → after_deletes bt hr m h r ≡ (ok tt, s', h')
    → r ≡ (ok tt, s')
unfolding after_deletes
after_deletes-eq-ok bt hr m h (ok tt, s) e = ap (λ (p : Result _). (ok tt, p.1)) e
after_deletes-eq-ok bt hr m h (err x, s) e = let e' = no_answer e in cc
after_deletes-eq-ok bt hr m h (panic, s) e = let e' = no_answer e in cc
after_deletes-eq-ok bt hr m h (running, s) e = let e' = no_answer e in cc

after_writes-eq-ok :
    (bt : BTree) (rs : RangeStore) (ks : List String) (hr : Hierarchy bt) (m : Refunds) (h : Heap)
    (r : Outcome StoreError (Unit {0}) × rs.ds.State) {s' : rs.ds.State} {h' : Heap}
    → after_writes bt rs ks hr m h r ≡ (ok tt, s', h')
    → (t : rs.ds.State) × (r ≡ (ok tt, t)) × (delete_kv rs.ds (map deletion ks) t ≡ (ok tt, s'))
unfolding after_writes
after_writes-eq-ok bt rs ks hr m h (ok tt, s) e =
    (s, refl, after_deletes-eq-ok bt hr m h (delete_kv rs.ds (map deletion ks) s) e)
after_writes-eq-ok bt rs ks hr m h (err x, s) e = let e' = no_answer e in cc
after_writes-eq-ok bt rs ks hr m h (panic, s) e = let e' = no_answer e in cc
after_writes-eq-ok bt rs ks hr m h (running, s) e = let e' = no_answer e in cc

module _ (bt : BTree) (rs : RangeStore) (env : Env) (cfg : Config) (parse_uuid : String → Bool)
    (read_page : rs.ds.State → String → String → ℕ → Option Page) where
  after_plan-eq-ok :
      (id : String) (hr : Hierarchy bt) (s s' : rs.ds.State) (h h' : Heap)
      (plan : Outcome HandlerError (TokenClaims × Deletion))
      → after_plan bt rs env true (some cfg) parse_uuid read_page id hr s h plan ≡ (ok tt, s', h')
      → (tc : TokenClaims) × (d : Deletion) × (plan ≡ ok (tc, d))
        × ((k : String)
            → rs.ds.read k s' ≡ (
                if elem k (deleted_keys tc id d)
                then none
                else last k (refund_changes d.refunds) (rs.ds.read k s)))
  unfolding after_plan carry_out
  after_plan-eq-ok id hr s s' h h' (ok (tc, d)) e =
      let ks = deleted_keys tc id d in
      let (t, written, deleted) =
        after_writes-eq-ok bt rs ks hr d.refunds h (apply_kv rs.ds (refund_changes d.refunds) s)
          e in
      (
        tc,
        d,
        refl,
        λ k.
            all_deleted rs.ds (map deletion ks) t s' deleted k
            ∙ ap (λ l. if elem k l then none else rs.ds.read k t) (map-deletion ks)
            ∙ ap (λ v. if elem k ks then none else v)
                (all_applied rs.ds (refund_changes d.refunds) s t written k),
      )
  after_plan-eq-ok id hr s s' h h' (err x) e = let e' = no_answer e in cc
  after_plan-eq-ok id hr s s' h h' panic e = let e' = no_answer e in cc
  after_plan-eq-ok id hr s s' h h' running e = let e' = no_answer e in cc

  delete_plan-eq-ok :
      (fuel : ℕ) (token id : String) (s : rs.ds.State) (tc : TokenClaims) (d : Deletion)
      → delete_plan bt rs env true (some cfg) parse_uuid read_page fuel token id s ≡ ok (tc, d)
      → (parse_uuid id ≡ true)
        × (validate_token env.verify_token true token ≡ ok tc)
        × (check_rbac cfg "APDeleteVdev" (tc.role ∷ []) ≡ true)
        × (kvs : List (String × String)) × Pages rs s id
            (read_page s (get_conf_key vdev_key id))
            (get_conf_key vdev_key id)
            0
            kvs
        × Gathers rs s id kvs nothing_deleted d
  unfolding delete_plan
  delete_plan-eq-ok fuel token id s tc d e =
      let (_, e1, valid) =
        first_call (λ _. after_valid) (require (parse_uuid id) invalid_request) (tc, d) e in
      let (tc', e2, passed) =
        first_call after_auth
          (map_error auth
            (validate_and_authorize_rbac env.verify_token true (some cfg) token "APDeleteVdev"))
          (tc, d) e1 in
      let (d', e3, read) = first_call (with_claims tc') pages (tc, d) e2 in
      let same : (tc', d') ≡ (tc, d) = ok_eq (with_claims tc' d') refl e3 in
      let (known, _, _, allowed) =
        validate_and_authorize_rbac-eq-ok env.verify_token cfg token "APDeleteVdev" tc'
          (map_error-eq-ok auth _ passed) in
      let is_tc : tc' ≡ tc = ap (λ (p : TokenClaims × Deletion). p.0) same in
      let (kvs, all, g) =
        delete_pages-Gathers rs s id (read_page s (get_conf_key vdev_key id)) fuel
          (get_conf_key vdev_key id) 0 nothing_deleted d
          (read ∙ ap (λ (p : TokenClaims × Deletion). ok p.1) same) in
      (
        require-eq-ok (parse_uuid id) invalid_request valid,
        known ∙ ap (λ t. ok t) is_tc,
        subst (λ (t : TokenClaims). check_rbac cfg "APDeleteVdev" (t.role ∷ []) ≡ true) is_tc
            allowed,
        kvs,
        all,
        g,
      )
    where
      pages : Outcome HandlerError Deletion
      pages =
          delete_pages rs s (read_page s (get_conf_key vdev_key id)) fuel id
            (get_conf_key vdev_key id) 0 nothing_deleted

      with_claims : TokenClaims → Deletion → Outcome HandlerError (TokenClaims × Deletion)
      with_claims t x = ok (t, x)

      after_auth : TokenClaims → Outcome HandlerError (TokenClaims × Deletion)
      after_auth t = pages >>= with_claims t

      after_valid : Outcome HandlerError (TokenClaims × Deletion)
      after_valid =
          map_error auth
            (validate_and_authorize_rbac env.verify_token true (some cfg) token "APDeleteVdev")
          >>= after_auth

  module _
      (prefixed : (s : rs.ds.State) (p key : String) (seq : ℕ) (page : Page)
        → read_page s p key seq ≡ some page
        → All (λ (kv : String × String). begins p kv.0 ≡ true) page.pairs) where
    Pages-begins :
        (s : rs.ds.State) (id p : String) {key : String} {seq : ℕ} {kvs : List (String × String)}
        → Pages rs s id (read_page s p) key seq kvs
        → All (λ (kv : String × String). begins p kv.0 ≡ true) kvs
    Pages-begins s id p (Pages.final {key} {seq} {p = page} e t) = prefixed s p key seq page e
    Pages-begins s id p (Pages.next {key} {seq} {p = page} {rest} e t more) =
        All-append_pairs p page.pairs rest (prefixed s p key seq page e) (Pages-begins s id p more)

    -- With authentication enabled and an authorizer, and range reads whose keys have the prefix asked for,
    -- a successful APDeleteVdev has a valid UUID and a valid token whose role CheckRBAC lets pass. No key
    -- of the pages that were read under the vdev is left in the store, nor the ownership key of the
    -- caller; and the stored available size of each NISD is the one that was read plus CHUNK_SIZE for
    -- every block of the vdev on it, and for a NISD without a block, or none that could be read, what it
    -- was.
    pub ap_delete_vdev-Deleted :
        (fuel : ℕ) (token id : String) (hr : Hierarchy bt) (s s' : rs.ds.State) (h h' : Heap)
        → ap_delete_vdev bt rs env true (some cfg) parse_uuid read_page fuel token id hr s h
          ≡ (ok tt, s', h')
        → (tc : TokenClaims) × (kvs : List (String × String)) × (parse_uuid id ≡ true)
          × (validate_token env.verify_token true token ≡ ok tc)
          × (check_rbac cfg "APDeleteVdev" (tc.role ∷ []) ≡ true)
          × Pages rs s id (read_page s (get_conf_key vdev_key id)) (get_conf_key vdev_key id) 0 kvs
          × All (λ (kv : String × String). rs.ds.read kv.0 s' ≡ none) kvs
          × (rs.ds.read (vdev_owner_key tc.user_id id) s' ≡ none)
          × ((n : String)
              → rs.ds.read (as_key n) s'
                ≡ or_size (refunded (blocks n kvs) (stored_nisd rs s n)) (rs.ds.read (as_key n) s))
    unfolding ap_delete_vdev refunded
    ap_delete_vdev-Deleted fuel token id hr s s' h h' e =
        let (tc, d, planned, values) =
          after_plan-eq-ok id hr s s' h h'
            (delete_plan bt rs env true (some cfg) parse_uuid read_page fuel token id s) e in
        let (valid, known, allowed, kvs, pages, g) =
          delete_plan-eq-ok fuel token id s tc d planned in
        (
          tc,
          kvs,
          valid,
          known,
          allowed,
          pages,
          All-imp (λ kv. elem kv.0 (keys_of id kvs) ≡ true) (λ kv. rs.ds.read kv.0 s' ≡ none) kvs
              (λ kv here.
                gone tc d values kv.0
                  (elem-append_left kv.0 d.deletes _ (ap (elem kv.0) g.keys ∙ here)))
              (elem-keys_of id kvs []),
          gone tc d values (vdev_owner_key tc.user_id id) (
              elem-append_right (vdev_owner_key tc.user_id id) d.deletes _
                (rw (eq_refl (vdev_owner_key tc.user_id id)) refl)),
          λ n.
              let kept : elem (as_key n) (deleted_keys tc id d) ≡ false =
                elem-begins "n_" (as_key n) (deleted_keys tc id d) (as_key-begins n) (
                  deleted_keys-begins tc id d (
                    subst (All (λ k. begins "n_" k ≡ false)) (sym g.keys) (
                      keys_of-begins id kvs
                        (Pages-begins s id (get_conf_key vdev_key id) pages)))) in
              let zero_more : 0 + blocks n kvs ≡ blocks n kvs = omega arith in
              values (as_key n)
              ∙ ap
                  (λ b.
                    if b
                    then none
                    else last (as_key n) (refund_changes d.refunds) (rs.ds.read (as_key n) s))
                  kept
              ∙ last-refund_changes n d.refunds (rs.ds.read (as_key n) s) (g.distinct tt)
              ∙ ap (λ o. or_size o (rs.ds.read (as_key n) s)) (g.refunds (λ j. 0) (λ j. refl) n)
              ∙ ap (λ m. or_size (refunded m (stored_nisd rs s n)) (rs.ds.read (as_key n) s))
                  zero_more,
        )
      where
        gone :
            (tc : TokenClaims) (d : Deletion)
            → ((k : String)
                → rs.ds.read k s' ≡ (
                    if elem k (deleted_keys tc id d)
                    then none
                    else last k (refund_changes d.refunds) (rs.ds.read k s)))
            → (k : String) → elem k (deleted_keys tc id d) ≡ true
            → rs.ds.read k s' ≡ none
        gone tc d values k here =
            values k
            ∙ ap (λ b. if b then none else last k (refund_changes d.refunds) (rs.ds.read k s)) here
