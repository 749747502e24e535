-- ===== src/Handlers/Delete.antt =====
-- Deleting a vdev: `APDeleteVdev` of controlplane/ctlplanefuncs/server/srvctlplanefuncs.go. A range read gives
-- a page of pairs and where to read on; the loop over the pages is on fuel. The loops over Go's maps are over
-- lists.
use niova_mdsvc.Prelude.{
  ℕ, zero, suc, String, Bool, true, false, ◌&&◌, ◌||◌, Option, none, some, List, [], ◌∷◌, ◌++◌, map,
  Outcome, ok, err, panic, running, ◌>>=◌, get_elem?, str_eq, if◌then◌else◌, add64, itoa,
}
use niova_mdsvc.Commit.{
  CommitChg, Op, change, ◌/◌, get_conf_key, vdev_key, nisd_key, nisd_cfg_key, avail_space,
}
use niova_mdsvc.BTree.{BTree}
use niova_mdsvc.CpLib.{Nisd, chunk_size, pdu_idx}
use niova_mdsvc.Authorizer.{Config, lookup}
use niova_mdsvc.Session.{TokenClaims, validate_and_authorize_rbac}
use niova_mdsvc.Prepare.{map_error, vdev_owner_key}
use niova_mdsvc.Store.{StoreError, apply_kv, delete_kv}
use niova_mdsvc.Store.Ranges.{RangeStore, ends, contains}
use niova_mdsvc.Parser.{parse_entities}
use niova_mdsvc.Parser.Storage.{nisd_parser}
use niova_mdsvc.Hierarchy.{Heap, write, Hierarchy}
use niova_mdsvc.Hierarchy.Pick.{get_nisd_by_pdu_id}
use niova_mdsvc.Handlers.{
  Env, HandlerError, auth, invalid_request, range_read_failed, not_applied, not_refunded,
}
use niova_mdsvc.Handlers.Mount.{or_failed, require}

-- `RangeReadResult`
pub record Page : Type 0 where
  pub pairs : List (String × String)
  pub last_key : String
  pub seq_num : ℕ

abbrev pub Refunds : Type 0
Refunds = List (String × Nisd)

-- The variables of the loop.
pub record Deletion : Type 0 where
  pub vdev_name : String
  pub vdev_pfs_id : String
  pub deletes : List String
  pub refunds : Refunds

abbrev pub nothing_deleted : Deletion
nothing_deleted = record { vdev_name = ""; vdev_pfs_id = ""; deletes = []; refunds = [] }

unfoldable pub is_block : String → Bool
is_block k = contains "/c/" k && (contains "/D." k || contains "/P." k)

-- `nisd.AvailableSize += CHUNK_SIZE` where the map has the NISD.
unfoldable pub credit : String → Refunds → Refunds
credit id [] = []
credit id ((j, n) ∷ m) =
    if str_eq j id
    then (j, record n { available_size = add64 n.available_size chunk_size }) ∷ m
    else (j, n) ∷ credit id m

unfoldable pub add_first : List Nisd → String → Refunds → Refunds
add_first [] id m = m
add_first (n ∷ ns) id m = (id, n) ∷ m

-- The name, the PFS and the key of one pair.
unfoldable pub noted : String → String → Deletion → Deletion
noted k v d = record d {
  vdev_name = if ends "/cfg/nm" k then v else d.vdev_name;
  vdev_pfs_id = if ends "/cfg/pfs" k then v else d.vdev_pfs_id;
  deletes = d.deletes ++ (k ∷ []);
}

-- A block of the vdev `id` on the NISD `v`.
unfoldable pub freed : String → String → Refunds → Deletion → Deletion
unfolding credit
freed id v m d = record d {
  deletes = d.deletes ++ ((nisd_key / v / id) ∷ []);
  refunds = credit v m;
}

unfoldable pub refund_changes : Refunds → List CommitChg
refund_changes m =
    map (λ (id, n). change (get_conf_key nisd_cfg_key id / avail_space) (itoa n.available_size)) m

abbrev pub deletion : String → CommitChg
deletion k = record { key = k; value = ""; op = Op.apply }

-- The keys that are deleted: those of the loop, the caller's, and the reverse keys of the name and the PFS.
unfoldable pub deleted_keys : TokenClaims → String → Deletion → List String
deleted_keys tc id d =
    d.deletes
    ++ (vdev_owner_key tc.user_id id
        ∷ ((if str_eq d.vdev_name "" then [] else ("vname" / d.vdev_name) ∷ [])
            ++ (if str_eq d.vdev_pfs_id "" then [] else ("pfs" / d.vdev_pfs_id / "v" / id) ∷ [])))

module _ (rs : RangeStore) (s : rs.ds.State) where
  -- The NISD of a block, read into the map if it is not there.
  unfoldable pub with_nisd : String → Refunds → Outcome HandlerError Refunds
  unfolding or_failed add_first
  with_nisd id m = elim (lookup id m) [
    | some n ↦ ok m
    | none ↦ (do
      kvs ← or_failed (rs.range_read s (get_conf_key nisd_cfg_key id))
      ok (add_first (parse_entities nisd_parser 1 kvs) id m))
  ]

  -- One pair of the vdev `id`.
  unfoldable pub delete_pair : String → String → String → Deletion → Outcome HandlerError Deletion
  unfolding is_block with_nisd noted freed
  delete_pair id k v d =
      if is_block k
      then (do m ← with_nisd v d.refunds; ok (freed id v m (noted k v d)))
      else ok (noted k v d)

  unfoldable pub delete_pairs :
      String → List (String × String) → Deletion → Outcome HandlerError Deletion
  unfolding delete_pair
  delete_pairs id [] d = ok d
  delete_pairs id ((k, v) ∷ kvs) d = delete_pair id k v d >>= delete_pairs id kvs

  module _ (read_page : String → ℕ → Option Page) where
    -- The loop over the pages of the vdev, from a key and a sequence number on.
    unfoldable pub delete_pages : ℕ → String → String → ℕ → Deletion → Outcome HandlerError Deletion
    delete_pages zero id key seq d = running
    delete_pages (suc fuel) id key seq d = elim (read_page key seq) [
      | none ↦ err range_read_failed
      | some p ↦ delete_pairs id p.pairs d >>= λ d'. elim (str_eq p.last_key "") [
        | true ↦ ok d'
        | false ↦ delete_pages fuel id p.last_key p.seq_num d'
      ]
    ]

module _ (bt : BTree) where
  -- The last loop: the space of the NISDs in the hierarchy.
  unfoldable pub refund_hierarchy :
      Hierarchy bt → Refunds → Heap → Outcome HandlerError (Unit {0}) × Heap
  refund_hierarchy hr [] h = (ok tt, h)
  refund_hierarchy hr ((id, n) ∷ m) h = elim (get_elem? n.failure_domain pdu_idx) [
    | none ↦ (panic, h)
    | some pdu ↦ elim (get_nisd_by_pdu_id bt h hr pdu id) [
      | err e ↦ (err (not_refunded e), h)
      | panic ↦ (panic, h)
      | running ↦ (running, h)
      | ok p ↦
          refund_hierarchy hr m (write h p (record (h p) { available_size = n.available_size }))
    ]
  ]

  -- Behind `deleteKV`.
  unfoldable pub after_deletes :
      {S : Type 0}
      → Hierarchy bt
      → Refunds
      → Heap
      → Outcome StoreError (Unit {0}) × S
      → Outcome HandlerError (Unit {0}) × S × Heap
  unfolding refund_hierarchy
  after_deletes hr m h (ok u, s) = let (r, h') = refund_hierarchy hr m h in (r, s, h')
  after_deletes hr m h (err e, s) = (err (not_applied e), s, h)
  after_deletes hr m h (panic, s) = (panic, s, h)
  after_deletes hr m h (running, s) = (running, s, h)

  -- Behind `applyKV`.
  unfoldable pub after_writes :
      (rs : RangeStore)
      → List String
      → Hierarchy bt
      → Refunds
      → Heap
      → Outcome StoreError (Unit {0}) × rs.ds.State
      → Outcome HandlerError (Unit {0}) × rs.ds.State × Heap
  unfolding after_deletes
  after_writes rs ks hr m h (ok u, s) = after_deletes hr m h (delete_kv rs.ds (map deletion ks) s)
  after_writes rs ks hr m h (err e, s) = (err (not_applied e), s, h)
  after_writes rs ks hr m h (panic, s) = (panic, s, h)
  after_writes rs ks hr m h (running, s) = (running, s, h)

  module _ (rs : RangeStore) (env : Env) (enabled : Bool) (authorizer : Option Config)
      (parse_uuid : String → Bool)
      (read_page : rs.ds.State → String → String → ℕ → Option Page) where
    -- Everything before the writes; the prefix of the pages is the vdev's key.
    unfoldable pub delete_plan :
        ℕ → String → String → rs.ds.State → Outcome HandlerError (TokenClaims × Deletion)
    unfolding require delete_pages
    delete_plan fuel token id s = do
      valid ← require (parse_uuid id) invalid_request
      tc ←
          map_error auth
            (validate_and_authorize_rbac env.verify_token enabled authorizer token "APDeleteVdev")
      d ←
          delete_pages rs s (read_page s (get_conf_key vdev_key id)) fuel id
            (get_conf_key vdev_key id) 0 nothing_deleted
      ok (tc, d)

    -- The writes, the deletions and the refund in the hierarchy.
    unfoldable pub carry_out :
        TokenClaims
        → String
        → Deletion
        → Hierarchy bt
        → rs.ds.State
        → Heap
        → Outcome HandlerError (Unit {0}) × rs.ds.State × Heap
    unfolding refund_changes deleted_keys after_writes
    carry_out tc id d hr s h =
        after_writes rs (deleted_keys tc id d) hr d.refunds h
          (apply_kv rs.ds (refund_changes d.refunds) s)

    unfoldable pub after_plan :
        String
        → Hierarchy bt
        → rs.ds.State
        → Heap
        → Outcome HandlerError (TokenClaims × Deletion)
        → Outcome HandlerError (Unit {0}) × rs.ds.State × Heap
    unfolding carry_out
    after_plan id hr s h (ok (tc, d)) = carry_out tc id d hr s h
    after_plan id hr s h (err e) = (err e, s, h)
    after_plan id hr s h panic = (panic, s, h)
    after_plan id hr s h running = (running, s, h)

    -- `APDeleteVdev`
    unfoldable pub ap_delete_vdev :
        ℕ
        → String
        → String
        → Hierarchy bt
        → rs.ds.State
        → Heap
        → Outcome HandlerError (Unit {0}) × rs.ds.State × Heap
    unfolding delete_plan after_plan
    ap_delete_vdev fuel token id hr s h = after_plan id hr s h (delete_plan fuel token id s)
