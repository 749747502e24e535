-- ===== src/Handlers/Create.antt =====
-- Creating a vdev: `APCreateVdev` of controlplane/ctlplanefuncs/server/srvctlplanefuncs.go. The offset that
-- `rand.Intn` gives is a parameter. The search for entities is on the fuel of the allocation.
use niova_mdsvc.Prelude.{
  ℕ, String, not, ◌&&◌, none, some, List, [], ◌∷◌, ◌++◌, Outcome, ok, err, panic, running, ◌>>=◌,
  str_eq, if◌then◌else◌, add64, itoa,
}
use niova_mdsvc.Prelude.Numbers.{parse_int, Parsed, number, bad_syntax, out_of_range}
use niova_mdsvc.BTree.{BTree}
use niova_mdsvc.CpLib.{VdevConfig, VdevReq}
use niova_mdsvc.CpLib.Blocks.{init_chunk_cnt, total_redundancy_blocks_per_chunk}
use niova_mdsvc.Commit.{CommitChg, change, ◌/◌, get_conf_key, vdev_key}
use niova_mdsvc.Hierarchy.{Heap, Hierarchy}
use niova_mdsvc.Hierarchy.Pick.{AllocEntry, alloc_key}
use niova_mdsvc.Alloc.Levels.{alloc_nisds}
use niova_mdsvc.Alloc.Apply.{alloc_changes, apply_nisd_alloc}
use niova_mdsvc.Prepare.{PrepareError, map_error, if_set}
use niova_mdsvc.Store.{DataStore, StoreError, apply_kv}
use niova_mdsvc.Handlers.{
  HandlerError, not_applied, not_allocated, forwarded, name_taken, pfs_not_found, offset_not_read,
  bad_offset,
}
use niova_mdsvc.Handlers.Mount.{vname_key}

-- What the write-prepare handler left: an error response, or its changes and the ID of its response.
pub data Prepared : Type 0 where
  refused : PrepareError → Prepared
  prepared : List CommitChg → String → Prepared

abbrev pub pfs_key : String
pfs_key = "pfs"

unfoldable pub offset_key : String → String
offset_key pfs_id = pfs_key / pfs_id / "offset"

unfoldable pub forward : Prepared → Outcome HandlerError (List CommitChg × String)
forward (refused e) = err (forwarded e)
forward (prepared cs id) = ok (cs, id)

unfoldable pub number_or_bad : Parsed → Outcome HandlerError ℕ
number_or_bad (number n) = ok n
number_or_bad bad_syntax = err bad_offset
number_or_bad (out_of_range n) = err bad_offset

-- The changes for a PFS that the vdev names.
unfoldable pub pfs_changes : VdevConfig → List CommitChg
pfs_changes v =
    change (get_conf_key vdev_key v.id / "cfg" / "pfs") v.pfs_id
    ∷ change (pfs_key / v.pfs_id / "v" / v.id) ""
    ∷ []

-- The offset that the PFS has for the next vdev.
unfoldable pub offset_changes : VdevConfig → ℕ → List CommitChg
unfolding if_set offset_key
offset_changes v offset =
    if_set v.pfs_id (
      change (offset_key v.pfs_id) (itoa (add64 offset (total_redundancy_blocks_per_chunk v))) ∷ [])

module _ (ds : DataStore) where
  -- The test for another vdev of that name.
  unfoldable pub check_unused_name : String → ds.State → Outcome HandlerError (Unit {0})
  check_unused_name name s = if str_eq name "" then ok tt else elim (ds.read (vname_key / name) s) [
    | none ↦ ok tt
    | some id ↦ if str_eq id "" then ok tt else err (name_taken id)
  ]

  -- The ID of a PFS that is named, and the changes that the write-prepare handler left out.
  unfoldable pub resolve_pfs :
      VdevConfig → ds.State → Outcome HandlerError (VdevConfig × List CommitChg)
  unfolding pfs_changes
  resolve_pfs v s =
      if not (str_eq v.pfs_name "") && str_eq v.pfs_id ""
      then elim (ds.read (get_conf_key pfs_key v.pfs_name) s) [
        | none ↦ err (pfs_not_found v.pfs_name)
        | some id ↦ let w : VdevConfig = record v { pfs_id = id } in ok (w, pfs_changes w)
      ]
      else ok (v, [])

  unfoldable pub vdev_offset : ℕ → VdevConfig → ds.State → Outcome HandlerError ℕ
  unfolding number_or_bad offset_key
  vdev_offset random v s =
      if str_eq v.pfs_id "" then ok random else elim (ds.read (offset_key v.pfs_id) s) [
        | none ↦ err offset_not_read
        | some res ↦ number_or_bad (parse_int res)
      ]

module _ (bt : BTree) where
  -- The vdev's ID, its allocation and the transaction up to `commitAllocChgs`.
  abbrev pub Plan : Type 0
  Plan = String × List AllocEntry × List CommitChg

  module _ (ds : DataStore) (fuel random : ℕ) (h : Heap) (hr : Hierarchy bt) where
    unfoldable pub create_plan : VdevReq → Prepared → ds.State → Outcome HandlerError Plan
    unfolding check_unused_name forward resolve_pfs vdev_offset offset_changes
    create_plan req left s = do
      unused ← check_unused_name ds req.vdev.name s
      (cs, id) ← forward left
      (v, more) ← resolve_pfs ds (init_chunk_cnt (record req.vdev { id = id })) s
      offset ← vdev_offset ds random v s
      (m, txn) ← map_error not_allocated (
          alloc_nisds bt h hr (record req { vdev = v }) offset fuel (bt.new AllocEntry alloc_key)
            (cs ++ more))
      ok (id, bt.items m, txn ++ offset_changes v offset)

    -- `applyNISDAlloc` behind the writes of `commitAllocChgs`.
    unfoldable pub after_commit :
        String
        → List AllocEntry
        → Outcome StoreError (Unit {0}) × ds.State
        → Outcome HandlerError String × ds.State × Heap × Hierarchy bt
    unfolding apply_nisd_alloc
    after_commit id es (ok u, s) = elim (apply_nisd_alloc bt h hr es) [
      | ok (h', hr') ↦ (ok id, s, h', hr')
      | err e ↦ (err (not_allocated e), s, h, hr)
      | panic ↦ (panic, s, h, hr)
      | running ↦ (running, s, h, hr)
    ]
    after_commit id es (err e, s) = (err (not_applied e), s, h, hr)
    after_commit id es (panic, s) = (panic, s, h, hr)
    after_commit id es (running, s) = (running, s, h, hr)

    unfoldable pub after_create_plan :
        ds.State
        → Outcome HandlerError Plan
        → Outcome HandlerError String × ds.State × Heap × Hierarchy bt
    unfolding after_commit alloc_changes
    after_create_plan s (ok (id, es, txn)) =
        after_commit id es (apply_kv ds (txn ++ alloc_changes h es) s)
    after_create_plan s (err e) = (err e, s, h, hr)
    after_create_plan s panic = (panic, s, h, hr)
    after_create_plan s running = (running, s, h, hr)

    -- `APCreateVdev`
    unfoldable pub ap_create_vdev :
        VdevReq → Prepared → ds.State → Outcome HandlerError String × ds.State × Heap × Hierarchy bt
    unfolding create_plan after_create_plan
    ap_create_vdev req left s = after_create_plan s (create_plan req left s)
