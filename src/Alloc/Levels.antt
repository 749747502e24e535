-- ===== src/Alloc/Levels.antt =====
-- The levels that are tried for a vdev in controlplane/ctlplanefuncs/server/srvctlplanefuncs.go:
-- `allocateNisdPerVdev`, `allocateNisdsAtFailureDomain` and `AllocNISDs`.
use niova_mdsvc.Prelude.{
  ℕ, zero, suc, ◌+◌, ◌-◌, List, [], ◌++◌, Outcome, ok, err, panic, running, ◌>>=◌, ◌==◌,
  if◌then◌else◌,
}
use niova_mdsvc.BTree.{BTree}
use niova_mdsvc.CpLib.{VdevReq, fd_max}
use niova_mdsvc.CpLib.Blocks.{total_redundancy_blocks_per_chunk}
use niova_mdsvc.CpLib.Domains.{fd_any, get_fd_idx}
use niova_mdsvc.Hierarchy.{Heap, Hierarchy, Error, unable_to_allocate_nisds, get_fd_level}
use niova_mdsvc.Hierarchy.Pick.{UsageMap, AllocEntry, alloc_key, NisdMap}
use niova_mdsvc.Commit.{CommitChg}
use niova_mdsvc.Alloc.{allocate_nisd_per_chunk}

module _ (bt : BTree) where
  -- `allocateNisdPerVdev`: chunk after chunk, over one map of device usage.
  pub chunks_from :
      Heap
      → Hierarchy bt
      → VdevReq
      → ℕ
      → ℕ
      → ℕ
      → ℕ
      → ℕ
      → UsageMap
      → NisdMap bt
      → List CommitChg
      → Outcome Error (NisdMap bt × List CommitChg)
  unfolding allocate_nisd_per_chunk
  chunks_from h hr req offset fuel fd zero chunk usage m changes = ok (m, changes)
  chunks_from h hr req offset fuel fd (suc n) chunk usage m changes =
      elim (allocate_nisd_per_chunk bt h hr req chunk offset fuel fd usage m changes) [
        | err e ↦ err e
        | panic ↦ panic
        | running ↦ running
        | ok s ↦ chunks_from h hr req offset fuel fd n (chunk + 1) s.usage s.nisd_map s.changes
      ]

  module _ (h : Heap) (hr : Hierarchy bt) (req : VdevReq) (offset fuel : ℕ) where
    unfoldable pub allocate_nisd_per_vdev :
        ℕ → NisdMap bt → Outcome Error (NisdMap bt × List CommitChg)
    unfolding chunks_from
    allocate_nisd_per_vdev fd m = chunks_from h hr req offset fuel fd req.vdev.chunk_cnt 0 [] m []

    -- `allocateNisdsAtFailureDomain`: the changes are added to those of the transaction.
    pub allocate_nisds_at_failure_domain :
        ℕ → NisdMap bt → List CommitChg → Outcome Error (NisdMap bt × List CommitChg)
    allocate_nisds_at_failure_domain fd m txn = do
      (m', changes) ← allocate_nisd_per_vdev fd m
      ok (m', txn ++ changes)

    -- The levels from `fd` on, with an empty map for each further one.
    pub levels_from :
        ℕ → ℕ → NisdMap bt → List CommitChg → Outcome Error (NisdMap bt × List CommitChg)
    unfolding allocate_nisds_at_failure_domain
    levels_from zero fd m txn = err (unable_to_allocate_nisds req.vdev.id)
    levels_from (suc n) fd m txn = elim (allocate_nisds_at_failure_domain fd m txn) [
      | err e ↦ levels_from n (fd + 1) (bt.new AllocEntry alloc_key) txn
      | panic ↦ panic
      | running ↦ running
      | ok r ↦ ok r
    ]

    -- `AllocNISDs`
    unfoldable pub alloc_nisds :
        NisdMap bt → List CommitChg → Outcome Error (NisdMap bt × List CommitChg)
    unfolding levels_from
    alloc_nisds m txn =
        if req.filter.type == fd_any
        then (do
          start ← get_fd_level bt (total_redundancy_blocks_per_chunk req.vdev) hr
          levels_from (fd_max - start) start m txn)
        else allocate_nisds_at_failure_domain (get_fd_idx req.filter.type) m txn
