-- ===== src/Alloc/Chunk.antt =====
-- `allocateNisdPerChunk` of controlplane/ctlplanefuncs/server/srvctlplanefuncs.go on one level, for a vdev
-- with no entity filter.
use niova_mdsvc.Prelude.{
  ℕ, ◌+◌, ◌*◌, ◌<◌, ◌≤◌, ◌≡◌, refl, inl, inr, true, false, List, [], some, get_elem?, Outcome, Ends,
  ok, err, arith, All, map, itoa, ◌++◌, length, ◌==◌, Bool-cases, str_eq, ◌||◌, not, slt64, ◌≢◌,
}
use mathlib.Core.Path.{subst}
use native.Mathlib.Nat.{mod-lt}
use niova_mdsvc.BTree.{BTree}
use niova_mdsvc.CpLib.{VdevReq, fd_max}
use niova_mdsvc.CpLib.Blocks.{total_redundancy_blocks_per_chunk}
use niova_mdsvc.Commit.{CommitChg}
use niova_mdsvc.Hierarchy.{Heap, Hierarchy, FailureDomain, Entities, Error}
use niova_mdsvc.Hierarchy.Pick.{UsageMap, NisdMap, get_idx_for_nisd_alloc}
use niova_mdsvc.Hierarchy.Pick.Members.{Keyed}
use niova_mdsvc.Alloc.{ChunkState, blocks_apart, allocate_nisd_per_chunk}
use niova_mdsvc.Alloc.Picks.{NoDup, length-NoDup}
use niova_mdsvc.Alloc.Placed.{
  Place, IsIn, all_changes, NoDup-Apart, PlacedFrom, blocks_apart-PlacedFrom,
}
use niova_mdsvc.Alloc.Isolation.{Isolated?, blocks_apart-Isolated, blocks_apart-Ends}

module _ (bt : BTree) (h : Heap) (hr : Hierarchy bt) (req : VdevReq) (chunk_idx offset : ℕ)
    (f : FailureDomain bt) (fd : ℕ) where
  abbrev entities : List (Entities bt)
  entities = bt.items f.tree

  abbrev total : ℕ
  total = total_redundancy_blocks_per_chunk req.vdev

  abbrev fresh : UsageMap → NisdMap bt → List CommitChg → ChunkState bt
  fresh usage m changes = record {
    picked_nisd = [];
    picked_devices = [];
    picked_entity = [];
    usage = usage;
    nisd_map = m;
    changes = changes;
  }

  abbrev allocated : ℕ → UsageMap → NisdMap bt → List CommitChg → Outcome Error (ChunkState bt)
  allocated fuel usage m changes =
      allocate_nisd_per_chunk bt h hr req chunk_idx offset fuel fd usage m changes

  abbrev Placed : UsageMap → NisdMap bt → List CommitChg → Outcome Error (ChunkState bt) → Type 0
  Placed usage m changes =
      PlacedFrom bt h hr req chunk_idx offset entities 0 total (fresh usage m changes)

  -- The two ways that are open without a filter.
  unfiltered {ℓ} :
      (P : Outcome Error (ChunkState bt) → Type ℓ) (fuel : ℕ) (usage : UsageMap) (m : NisdMap bt)
      (changes : List CommitChg)
      → fd < fd_max
      → get_elem? hr.fd fd ≡ some f
      → req.filter.id ≡ ""
      → ((e : Error) → P (err e))
      → ((start : ℕ)
          → start < length entities
          → P (
              blocks_apart bt h hr req chunk_idx offset entities fuel total 0 start
                (fresh usage m changes)))
      → P (allocated fuel usage m changes)
  unfolding allocate_nisd_per_chunk get_idx_for_nisd_alloc
  unfiltered P fuel usage m changes lt at e none_there some_there =
      elim (Bool-cases (length entities == 0)) [
        | inl z ↦
            rw (level, allocated, allocate_nisd_per_chunk)
              (rw (at, allocated, allocate_nisd_per_chunk)
                (rw (z, allocated, allocate_nisd_per_chunk) (none_there _)))
        | inr z ↦
            rw (level, allocated, allocate_nisd_per_chunk)
              (rw (at, allocated, allocate_nisd_per_chunk)
                (rw (z, allocated, allocate_nisd_per_chunk)
                  (rw (free, allocated, allocate_nisd_per_chunk)
                    (some_there _ (mod-lt _ (ground arith))))))
      ]
    where
      level : (slt64 fd 0 || not (slt64 fd fd_max)) ≡ false
      level = ground arith

      free : str_eq req.filter.id "" ≡ true
      free = rw e refl

  -- The picks of a chunk whose allocation succeeds are different entities.
  allocate_nisd_per_chunk-Isolated :
      (fuel : ℕ) (usage : UsageMap) (m : NisdMap bt) (changes : List CommitChg)
      → fd < fd_max
      → get_elem? hr.fd fd ≡ some f
      → req.filter.id ≡ ""
      → Isolated? bt h hr req chunk_idx offset
          (bt.items f.tree)
          (total_redundancy_blocks_per_chunk req.vdev)
          (allocate_nisd_per_chunk bt h hr req chunk_idx offset fuel fd usage m changes)
  allocate_nisd_per_chunk-Isolated fuel usage m changes lt at e =
      unfiltered (Isolated? bt h hr req chunk_idx offset entities total) fuel usage m changes lt at
        e (λ _. tt)
        (λ start below.
          blocks_apart-Isolated bt h hr req chunk_idx offset entities fuel total 0 start 0 total
            (fresh usage m changes) below (omega arith) (tt, tt, refl))

  -- On a valid level, without an entity filter and with a map of NISDs under their own IDs, a chunk whose
  -- allocation succeeds has a place for each of its blocks: an entity of the level, a device of that
  -- entity and a NISD of that device. No two of the blocks have the entity at the same index of the level,
  -- and the changes are, after those before, for each block in order the chunk's key for it with the ID of
  -- its NISD, and the NISD's reverse key.
  pub allocate_nisd_per_chunk-Placed :
      (fuel : ℕ) (usage : UsageMap) (m : NisdMap bt) (changes : List CommitChg) (s : ChunkState bt)
      → fd < fd_max
      → get_elem? hr.fd fd ≡ some f
      → req.filter.id ≡ ""
      → Keyed bt h m
      → allocate_nisd_per_chunk bt h hr req chunk_idx offset fuel fd usage m changes ≡ ok s
      → (ps : List (Place bt h)) × (length ps ≡ total_redundancy_blocks_per_chunk req.vdev)
        × All (IsIn bt h (bt.items f.tree)) ps
        × NoDup (map (λ (p : Place bt h). p.index) ps)
        × (s.changes ≡ changes ++ all_changes bt h req.vdev (itoa chunk_idx) 0 ps)
  allocate_nisd_per_chunk-Placed fuel usage m changes s lt at e keyed made =
      let (ps, count, all, apart, written) = subst (Placed usage m changes) made (
        unfiltered (Placed usage m changes) fuel usage m changes lt at e (λ _. tt)
          (λ start below.
            blocks_apart-PlacedFrom bt h hr req chunk_idx offset entities fuel total 0 start
              (fresh usage m changes) keyed)) in
      (ps, count, all, NoDup-Apart bt h [] ps apart, written)

  -- On a valid level with at least as many entities as the chunk has blocks, and without an entity filter,
  -- the allocation of a chunk returns within n + n * n search steps for each block, n the number of
  -- entities.
  pub allocate_nisd_per_chunk-Ends :
      (fuel : ℕ) (usage : UsageMap) (m : NisdMap bt) (changes : List CommitChg)
      → fd < fd_max
      → get_elem? hr.fd fd ≡ some f
      → req.filter.id ≡ ""
      → total_redundancy_blocks_per_chunk req.vdev ≤ length (bt.items f.tree)
      → length (bt.items f.tree) + length (bt.items f.tree) * length (bt.items f.tree) ≤ fuel
      → Ends (allocate_nisd_per_chunk bt h hr req chunk_idx offset fuel fd usage m changes)
  allocate_nisd_per_chunk-Ends fuel usage m changes lt at e room enough =
      unfiltered Ends fuel usage m changes lt at e (λ _. tt)
        (λ start below.
          blocks_apart-Ends bt h hr req chunk_idx offset entities fuel total 0 start 0
            (fresh usage m changes) below (tt, tt, refl) (omega arith) enough)

  -- Without a filter, on a level with fewer entities than the chunk has blocks, no number of search steps
  -- gives an allocation.
  pub allocate_nisd_per_chunk-oversubscribed :
      (fuel : ℕ) (usage : UsageMap) (m : NisdMap bt) (changes : List CommitChg) (s : ChunkState bt)
      → fd < fd_max
      → get_elem? hr.fd fd ≡ some f
      → req.filter.id ≡ ""
      → length (bt.items f.tree) < total_redundancy_blocks_per_chunk req.vdev
      → allocate_nisd_per_chunk bt h hr req chunk_idx offset fuel fd usage m changes ≢ ok s
  allocate_nisd_per_chunk-oversubscribed fuel usage m changes s lt at e few made =
      let (distinct, below, count) =
        subst (Isolated? bt h hr req chunk_idx offset entities total) made
          (allocate_nisd_per_chunk-Isolated fuel usage m changes lt at e) in
      absurd (omega (arith, length-NoDup (length entities) s.picked_entity distinct below))
