-- ===== src/Alloc.antt =====
-- The allocation of a vdev's chunks in controlplane/ctlplanefuncs/server/srvctlplanefuncs.go:
-- `allocateNisdPerChunk`. The search for an entity is a `for` loop that may run for ever; it is on fuel here.
pub mod Levels
pub mod Picks
pub mod Placement
pub mod Search
pub mod Isolation
pub mod Placed
pub mod Chunk
pub mod Apply
use Prim.Native.String.{◌++◌ as str_append}
use niova_mdsvc.Prelude.{
  ℕ, zero, suc, ◌+◌, ◌-◌, ◌*◌, ◌%◌, String, Bool, true, false, not, ◌&&◌, ◌||◌, ◌≡◌, refl, Option,
  none, some, List, [], ◌∷◌, ◌++◌, Outcome, ok, err, panic, running, ◌>>=◌, length, get_elem?, ltb,
  leb, ◌==◌, str_eq, if◌then◌else◌, add64, sub64, slt64, two64, itoa,
}
use niova_mdsvc.BTree.{BTree}
use niova_mdsvc.CpLib.{
  DeviceAlloc, ChunkType, replica_block, data_block, parity_block, VdevConfig, VdevReq, chunk_size,
  fd_max,
}
use niova_mdsvc.CpLib.Blocks.{rm_replica, total_redundancy_blocks_per_chunk}
use niova_mdsvc.CpLib.Hash.{nisd_alloc_hash}
use niova_mdsvc.CpLib.Domains.{fd_any, get_fd_idx}
use niova_mdsvc.Hierarchy.{
  Heap, Hierarchy, FailureDomain, Entities, Error, invalid_failure_domain, no_entities_available,
  failed_to_allocate_block, unable_to_allocate_nisds, get_fd_level,
}
use niova_mdsvc.Hierarchy.Pick.{
  UsageMap, known_usage, AllocEntry, alloc_key, NisdMap, pick_device, pick_nisd_from_device,
  get_entity_by_id, get_idx_for_nisd_alloc,
}
use niova_mdsvc.Commit.{CommitChg, gen_allocation_kv}

-- The type of block `i` of a chunk, and its number within that type.
pub block_of : VdevConfig → ℕ → ChunkType × ℕ
block_of v i =
    if v.redundancy == rm_replica
    then (replica_block, i)
    else if ltb i v.data_blk_cnt
    then (data_block, i)
    else (parity_block, i - v.data_blk_cnt)

-- The number of a picked entity is its index in the level.
unfoldable pub is_used : ℕ → List ℕ → Bool
is_used i [] = false
is_used i (j ∷ js) = i == j || is_used i js

-- `info.Usage++` and `info.AvailableSize -= CHUNK_SIZE`, the entry made first where it is missing.
unfoldable pub use_device : DeviceAlloc → UsageMap → UsageMap
use_device dn m =
    let info = known_usage m dn in
    (
      dn.id,
      record { usage = add64 info.usage 1; available_size = sub64 info.available_size chunk_size },
    )
    ∷ m

module _ (bt : BTree) where
  -- The variables of one chunk's allocation, and the three that are shared by the vdev's chunks.
  pub record ChunkState : Type 0 where
    pub picked_nisd : List String
    pub picked_devices : List String
    pub picked_entity : List ℕ
    pub usage : UsageMap
    pub nisd_map : NisdMap bt
    pub changes : List CommitChg

  module _ (h : Heap) (hr : Hierarchy bt) (req : VdevReq) (chunk_idx offset : ℕ) where
    -- The device and the NISD of block `i` in an entity. A NISD that is looked up stays in the map when
    -- the choice fails.
    pub place_block :
        Entities bt → ℕ → ChunkState → Outcome Error (DeviceAlloc × AllocEntry) × ChunkState
    place_block ent i s =
        let start = add64 (add64 chunk_idx offset) i in
        elim (pick_device bt ent s.picked_devices s.usage start) [
          | err e ↦ (err e, s)
          | panic ↦ (panic, s)
          | running ↦ (running, s)
          | ok dev ↦
              let (r, m) = pick_nisd_from_device bt h dev s.picked_nisd s.nisd_map in
              elim r [
                | err e ↦ (err e, record s { nisd_map = m })
                | panic ↦ (panic, s)
                | running ↦ (running, s)
                | ok (nisd, picked) ↦ (
                  ok (dev, nisd),
                  record s {
                    picked_nisd = picked;
                    picked_devices = dev.id ∷ s.picked_devices;
                    usage = use_device dev s.usage;
                    nisd_map = m;
                  },
                )
              ]
        ]

    gen_block : ℕ → AllocEntry → ChunkState → ChunkState
    unfolding block_of
    gen_block i nisd s =
        let (type, seq) = block_of req.vdev i in
        record s {
          changes =
              s.changes
              ++ gen_allocation_kv req.vdev.id (itoa chunk_idx) type (h nisd.alloc.ptr).id seq;
        }

    -- The loop over the blocks from block `i` on, all of them in the filter's entity.
    pub blocks_in_entity : Entities bt → ℕ → ℕ → ChunkState → Outcome Error ChunkState
    unfolding place_block gen_block
    blocks_in_entity ent zero i s = ok s
    blocks_in_entity ent (suc n) i s =
        let (r, s') = place_block ent i s in
        elim r [
          | err e ↦ err e
          | panic ↦ panic
          | running ↦ running
          | ok (dev, nisd) ↦ blocks_in_entity ent n (i + 1) (gen_block i nisd s')
        ]

    module _ (entities : List (Entities bt)) where
      -- The loop `for tried < treeLen`: the chosen NISD, the entity's index and the next index.
      pub search_entity :
          ℕ → ℕ → ℕ → ℕ → ChunkState → Outcome Error (AllocEntry × ℕ × ℕ × ChunkState)
      unfolding place_block
      search_entity zero i tried idx s = running
      search_entity (suc fuel) i tried idx s =
          let next = (idx + 1) % length entities in
          elim (ltb tried (length entities)) [
            | false ↦ err (failed_to_allocate_block i chunk_idx)
            | true ↦ elim (is_used idx s.picked_entity) [
              | true ↦ search_entity fuel i tried next s
              | false ↦ elim (get_elem? entities idx) [
                | none ↦ search_entity fuel i (tried + 1) next s
                | some ent ↦
                    let (r, s') = place_block ent i s in
                    elim r [
                      | err e ↦ search_entity fuel i (tried + 1) next s'
                      | panic ↦ panic
                      | running ↦ running
                      | ok (dev, nisd) ↦ ok (nisd, idx, next, s')
                    ]
              ]
            ]
          ]

      -- The loop over the blocks from block `i` on, each in an entity of its own.
      pub blocks_apart : ℕ → ℕ → ℕ → ℕ → ChunkState → Outcome Error ChunkState
      unfolding search_entity gen_block
      blocks_apart fuel zero i idx s = ok s
      blocks_apart fuel (suc n) i idx s = elim (search_entity fuel i 0 idx s) [
        | err e ↦ err e
        | panic ↦ panic
        | running ↦ running
        | ok (nisd, picked, next, s') ↦
            let s'' = gen_block i nisd s' in
            blocks_apart fuel n (i + 1) next (record s'' {
              picked_entity = picked ∷ s''.picked_entity;
              picked_nisd = (h nisd.alloc.ptr).id ∷ s''.picked_nisd;
            })
      ]

    -- `allocateNisdPerChunk` on the level `fd`; `fuel` bounds the search for an entity.
    unfoldable pub allocate_nisd_per_chunk :
        ℕ → ℕ → UsageMap → NisdMap bt → List CommitChg → Outcome Error ChunkState
    unfolding blocks_in_entity blocks_apart
    allocate_nisd_per_chunk fuel fd usage m changes =
        let s : ChunkState = record {
          picked_nisd = [];
          picked_devices = [];
          picked_entity = [];
          usage = usage;
          nisd_map = m;
          changes = changes;
        } in
        let total = total_redundancy_blocks_per_chunk req.vdev in
        if slt64 fd 0 || not (slt64 fd fd_max)
        then err (invalid_failure_domain fd)
        else elim (get_elem? hr.fd fd) [
          | none ↦ panic
          | some f ↦
              let entities = bt.items f.tree in
              if length entities == 0
              then err (no_entities_available fd)
              else if str_eq req.filter.id ""
              then (do
                start ←
                    get_idx_for_nisd_alloc
                      (nisd_alloc_hash (str_append req.vdev.id (itoa chunk_idx))) (length entities)
                blocks_apart entities fuel total 0 start s)
              else (do ent ← get_entity_by_id bt hr req.filter; blocks_in_entity ent total 0 s)
        ]
