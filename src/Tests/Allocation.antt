-- ===== src/Tests/Allocation.antt =====
-- Allocation at concrete racks.
use niova_mdsvc.Prelude.{
  ℕ, zero, suc, ◌+◌, ◌*◌, ◌^◌, ◌<◌, ◌≤◌, ◌≡◌, ◌≢◌, ◌↔◌, refl, true, false, ◌&&◌, [], ◌∷◌, ok, panic,
  running, Ends, arith, length, leb, All, map, itoa, List, ◌++◌,
}
use niova_mdsvc.BTree.Lists.{lists, put}
use niova_mdsvc.CpLib.{VdevConfig, Filter, chunk_size, minus_one}
use niova_mdsvc.CpLib.Blocks.{
  rm_replica, init_chunk_cnt, total_redundancy_blocks_per_chunk, init_chunk_cnt_covers,
  total_redundancy_blocks_exact,
}
use niova_mdsvc.CpLib.Domains.{fd_pdu, fd_partition}
use niova_mdsvc.Hierarchy.Devices.{has_nisd}
use niova_mdsvc.Hierarchy.Pick.{
  NisdMap, AllocEntry, alloc_key, pick_device, pick_nisd_from_device, get_entity_by_id,
  get_idx_for_nisd_alloc, has_room, known_usage, scan_nisds, better_nisd, lookup_n_add_nisd,
}
use niova_mdsvc.Hierarchy.Pick.Rotation.{IsRanged-nil}
use niova_mdsvc.Hierarchy.Pick.Choice.{Choice, pick_device-Choice}
use niova_mdsvc.Hierarchy.Pick.Space.{Picks, pick_nisd_from_device-Picks}
use niova_mdsvc.Hierarchy.Pick.Filtered.{get_entity_by_id_cases}
use niova_mdsvc.CpLib.Hash.{nisd_alloc_hash}
use niova_mdsvc.Commit.{gen_allocation_kv}
use niova_mdsvc.Alloc.{use_device, ChunkState, is_used, search_entity, allocate_nisd_per_chunk}
use niova_mdsvc.Alloc.Search.{search_entity_hangs}
use niova_mdsvc.Alloc.Picks.{NoDup}
use niova_mdsvc.Alloc.Placed.{Place, IsIn, all_changes}
use niova_mdsvc.Hierarchy.Pick.Members.{Keyed}
use niova_mdsvc.Alloc.Chunk.{
  allocate_nisd_per_chunk-Placed, allocate_nisd_per_chunk-Ends,
  allocate_nisd_per_chunk-oversubscribed,
}
use niova_mdsvc.Tests.{heap, device_a, rack_1, rack_2, racks, two_racks, request}

abbrev no_allocs : NisdMap lists
no_allocs = lists.new AllocEntry alloc_key

one_device : length (lists.items rack_1.devices) < 2 ^ 62
unfolding lists put
one_device = omega arith

pick_device-Choice_example : Choice lists rack_1 [] [] (pick_device lists rack_1 [] [] 7)
pick_device-Choice_example =
    pick_device-Choice lists rack_1 [] [] 7 IsRanged-nil (omega arith) one_device

pick_nisd_from_device-Picks_example :
    let (r, m') = pick_nisd_from_device lists heap device_a [] no_allocs in
    Picks lists heap device_a [] no_allocs r m'
pick_nisd_from_device-Picks_example =
    pick_nisd_from_device-Picks lists heap device_a [] no_allocs (unfold has_nisd in refl, tt)

no_allocs-Keyed : Keyed lists heap no_allocs
no_allocs-Keyed k e g = absurd (ground (arith, lists.get-new AllocEntry alloc_key k, g))

two_placed :
    (s : ChunkState lists) × (allocate_nisd_per_chunk lists heap two_racks
        (request 2)
        0
        0
        6
        1
        []
        no_allocs
        []
      ≡ ok s)
unfolding allocate_nisd_per_chunk lists get_idx_for_nisd_alloc total_redundancy_blocks_per_chunk
    is_used nisd_alloc_hash itoa pick_device has_room known_usage pick_nisd_from_device scan_nisds
    better_nisd lookup_n_add_nisd use_device gen_allocation_kv
two_placed = (_, refl)

allocate_nisd_per_chunk-Placed_example :
    (ps : List (Place lists heap)) × (length ps
      ≡ total_redundancy_blocks_per_chunk (request 2).vdev)
    × All (IsIn lists heap (lists.items racks.tree)) ps
    × NoDup (map (λ (p : Place lists heap). p.index) ps)
    × (two_placed.0.changes ≡ [] ++ all_changes lists heap (request 2).vdev (itoa 0) 0 ps)
allocate_nisd_per_chunk-Placed_example =
    allocate_nisd_per_chunk-Placed lists heap two_racks (request 2) 0 0 racks 1 6 [] no_allocs []
      two_placed.0 (omega arith) refl refl no_allocs-Keyed two_placed.1

two_entities : length (lists.items racks.tree) ≡ 2
unfolding lists put
two_entities = refl

room_for_two : total_redundancy_blocks_per_chunk (request 2).vdev ≤ length (lists.items racks.tree)
unfolding total_redundancy_blocks_per_chunk
room_for_two = omega (arith, two_entities)

enough :
    length (lists.items racks.tree)
      + length (lists.items racks.tree) * length (lists.items racks.tree)
    ≤ 6
unfolding lists put
enough = omega arith

allocate_nisd_per_chunk-Ends_example :
    Ends (allocate_nisd_per_chunk lists heap two_racks (request 2) 0 0 6 1 [] no_allocs [])
allocate_nisd_per_chunk-Ends_example =
    allocate_nisd_per_chunk-Ends lists heap two_racks (request 2) 0 0 racks 1 6 [] no_allocs []
      (omega arith) refl refl room_for_two enough

too_few : length (lists.items racks.tree) < total_redundancy_blocks_per_chunk (request 3).vdev
unfolding total_redundancy_blocks_per_chunk
too_few = omega (arith, two_entities)

abbrev untouched : ChunkState lists
untouched = record {
  picked_nisd = [];
  picked_devices = [];
  picked_entity = 0 ∷ 1 ∷ [];
  usage = [];
  nisd_map = no_allocs;
  changes = [];
}

allocate_nisd_per_chunk-oversubscribed_example :
    allocate_nisd_per_chunk lists heap two_racks (request 3) 0 0 100 1 [] no_allocs []
    ≢ ok untouched
allocate_nisd_per_chunk-oversubscribed_example =
    allocate_nisd_per_chunk-oversubscribed lists heap two_racks (request 3) 0 0 racks 1 100 []
      no_allocs [] untouched (omega arith) refl refl too_few

all_picked : (j : ℕ) → j < length (rack_1 ∷ rack_2 ∷ []) → is_used j (0 ∷ 1 ∷ []) ≡ true
unfolding is_used
all_picked zero lt = refl
all_picked (suc zero) lt = refl
all_picked (suc (suc j)) lt = absurd (omega arith)

search_entity_hangs_example :
    search_entity lists heap two_racks (request 3) 0 0 (rack_1 ∷ rack_2 ∷ []) 100 2 0 1 untouched
    ≡ running
search_entity_hangs_example =
    search_entity_hangs lists heap two_racks (request 3) 0 0 (rack_1 ∷ rack_2 ∷ []) 100 2 0 1
      untouched (omega arith) (omega arith) all_picked

-- A filter by an entity with the level left open.
abbrev any_level : Filter
any_level = record { id = "rack-1"; type = 0 }

get_entity_by_id_cases_example :
    ((leb fd_pdu 0 && leb 0 fd_partition) ≡ true
      → Ends (get_entity_by_id lists two_racks any_level))
    × ((leb fd_pdu 0 && leb 0 fd_partition) ≡ false
        → 0 ≢ minus_one
        → get_entity_by_id lists two_racks any_level ≡ panic)
get_entity_by_id_cases_example = get_entity_by_id_cases lists two_racks any_level refl

-- A size one byte over three chunks.
abbrev odd_vdev : VdevConfig
odd_vdev = record (request 2).vdev {
  size = 3 * chunk_size + 1;
  redundancy = 1;
  data_blk_cnt = 200;
  parity_blk_cnt = 60;
}

init_chunk_cnt_covers_example :
    (3 * chunk_size + 1 ≤ (init_chunk_cnt odd_vdev).chunk_cnt * chunk_size)
    × ((init_chunk_cnt odd_vdev).chunk_cnt * chunk_size < 3 * chunk_size + 1 + chunk_size)
init_chunk_cnt_covers_example = init_chunk_cnt_covers odd_vdev (omega arith)

total_redundancy_blocks_exact_example :
    (1 ≡ rm_replica → total_redundancy_blocks_per_chunk odd_vdev ≡ 200)
    × (1 ≢ rm_replica → (total_redundancy_blocks_per_chunk odd_vdev ≡ 260) ↔ (260 < 256))
total_redundancy_blocks_exact_example =
    total_redundancy_blocks_exact odd_vdev (omega arith) (omega arith)
