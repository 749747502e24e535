-- ===== src/Alloc/Isolation.antt =====
-- The blocks of one chunk in `allocateNisdPerChunk` of
-- controlplane/ctlplanefuncs/server/srvctlplanefuncs.go: no two of them are in the same entity.
use niova_mdsvc.Prelude.{
  ℕ, zero, suc, ◌+◌, ◌*◌, ◌<◌, ◌≤◌, ◌≡◌, refl, false, List, ◌∷◌, Outcome, Ends, ok, err, panic,
  running, arith, All, length,
}
use niova_mdsvc.BTree.{BTree}
use niova_mdsvc.CpLib.{VdevReq}
use niova_mdsvc.Hierarchy.{Heap, Hierarchy, Entities, Error}
use niova_mdsvc.Hierarchy.Pick.{AllocEntry}
use niova_mdsvc.Alloc.{ChunkState, is_used, search_entity, blocks_apart, gen_block}
use niova_mdsvc.Alloc.Picks.{NoDup, free_index}
use niova_mdsvc.Alloc.Search.{Found, search_entity-Found, search_entity-Ends, distance-lt}

module _ (bt : BTree) (h : Heap) (hr : Hierarchy bt) (req : VdevReq) (chunk_idx offset : ℕ)
    (entities : List (Entities bt)) where
  -- The `k` picks of a chunk are different entities of the level.
  abbrev pub Isolated : ℕ → ChunkState bt → Type 0
  Isolated k s =
      NoDup s.picked_entity
      × All (λ j. j < length entities) s.picked_entity
      × (length s.picked_entity ≡ k)

  abbrev pub Isolated? : ℕ → Outcome Error (ChunkState bt) → Type 0
  Isolated? k (ok s) = Isolated k s
  Isolated? k (err e) = Unit
  Isolated? k panic = Unit
  Isolated? k running = Unit

  abbrev search : ℕ → ℕ → ℕ → ChunkState bt → Outcome Error (AllocEntry × ℕ × ℕ × ChunkState bt)
  search fuel i = search_entity bt h hr req chunk_idx offset entities fuel i 0

  abbrev blocks : ℕ → ℕ → ℕ → ℕ → ChunkState bt → Outcome Error (ChunkState bt)
  blocks = blocks_apart bt h hr req chunk_idx offset entities

  -- The state after block `i` is placed on `nisd` in the entity `picked`.
  abbrev after : ℕ → AllocEntry → ℕ → ChunkState bt → ChunkState bt
  after i nisd picked s =
      let s' = gen_block bt h hr req chunk_idx offset i nisd s in
      record s' {
        picked_entity = picked ∷ s'.picked_entity;
        picked_nisd = (h nisd.alloc.ptr).id ∷ s'.picked_nisd;
      }

  Isolated-after :
      (i picked k : ℕ) (nisd : AllocEntry) (s s' : ChunkState bt)
      → is_used picked s.picked_entity ≡ false
      → picked < length entities
      → s'.picked_entity ≡ s.picked_entity
      → Isolated k s
      → Isolated (k + 1) (after i nisd picked s')
  unfolding gen_block
  Isolated-after i picked k nisd s s' fresh below same iso =
      rw same ((fresh, iso.0), (below, iso.1), omega (arith, iso.2))

  -- If the blocks of a chunk are all placed, they are in different entities of the level.
  pub blocks_apart-Isolated :
      (fuel n i idx k t : ℕ) (s : ChunkState bt)
      → idx < length entities
      → k + n ≡ t
      → Isolated k s
      → Isolated? t (blocks_apart bt h hr req chunk_idx offset entities fuel n i idx s)
  unfolding blocks_apart
  blocks_apart-Isolated fuel zero i idx k t s l sum iso = (iso.0, iso.1, omega (arith, iso.2))
  blocks_apart-Isolated fuel (suc n) i idx k t s l sum iso =
      go (search fuel i idx s) refl
        (search_entity-Found bt h hr req chunk_idx offset entities fuel i 0 idx s s.picked_entity l
          refl)
        (λ i idx s lt. blocks_apart-Isolated fuel n i idx (k + 1) t s lt (omega arith))
    where
      go :
          (r : Outcome Error (AllocEntry × ℕ × ℕ × ChunkState bt))
          → search fuel i idx s ≡ r
          → Found bt h hr req chunk_idx offset entities s.picked_entity r
          → ((i idx : ℕ) (s : ChunkState bt)
              → idx < length entities
              → Isolated (k + 1) s
              → Isolated? t (blocks fuel n i idx s))
          → Isolated? t (blocks fuel (suc n) i idx s)
      go (ok (nisd, picked, next, s')) e (fresh, below, next_below, same) rest =
          rw (e, blocks, blocks_apart)
            (rest (i + 1) next (after i nisd picked s') next_below
              (Isolated-after i picked k nisd s s' fresh below same iso))
      go (err x) e f rest = rw (e, blocks, blocks_apart) tt
      go panic e f rest = rw (e, blocks, blocks_apart) tt
      go running e f rest = rw (e, blocks, blocks_apart) tt

  -- If there are entities enough for the blocks, their placement returns.
  pub blocks_apart-Ends :
      (fuel n i idx k : ℕ) (s : ChunkState bt)
      → idx < length entities
      → Isolated k s
      → k + n ≤ length entities
      → length entities + length entities * length entities ≤ fuel
      → Ends (blocks_apart bt h hr req chunk_idx offset entities fuel n i idx s)
  unfolding blocks_apart
  blocks_apart-Ends fuel zero i idx k s l iso room enough = tt
  blocks_apart-Ends fuel (suc n) i idx k s l iso room enough =
      let (u, lu, free) = free_index (length entities) s.picked_entity (omega (arith, iso.2)) in
      go (search fuel i idx s) refl
        (search_entity-Found bt h hr req chunk_idx offset entities fuel i 0 idx s s.picked_entity l
          refl)
        (search_entity-Ends bt h hr req chunk_idx offset entities fuel (length entities) i 0 idx u s
          l lu free (omega arith) (omega (arith, distance-lt _ u idx lu l)))
        (λ i idx s next_lt iso.
          blocks_apart-Ends fuel n i idx (k + 1) s next_lt iso (omega arith) enough)
    where
      go :
          (r : Outcome Error (AllocEntry × ℕ × ℕ × ChunkState bt))
          → search fuel i idx s ≡ r
          → Found bt h hr req chunk_idx offset entities s.picked_entity r
          → Ends r
          → ((i idx : ℕ) (s : ChunkState bt)
              → idx < length entities
              → Isolated (k + 1) s
              → Ends (blocks fuel n i idx s))
          → Ends (blocks fuel (suc n) i idx s)
      go (ok (nisd, picked, next, s')) e (fresh, below, next_below, same) _ rest =
          rw (e, blocks, blocks_apart)
            (rest (i + 1) next (after i nisd picked s') next_below
              (Isolated-after i picked k nisd s s' fresh below same iso))
      go (err x) e f t rest = rw (e, blocks, blocks_apart) tt
      go panic e f t rest = absurd t
      go running e f t rest = absurd t
