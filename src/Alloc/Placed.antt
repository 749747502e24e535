-- ===== src/Alloc/Placed.antt =====
-- Where `allocateNisdPerChunk` of controlplane/ctlplanefuncs/server/srvctlplanefuncs.go puts the blocks of a
-- chunk that has no filter, and the changes it makes for them.
use Prim.Native.String.{◌++◌ as str_append}
use niova_mdsvc.Prelude.{
  ℕ, zero, suc, ◌+◌, ◌-◌, String, ◌≡◌, refl, sym, ap, ◌∙◌, ◌||◌, inl, inr, true, false, some, List,
  [], ◌∷◌, ◌++◌, map, Outcome, ok, err, panic, running, arith, All, length, get_elem?, ltb, ◌==◌,
  if◌then◌else◌, itoa, Bool-cases,
}
use mathlib.Core.List.{append_assoc, append-nil}
use mathlib.Core.Path.{subst}
use niova_mdsvc.BTree.{BTree}
use niova_mdsvc.CpLib.{VdevConfig, VdevReq, DeviceAlloc}
use niova_mdsvc.CpLib.Blocks.{rm_replica}
use niova_mdsvc.CpLib.Domains.{chunk_prefix}
use niova_mdsvc.Commit.{CommitChg, change, ◌/◌, gen_allocation_kv, get_vdev_chunk_key}
use niova_mdsvc.Hierarchy.{Heap, Hierarchy, Entities, Error}
use niova_mdsvc.Hierarchy.Pick.{AllocEntry}
use niova_mdsvc.Hierarchy.Pick.Members.{Within, Keyed}
use niova_mdsvc.Alloc.{ChunkState, is_used, search_entity, blocks_apart, gen_block, block_of}
use niova_mdsvc.Alloc.Picks.{NoDup}
use niova_mdsvc.Alloc.Placement.{Keeps}
use niova_mdsvc.Alloc.Search.{search_entity-round}

-- The last part of a block's key: `D.<i>` for a replica or data block, and `P.<i>` for a parity block,
-- whose numbers begin at 0.
abbrev pub block_text : VdevConfig → ℕ → String
block_text v i =
    if v.redundancy == rm_replica || ltb i v.data_blk_cnt
    then str_append "D" (str_append "." (itoa i))
    else str_append "P" (str_append "." (itoa (i - v.data_blk_cnt)))

-- The changes for block `i` on the NISD `nisd_id`: the chunk's key for the block, and the NISD's reverse key.
abbrev pub block_changes : VdevConfig → String → ℕ → String → List CommitChg
block_changes v chunk i nisd_id =
    change (("v" / v.id / "c") / chunk / block_text v i) nisd_id
    ∷ change ("n" / nisd_id / v.id) (str_append (block_text v i) (str_append "." chunk))
    ∷ []

gen_allocation_kv-block_changes :
    (v : VdevConfig) (chunk : String) (i : ℕ) (nisd_id : String)
    → gen_allocation_kv v.id chunk (block_of v i).0 nisd_id (block_of v i).1
      ≡ block_changes v chunk i nisd_id
unfolding gen_allocation_kv get_vdev_chunk_key chunk_prefix block_of
gen_allocation_kv-block_changes v chunk i nisd_id = elim (Bool-cases (v.redundancy == rm_replica)) [
  | inl e ↦ rw (e, block_of, block_text) refl
  | inr e ↦ elim (Bool-cases (ltb i v.data_blk_cnt)) [
    | inl d ↦ rw (e, block_of, block_text) (rw (d, block_of, block_text) refl)
    | inr d ↦ rw (e, block_of, block_text) (rw (d, block_of, block_text) refl)
  ]
]

module _ (bt : BTree) (h : Heap) where
  -- A block's place: the entity with its index in the level, a device and a NISD.
  pub record Place : Type 0 where
    pub index : ℕ
    pub entity : Entities bt
    pub device : DeviceAlloc
    pub nisd : ℕ

  -- The entity is the level's at the index, the device is the entity's and the NISD the device's.
  abbrev pub IsIn : List (Entities bt) → Place → Type 0
  IsIn entities p =
      (get_elem? entities p.index ≡ some p.entity)
      × Within p.device (bt.items p.entity.devices)
      × Within p.nisd p.device.nisds

  -- The changes for the blocks from block `i` on.
  abbrev pub all_changes : VdevConfig → String → ℕ → List Place → List CommitChg
  all_changes v chunk i [] = []
  all_changes v chunk i (p ∷ ps) =
      block_changes v chunk i (h p.nisd).id ++ all_changes v chunk (i + 1) ps

  -- The indices are new, also to each other.
  abbrev pub Apart : List ℕ → List Place → Type 0
  Apart used [] = Unit
  Apart used (p ∷ ps) = (is_used p.index used ≡ false) × Apart (p.index ∷ used) ps

  fresh-Apart :
      (u : ℕ) (used : List ℕ) (ps : List Place)
      → is_used u used ≡ true
      → Apart used ps
      → is_used u (map (λ (p : Place). p.index) ps) ≡ false
  unfolding is_used
  fresh-Apart u used [] m a = refl
  fresh-Apart u used (p ∷ ps) m (fresh, a) =
      ground (arith, m, fresh, fresh-Apart u (p.index ∷ used) ps)

  pub NoDup-Apart :
      (used : List ℕ) (ps : List Place) → Apart used ps → NoDup (map (λ (p : Place). p.index) ps)
  unfolding is_used
  NoDup-Apart used [] a = tt
  NoDup-Apart used (p ∷ ps) (fresh, a) =
      (fresh-Apart p.index (p.index ∷ used) ps (ground arith) a, NoDup-Apart (p.index ∷ used) ps a)

  module _ (hr : Hierarchy bt) (req : VdevReq) (chunk_idx offset : ℕ)
      (entities : List (Entities bt)) where
    abbrev search :
        ℕ → ℕ → ℕ → ℕ → ChunkState bt → Outcome Error (AllocEntry × ℕ × ℕ × ChunkState bt)
    search = search_entity bt h hr req chunk_idx offset entities

    -- What a search finds: an entity that is not used, with a device and a NISD of it.
    abbrev Finds : ChunkState bt → Outcome Error (AllocEntry × ℕ × ℕ × ChunkState bt) → Type 0
    Finds s (ok (nisd, picked, next, s')) =
        (is_used picked s.picked_entity ≡ false)
        × Keeps bt h s s'
        × ((p : Place) × IsIn entities p
            × (p.index ≡ picked)
            × ((h nisd.alloc.ptr).id ≡ (h p.nisd).id))
    Finds s (err e) = Unit
    Finds s panic = Unit
    Finds s running = Unit

    Keeps-trans : (r s t : ChunkState bt) → Keeps bt h r s → Keeps bt h s t → Keeps bt h r t
    Keeps-trans r s t a b = (b.0 ∙ a.0, b.1 ∙ a.1, λ k. b.2 (a.2 k))

    search_entity-Finds :
        (fuel i tried idx : ℕ) (start s : ChunkState bt)
        → Keeps bt h start s
        → Keyed bt h start.nisd_map
        → Finds start (search_entity bt h hr req chunk_idx offset entities fuel i tried idx s)
    search_entity-Finds zero i tried idx start s keeps keyed = unfold search_entity in tt
    search_entity-Finds (suc fuel) i tried idx start s keeps keyed =
        search_entity-round bt h hr req chunk_idx offset entities (Finds start) fuel i tried idx s
          (λ _ _. tt) (λ _ _. search_entity-Finds fuel i tried _ start s keeps keyed)
          (λ _ _ s' more.
            search_entity-Finds fuel i (tried + 1) _ start s' (Keeps-trans start s s' keeps more)
              keyed)
          (λ _ u ent dev nisd s' at more sits.
            let (within, (ptr, of_dev, id)) = sits (keeps.2 keyed) in
            (
              ap (is_used idx) (sym keeps.0) ∙ u,
              Keeps-trans start s s' keeps more,
              (
                record { index = idx; entity = ent; device = dev; nisd = ptr },
                (at, within, of_dev),
                refl,
                id,
              ),
            ))

    -- The places of `n` blocks from block `i` on.
    abbrev pub PlacedFrom : ℕ → ℕ → ChunkState bt → Outcome Error (ChunkState bt) → Type 0
    PlacedFrom i n s (ok s') =
        (ps : List Place) × (length ps ≡ n)
        × All (IsIn entities) ps
        × Apart s.picked_entity ps
        × (s'.changes ≡ s.changes ++ all_changes req.vdev (itoa chunk_idx) i ps)
    PlacedFrom i n s (err e) = Unit
    PlacedFrom i n s panic = Unit
    PlacedFrom i n s running = Unit

    abbrev blocks : ℕ → ℕ → ℕ → ℕ → ChunkState bt → Outcome Error (ChunkState bt)
    blocks = blocks_apart bt h hr req chunk_idx offset entities

    -- The state after block `i` is placed on `nisd` in the entity `picked`.
    abbrev after : ℕ → AllocEntry → ℕ → ChunkState bt → ChunkState bt
    after i nisd picked s =
        let s' = gen_block bt h hr req chunk_idx offset i nisd s in
        record s' {
          picked_entity = picked ∷ s'.picked_entity;
          picked_nisd = (h nisd.alloc.ptr).id ∷ s'.picked_nisd;
        }

    changes-after :
        (i picked : ℕ) (nisd : AllocEntry) (s s' : ChunkState bt) (p : ℕ)
        → s'.changes ≡ s.changes
        → (h nisd.alloc.ptr).id ≡ (h p).id
        → (after i nisd picked s').changes
          ≡ s.changes ++ block_changes req.vdev (itoa chunk_idx) i (h p).id
    unfolding gen_block
    changes-after i picked nisd s s' p same id =
        ap
          (λ (cs : List CommitChg).
            cs
            ++ gen_allocation_kv req.vdev.id (itoa chunk_idx) (block_of req.vdev i).0
                (h nisd.alloc.ptr).id (block_of req.vdev i).1)
          same
        ∙ ap (λ (cs : List CommitChg). s.changes ++ cs)
            (gen_allocation_kv-block_changes req.vdev (itoa chunk_idx) i (h nisd.alloc.ptr).id)
        ∙ ap (λ n. s.changes ++ block_changes req.vdev (itoa chunk_idx) i n) id

    Keyed-after :
        (i picked : ℕ) (nisd : AllocEntry) (s s' : ChunkState bt)
        → Keyed bt h s'.nisd_map
        → Keyed bt h (after i nisd picked s').nisd_map
    unfolding gen_block
    Keyed-after i picked nisd s s' k = k

    PlacedFrom-after :
        (i n picked : ℕ) (nisd : AllocEntry) (s s' : ChunkState bt) (p : Place)
        (r : Outcome Error (ChunkState bt))
        → IsIn entities p
        → is_used picked s.picked_entity ≡ false
        → p.index ≡ picked
        → s'.picked_entity ≡ s.picked_entity
        → (after i nisd picked s').changes
          ≡ s.changes ++ block_changes req.vdev (itoa chunk_idx) i (h p.nisd).id
        → PlacedFrom (i + 1) n (after i nisd picked s') r
        → PlacedFrom i (suc n) s r
    unfolding gen_block
    PlacedFrom-after i n picked nisd s s' p (ok t) is_in fresh index same changes
          (ps, count, all, apart, made) =
        (
          p ∷ ps,
          omega (arith, count),
          (is_in, all),
          (
            ap (λ j. is_used j s.picked_entity) index ∙ fresh,
            subst (λ us. Apart us ps)
                (ap (λ j. j ∷ s'.picked_entity) (sym index) ∙ ap (λ us. p.index ∷ us) same) apart,
          ),
          made
              ∙ ap (λ cs. cs ++ all_changes req.vdev (itoa chunk_idx) (i + 1) ps) changes
              ∙ append_assoc s.changes (block_changes req.vdev (itoa chunk_idx) i (h p.nisd).id)
                  (all_changes req.vdev (itoa chunk_idx) (i + 1) ps),
        )
    PlacedFrom-after i n picked nisd s s' p (err e) is_in fresh index same changes rest = tt
    PlacedFrom-after i n picked nisd s s' p panic is_in fresh index same changes rest = tt
    PlacedFrom-after i n picked nisd s s' p running is_in fresh index same changes rest = tt

    pub blocks_apart-PlacedFrom :
        (fuel n i idx : ℕ) (s : ChunkState bt)
        → Keyed bt h s.nisd_map
        → PlacedFrom i n s (blocks_apart bt h hr req chunk_idx offset entities fuel n i idx s)
    unfolding blocks_apart
    blocks_apart-PlacedFrom fuel zero i idx s keyed = ([], refl, tt, tt, sym (append-nil s.changes))
    blocks_apart-PlacedFrom fuel (suc n) i idx s keyed =
        go (search fuel i 0 idx s) refl
          (search_entity-Finds fuel i 0 idx s s (refl, refl, λ k. k) keyed)
          (λ j idx s k. blocks_apart-PlacedFrom fuel n j idx s k)
      where
        go :
            (r : Outcome Error (AllocEntry × ℕ × ℕ × ChunkState bt))
            → search fuel i 0 idx s ≡ r
            → Finds s r
            → ((j idx : ℕ) (s : ChunkState bt)
                → Keyed bt h s.nisd_map
                → PlacedFrom j n s (blocks fuel n j idx s))
            → PlacedFrom i (suc n) s (blocks fuel (suc n) i idx s)
        go (ok (nisd, picked, next, s')) e (fresh, keeps, (p, is_in, index, id)) rest =
            rw (e, blocks, blocks_apart)
              (PlacedFrom-after i n picked nisd s s' p
                (blocks fuel n (i + 1) next (after i nisd picked s')) is_in fresh index keeps.0
                (changes-after i picked nisd s s' p.nisd keeps.1 id)
                (rest (i + 1) next (after i nisd picked s')
                  (Keyed-after i picked nisd s s' (keeps.2 keyed))))
        go (err x) e f rest = rw (e, blocks, blocks_apart) tt
        go panic e f rest = rw (e, blocks, blocks_apart) tt
        go running e f rest = rw (e, blocks, blocks_apart) tt
