-- ===== src/Alloc/Placement.antt =====
-- One block of `allocateNisdPerChunk` of controlplane/ctlplanefuncs/server/srvctlplanefuncs.go: its device and
-- NISD are part of the entity that is searched.
use niova_mdsvc.Prelude.{ℕ, String, ◌≡◌, refl, List, Outcome, ok, err, panic, running, add64, ok_eq}
use mathlib.Core.Path.{subst}
use niova_mdsvc.BTree.{BTree}
use niova_mdsvc.CpLib.{VdevReq, DeviceAlloc}
use niova_mdsvc.Hierarchy.{Heap, Hierarchy, Entities, Error}
use niova_mdsvc.Hierarchy.Pick.{AllocEntry, pick_device, pick_nisd_from_device}
use niova_mdsvc.Hierarchy.Pick.Members.{
  Within, Keyed, pick_device-Within, pick_nisd_from_device-Keyed,
}
use niova_mdsvc.Alloc.{ChunkState, place_block}

module _ (bt : BTree) (h : Heap) where
  -- The device is the entity's, and the NISD has the ID of one of the device's.
  abbrev pub Sits : Entities bt → DeviceAlloc → AllocEntry → Type 0
  Sits ent dev nisd =
      Within dev (bt.items ent.devices)
      × ((p : ℕ) × Within p dev.nisds × ((h nisd.alloc.ptr).id ≡ (h p).id))

  -- The changes are as before, and the map's entries still under their NISDs' IDs.
  abbrev pub Keeps : ChunkState bt → ChunkState bt → Type 0
  Keeps s s' =
      (s'.picked_entity ≡ s.picked_entity)
      × (s'.changes ≡ s.changes)
      × (Keyed bt h s.nisd_map → Keyed bt h s'.nisd_map)

  module _ (hr : Hierarchy bt) (req : VdevReq) (chunk_idx offset : ℕ) where
    pub place_block-Sits :
        (ent : Entities bt) (i : ℕ) (s : ChunkState bt)
        → Keeps s (place_block bt h hr req chunk_idx offset ent i s).1
          × ((dev : DeviceAlloc) (nisd : AllocEntry)
              → (place_block bt h hr req chunk_idx offset ent i s).0 ≡ ok (dev, nisd)
              → Keyed bt h s.nisd_map
              → Sits ent dev nisd)
    unfolding place_block
    place_block-Sits ent i s = device (pick_device bt ent s.picked_devices s.usage start) refl
      where
        start : ℕ
        start = add64 (add64 chunk_idx offset) i

        Goal : Outcome Error (DeviceAlloc × AllocEntry) × ChunkState bt → Type 0
        Goal r =
            Keeps s r.1
            × ((dev : DeviceAlloc) (nisd : AllocEntry)
                → r.0 ≡ ok (dev, nisd)
                → Keyed bt h s.nisd_map
                → Sits ent dev nisd)

        kept : Keeps s s
        kept = (refl, refl, λ k. k)

        nisd_of :
            (dev : DeviceAlloc)
            → pick_device bt ent s.picked_devices s.usage start ≡ ok dev
            → (r : Outcome Error (AllocEntry × List String))
            → (pick_nisd_from_device bt h dev s.picked_nisd s.nisd_map).0 ≡ r
            → Goal (place_block bt h hr req chunk_idx offset ent i s)
        nisd_of dev e (ok (nisd, picked)) g =
            rw (e, place_block)
              (rw (g, place_block)
                (
                  (
                    refl,
                    refl,
                    λ k. (pick_nisd_from_device-Keyed bt h dev s.picked_nisd s.nisd_map k).0,
                  ),
                  λ d n x k.
                      subst (λ (o : DeviceAlloc × AllocEntry). Sits ent o.0 o.1)
                        (ok_eq {E = Error} (ok (dev, nisd)) refl x)
                        (
                          pick_device-Within bt h ent s.picked_devices s.usage start dev e,
                          (pick_nisd_from_device-Keyed bt h dev s.picked_nisd s.nisd_map k).1
                              (nisd, picked) g,
                        ),
                ))
        nisd_of dev e (err x) g =
            rw (e, place_block)
              (rw (g, place_block)
                (
                  (
                    refl,
                    refl,
                    λ k. (pick_nisd_from_device-Keyed bt h dev s.picked_nisd s.nisd_map k).0,
                  ),
                  λ d n y. cc,
                ))
        nisd_of dev e panic g = rw (e, place_block) (rw (g, place_block) (kept, λ d n x. cc))
        nisd_of dev e running g = rw (e, place_block) (rw (g, place_block) (kept, λ d n x. cc))

        device :
            (r : Outcome Error DeviceAlloc)
            → pick_device bt ent s.picked_devices s.usage start ≡ r
            → Goal (place_block bt h hr req chunk_idx offset ent i s)
        device (ok dev) e =
            nisd_of dev e (pick_nisd_from_device bt h dev s.picked_nisd s.nisd_map).0 refl
        device (err x) e = rw (e, place_block) (kept, λ d n x. cc)
        device panic e = rw (e, place_block) (kept, λ d n x. cc)
        device running e = rw (e, place_block) (kept, λ d n x. cc)
