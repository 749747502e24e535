-- ===== src/Alloc/Apply.antt =====
-- What becomes of an allocation in controlplane/ctlplanefuncs/server/srvctlplanefuncs.go: the available
-- sizes that `commitAllocChgs` writes, and `applyNISDAlloc`, which carries them over to the hierarchy.
use niova_mdsvc.Prelude.{
  ℕ, String, none, some, List, [], ◌∷◌, map, Outcome, ok, panic, ◌>>=◌, get_elem?, if◌then◌else◌,
  sub64, slt64, itoa,
}
use niova_mdsvc.BTree.{BTree}
use niova_mdsvc.CpLib.{Nisd, chunk_size, device_idx}
use niova_mdsvc.Commit.{CommitChg, change, get_conf_key, nisd_cfg_key, avail_space, ◌/◌}
use niova_mdsvc.Hierarchy.{Heap, write, Hierarchy, FailureDomain, Error, delete_nisd}
use niova_mdsvc.Hierarchy.Devices.Resize.{resize_device}
use niova_mdsvc.Hierarchy.Pick.{AllocEntry}

-- `commitAllocChgs` adds these changes to the transaction.
unfoldable pub alloc_changes : Heap → List AllocEntry → List CommitChg
alloc_changes h es =
    map
      (λ (e : AllocEntry).
        change (get_conf_key nisd_cfg_key (h e.alloc.ptr).id / avail_space)
          (itoa e.alloc.available_size))
      es

module _ (bt : BTree) where
  -- The loop over the NISD's IDs on one level; it stops at the first entity that has the device.
  pub resize_level : String → ℕ → List String → FailureDomain bt → FailureDomain bt
  unfolding resize_device
  resize_level dev delta [] f = f
  resize_level dev delta (id ∷ ids) f =
      let rest = resize_level dev delta ids f in
      elim (bt.get id f.tree) [
        | none ↦ rest
        | some e ↦ elim (bt.get dev e.devices) [
          | none ↦ rest
          | some dn ↦ record f {
            tree = bt.set (record e { devices = bt.set (resize_device dn delta) e.devices }) f.tree;
          }
        ]
      ]

  -- One NISD: the write of its size, then the hierarchy.
  unfoldable pub apply_entry :
      Heap → Hierarchy bt → AllocEntry → Outcome Error (Heap × Hierarchy bt)
  unfolding resize_level
  apply_entry h hr e =
      let p = e.alloc.ptr in
      let delta = sub64 e.alloc.available_size (h p).available_size in
      let n : Nisd = record (h p) { available_size = e.alloc.available_size } in
      let h' = write h p n in
      if slt64 e.alloc.available_size chunk_size
      then (do hr' ← delete_nisd bt h' p hr; ok (h', hr'))
      else elim (get_elem? n.failure_domain device_idx) [
        | none ↦ panic
        | some dev ↦ ok (h', record hr { fd = map (resize_level dev delta n.failure_domain) hr.fd })
      ]

  -- `applyNISDAlloc` on the map's entries in the order of their keys.
  unfoldable pub apply_nisd_alloc :
      Heap → Hierarchy bt → List AllocEntry → Outcome Error (Heap × Hierarchy bt)
  unfolding apply_entry
  apply_nisd_alloc h hr [] = ok (h, hr)
  apply_nisd_alloc h hr (e ∷ es) = do (h', hr') ← apply_entry h hr e; apply_nisd_alloc h' hr' es
