-- ===== src/Hierarchy/Pick/Ends.antt =====
-- `PickDevice` and `PickNISDFromDevice` of controlplane/ctlplanefuncs/server/hierarchy.go return.
use niova_mdsvc.Prelude.{
  String, List, Option, none, some, ℕ, Ends, Bool-cases, length, ◌==◌, inl, inr, arith,
}
use niova_mdsvc.BTree.{BTree}
use niova_mdsvc.CpLib.{DeviceAlloc}
use niova_mdsvc.Hierarchy.{Heap, Entities}
use niova_mdsvc.Hierarchy.Pick.{UsageMap, NisdMap, or_error, pick_device, pick_nisd_from_device}

pub Ends-or_error {ℓ} : {E A : Type ℓ} (e : E) (o : Option A) → Ends (or_error e o)
Ends-or_error e none = tt
Ends-or_error e (some a) = tt

module _ (bt : BTree) where
  pub Ends-pick_device :
      (ent : Entities bt) (picked : List String) (m : UsageMap) (start : ℕ)
      → Ends (pick_device bt ent picked m start)
  unfolding pick_device
  Ends-pick_device ent picked m start = elim (Bool-cases (length (bt.items ent.devices) == 0)) [
    | inl e ↦ rw e tt
    | inr e ↦ rw e (Ends-or_error _ _)
  ]

  pub Ends-pick_nisd_from_device :
      (h : Heap) (dn : DeviceAlloc) (picked : List String) (m : NisdMap bt)
      → Ends (pick_nisd_from_device bt h dn picked m).0
  unfolding pick_nisd_from_device
  Ends-pick_nisd_from_device h dn picked m = ground arith
