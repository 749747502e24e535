-- ===== src/Hierarchy/Register.antt =====
-- The levels of controlplane/ctlplanefuncs/server/hierarchy.go as sets: which NISD IDs the devices hold,
-- and what it is for a level to gain or to lose one.
pub mod Levels
pub mod Rounds
use mathlib.Core.Path.{subst}
use niova_mdsvc.Prelude.{
  ℕ, zero, suc, ◌+◌, String, ◌≡◌, ◌≢◌, refl, sym, ap, ◌∙◌, Bool, true, false, not, ◌&&◌, ◌||◌, ◌↔◌,
  inl, inr, Option, none, some, List, [], ◌∷◌, Outcome, ok, err, panic, arith, length, get_or,
  get_elem?-get_or, All, ◌==◌, str_eq, eq_iff, if◌then◌else◌, Bool-cases, Option-cases,
}
use niova_mdsvc.BTree.{BTree}
use niova_mdsvc.CpLib.{DeviceAlloc, fd_max, device_idx}
use niova_mdsvc.Hierarchy.{
  Heap, Hierarchy, FailureDomain, Entities, entity_id, Error, new_device, add_nisd_to_device,
  remove_nisd_from_device, add_at, delete_at, add_rounds, delete_rounds, add_nisd, delete_nisd,
  init, make_domains,
}
use niova_mdsvc.Hierarchy.View.{device_at, or_new, survivor, device_at-add_at, device_at-delete_at}
use niova_mdsvc.Hierarchy.Devices.{
  IsCounted, has_nisd, has_nisd-nil, has-ne-nil, IsCounted-new_device, add_nisd_to_device-IsCounted,
  remove_nisd_from_device-IsCounted,
}

-- A device whose count is right and that holds a NISD.
pub record IsLive (h : Heap) (dn : DeviceAlloc) : Type 0 where
  pub counted : IsCounted h dn
  pub occupied : dn.nisds ≢ []

abbrev pub held : Heap → String → Option DeviceAlloc → Bool
held h n none = false
held h n (some dn) = has_nisd h n dn.nisds

abbrev pub IsLive? : Heap → Option DeviceAlloc → Type 0
IsLive? h none = Unit
IsLive? h (some dn) = IsLive h dn

module _ (bt : BTree) where
  -- Every device of the level is live.
  abbrev pub IsSound : Heap → FailureDomain bt → Type 0
  IsSound h f = (j k : String) → IsLive? h (device_at bt f j k)

  -- Whether the device `k` of the entity `j` holds a NISD of the ID `n`.
  abbrev pub holds : Heap → FailureDomain bt → String → String → String → Bool
  holds h f j k n = held h n (device_at bt f j k)

  -- `R` holds between each old and new level and the ID that the NISD names for it, in order.
  abbrev pub Levelwise :
      (String → FailureDomain bt → FailureDomain bt → Type 0)
      → List String
      → List (FailureDomain bt)
      → List (FailureDomain bt)
      → Type 0
  Levelwise R [] fs gs = fs ≡ gs
  Levelwise R (id ∷ ids) [] gs = ⊥
  Levelwise R (id ∷ ids) (f ∷ fs) [] = ⊥
  Levelwise R (id ∷ ids) (f ∷ fs) (g ∷ gs) = R id f g × Levelwise R ids fs gs

  -- The new level is sound and holds what the old one held, and `n` in the device `dev` of `id`.
  abbrev pub Gains : Heap → String → String → String → FailureDomain bt → FailureDomain bt → Type 0
  Gains h dev nid id f g =
      IsSound h g
      × ((j k n : String)
          → holds h g j k n ≡ ((str_eq id j && str_eq dev k && str_eq nid n) || holds h f j k n))

  -- The new level is sound and holds what the old one held, but for `n` in the device `dev` of `id`.
  abbrev pub Loses : Heap → String → String → String → FailureDomain bt → FailureDomain bt → Type 0
  Loses h dev nid id f g =
      IsSound h g
      × ((j k n : String)
          → holds h g j k n
            ≡ (not (str_eq id j && str_eq dev k && str_eq nid n) && holds h f j k n))

  make_domains-IsSound :
      (h : Heap) (n i : ℕ)
      → (length (make_domains bt n i) ≡ n) × All (IsSound h) (make_domains bt n i)
  unfolding make_domains device_at
  make_domains-IsSound h zero i = (refl, tt)
  make_domains-IsSound h (suc n) i =
      let (len, each) = make_domains-IsSound h n (i + 1) in
      (
        omega (arith, len),
        (λ j k. rw (bt.get-new (Entities bt) (entity_id bt) j, device_at) tt, each),
      )

  -- `Init` makes a hierarchy of five levels on which every device is live.
  pub init-IsSound : (h : Heap) → (length (init bt).fd ≡ fd_max) × All (IsSound h) (init bt).fd
  unfolding init
  init-IsSound h = make_domains-IsSound h fd_max 0

  -- Levels that gained a NISD are sound.
  pub IsSound-Gains :
      (h : Heap) (dev nid : String) (ids : List String) (fs gs : List (FailureDomain bt))
      → length ids ≡ length fs
      → Levelwise (Gains h dev nid) ids fs gs
      → All (IsSound h) gs
  IsSound-Gains h dev nid [] [] gs e l = subst (All (IsSound h)) l tt
  IsSound-Gains h dev nid [] (f ∷ fs) gs e l = absurd (omega (arith, e))
  IsSound-Gains h dev nid (id ∷ ids) [] gs e l = absurd l
  IsSound-Gains h dev nid (id ∷ ids) (f ∷ fs) [] e l = absurd l
  IsSound-Gains h dev nid (id ∷ ids) (f ∷ fs) (g ∷ gs) e l =
      (l.0.0, IsSound-Gains h dev nid ids fs gs (omega arith) l.1)
