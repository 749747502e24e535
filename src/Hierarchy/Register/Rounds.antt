-- ===== src/Hierarchy/Register/Rounds.antt =====
-- Registration in controlplane/ctlplanefuncs/server/hierarchy.go: `AddNisd` and `DeleteNisd` as
-- insertion into and deletion from the sets of NISD IDs that the devices hold, level by level.
use niova_mdsvc.Prelude.{
  ℕ, String, ◌≡◌, refl, List, [], ◌∷◌, ok, arith, length, get_or, get_elem?-get_or, All,
}
use niova_mdsvc.BTree.{BTree}
use niova_mdsvc.CpLib.{fd_max, device_idx}
use niova_mdsvc.Hierarchy.{
  Heap, Hierarchy, FailureDomain, add_at, delete_at, add_rounds, delete_rounds, add_nisd,
  delete_nisd,
}
use niova_mdsvc.Hierarchy.Register.{IsSound, Levelwise, Gains, Loses}
use niova_mdsvc.Hierarchy.Register.Levels.{add_at-Gains, delete_at-Loses}

module _ (bt : BTree) where
  add_rounds-Gains :
      (h : Heap) (dev : String) (p : ℕ) (ids : List String) (fs : List (FailureDomain bt))
      → length ids ≡ length fs
      → All (IsSound bt h) fs
      → (gs : List (FailureDomain bt)) × (add_rounds bt h dev p ids fs ≡ ok gs)
        × Levelwise bt (Gains bt h dev (h p).id) ids fs gs
        × (length gs ≡ length fs)
  unfolding add_rounds
  add_rounds-Gains h dev p [] fs e s = (fs, refl, refl, refl)
  add_rounds-Gains h dev p (id ∷ ids) [] e s = absurd (omega arith)
  add_rounds-Gains h dev p (id ∷ ids) (f ∷ fs) e s =
      let (gs, made, each, len) = add_rounds-Gains h dev p ids fs (omega arith) s.1 in
      (
        add_at bt h dev p f id ∷ gs,
        rw made,
        (add_at-Gains bt h dev p f id s.0, each),
        omega (arith, len),
      )

  delete_rounds-Loses :
      (h : Heap) (dev nid : String) (ids : List String) (fs : List (FailureDomain bt))
      → length ids ≡ length fs
      → All (IsSound bt h) fs
      → (gs : List (FailureDomain bt)) × (delete_rounds bt h dev nid ids fs ≡ ok gs)
        × Levelwise bt (Loses bt h dev nid) ids fs gs
        × (length gs ≡ length fs)
  unfolding delete_rounds
  delete_rounds-Loses h dev nid [] fs e s = (fs, refl, refl, refl)
  delete_rounds-Loses h dev nid (id ∷ ids) [] e s = absurd (omega arith)
  delete_rounds-Loses h dev nid (id ∷ ids) (f ∷ fs) e s =
      let (gs, made, each, len) = delete_rounds-Loses h dev nid ids fs (omega arith) s.1 in
      (
        delete_at bt h dev nid f id ∷ gs,
        rw made,
        (delete_at-Loses bt h dev nid f id s.0, each),
        omega (arith, len),
      )

  -- AddNisd of a NISD with a full failure-domain path succeeds on a sound hierarchy of five levels and,
  -- level by level, inserts the NISD into the set of the one device its path names, changes no other set
  -- and keeps the device counts equal to the sums over their NISDs.
  pub add_nisd-Gains :
      (h : Heap) (p : ℕ) (hr : Hierarchy bt)
      → length (h p).failure_domain ≡ fd_max
      → length hr.fd ≡ fd_max
      → All (IsSound bt h) hr.fd
      → (gs : Hierarchy bt) × (add_nisd bt h p hr ≡ ok gs)
        × Levelwise bt
            (Gains bt h (get_or (h p).failure_domain device_idx "") (h p).id)
            (h p).failure_domain
            hr.fd
            gs.fd
        × (length gs.fd ≡ fd_max)
  unfolding add_nisd
  add_nisd-Gains h p hr full five s =
      let dev = get_or (h p).failure_domain device_idx "" in
      let (gs, made, each, len) =
        add_rounds-Gains h dev p (h p).failure_domain hr.fd (omega arith) s in
      (record hr { fd = gs }, rw (full, made), each, omega (arith, len))

  -- DeleteNisd of a NISD with a full path succeeds on a sound hierarchy of five levels and, level by
  -- level, takes the NISD out of the set of the one device its path names and changes no other set; the
  -- devices that remain have a NISD and a right count.
  pub delete_nisd-Loses :
      (h : Heap) (p : ℕ) (hr : Hierarchy bt)
      → length (h p).failure_domain ≡ fd_max
      → length hr.fd ≡ fd_max
      → All (IsSound bt h) hr.fd
      → (gs : Hierarchy bt) × (delete_nisd bt h p hr ≡ ok gs)
        × Levelwise bt
            (Loses bt h (get_or (h p).failure_domain device_idx "") (h p).id)
            (h p).failure_domain
            hr.fd
            gs.fd
        × (length gs.fd ≡ fd_max)
  unfolding delete_nisd
  delete_nisd-Loses h p hr full five s =
      let dev = get_or (h p).failure_domain device_idx "" in
      let (gs, made, each, len) =
        delete_rounds-Loses h dev (h p).id (h p).failure_domain hr.fd (omega arith) s in
      let at_dev = get_elem?-get_or (h p).failure_domain device_idx "" (omega arith) in
      (record hr { fd = gs }, rw (at_dev, delete_nisd, made), each, omega (arith, len))
