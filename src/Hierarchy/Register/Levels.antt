-- ===== src/Hierarchy/Register/Levels.antt =====
-- One round of `AddNisd` and of `DeleteNisd` in controlplane/ctlplanefuncs/server/hierarchy.go, on the set
-- of NISD IDs that each device of a level holds.
use niova_mdsvc.Prelude.{
  ℕ, String, ◌≡◌, refl, sym, ap, ◌∙◌, Bool, true, false, not, ◌&&◌, ◌||◌, ◌↔◌, inl, inr, Option,
  none, some, [], arith, str_eq, eq_iff, if◌then◌else◌, Bool-cases,
}
use niova_mdsvc.BTree.{BTree}
use niova_mdsvc.CpLib.{DeviceAlloc}
use niova_mdsvc.Hierarchy.{
  Heap, FailureDomain, add_nisd_to_device, remove_nisd_from_device, add_at, delete_at,
}
use niova_mdsvc.Hierarchy.View.{device_at, or_new, survivor, device_at-add_at, device_at-delete_at}
use niova_mdsvc.Hierarchy.Devices.{
  IsCounted, has_nisd, has_nisd-nil, has-ne-nil, IsCounted-new_device, add_nisd_to_device-IsCounted,
  remove_nisd_from_device-IsCounted,
}
use niova_mdsvc.Hierarchy.Register.{IsLive, held, IsLive?, IsSound, holds, Gains, Loses}

-- One device, made anew or found, after a NISD is added.
added :
    (h : Heap) (dev : String) (p : ℕ) (o : Option DeviceAlloc)
    → IsLive? h o
    → let dn = add_nisd_to_device h (or_new dev o) p in
      IsLive h dn × ((n : String) → has_nisd h n dn.nisds ≡ (str_eq (h p).id n || held h n o))
added h dev p o v = (
  record {
    counted = grown.0;
    occupied = has-ne-nil h (h p).id _ (ground (arith, grown.1 (h p).id, eq_iff (h p).id (h p).id));
  },
  λ n. grown.1 n ∙ ap (λ b. str_eq (h p).id n || b) (before o n),
)
  where
    before : (o : Option DeviceAlloc) (n : String) → has_nisd h n (or_new dev o).nisds ≡ held h n o
    before none n = has_nisd-nil h n
    before (some dn) n = refl

    counted : (o : Option DeviceAlloc) → IsLive? h o → IsCounted h (or_new dev o)
    counted none v = IsCounted-new_device h dev
    counted (some dn) v = v.counted

    grown :
        let dn = add_nisd_to_device h (or_new dev o) p in
        IsCounted h dn
        × ((n : String)
            → has_nisd h n dn.nisds ≡ (str_eq (h p).id n || has_nisd h n (or_new dev o).nisds))
    grown = add_nisd_to_device-IsCounted h (or_new dev o) p (counted o v)

removed :
    (h : Heap) (nid : String) (o : Option DeviceAlloc)
    → IsLive? h o
    → IsLive? h (survivor h nid o)
      × ((n : String) → held h n (survivor h nid o) ≡ (not (str_eq nid n) && held h n o))
removed h nid none v = (tt, λ n. ground arith)
removed h nid (some dn) v = go (remove_nisd_from_device h dn nid).1 refl
  where
    shrunk :
        let (dn', empty) = remove_nisd_from_device h dn nid in
        IsCounted h dn'
        × ((n : String) → has_nisd h n dn'.nisds ≡ (not (str_eq nid n) && has_nisd h n dn.nisds))
        × ((empty ≡ true) ↔ (dn'.nisds ≡ []))
    shrunk = remove_nisd_from_device-IsCounted h dn nid v.counted

    go :
        (b : Bool)
        → (remove_nisd_from_device h dn nid).1 ≡ b
        → IsLive? h (survivor h nid (some dn))
          × ((n : String)
              → held h n (survivor h nid (some dn)) ≡ (not (str_eq nid n) && has_nisd h n dn.nisds))
    go true e =
        rw e (tt, λ n. sym (has_nisd-nil h n) ∙ ap (has_nisd h n) (sym (shrunk.2.0 e)) ∙ shrunk.1 n)
    go false e =
        rw e (record { counted = shrunk.0; occupied = λ m. cc (shrunk.2.1 m, e) }, shrunk.1)

module _ (bt : BTree) where
  pub add_at-Gains :
      (h : Heap) (dev : String) (p : ℕ) (f : FailureDomain bt) (id : String)
      → IsSound bt h f
      → Gains bt h dev (h p).id id f (add_at bt h dev p f id)
  add_at-Gains h dev p f id s = (
    λ j k. rw (device_at-add_at bt h dev p f id j k) (sound j k),
    λ j k n. rw (device_at-add_at bt h dev p f id j k) (holding j k n),
  )
    where
      new :
          let dn = add_nisd_to_device h (or_new dev (device_at bt f id dev)) p in
          IsLive h dn
          × ((n : String)
              → has_nisd h n dn.nisds ≡ (str_eq (h p).id n || held h n (device_at bt f id dev)))
      new = added h dev p (device_at bt f id dev) (s id dev)

      sound :
          (j k : String)
          → IsLive? h (
              if str_eq id j && str_eq dev k
              then some (add_nisd_to_device h (or_new dev (device_at bt f id dev)) p)
              else device_at bt f j k)
      sound j k = elim (Bool-cases (str_eq id j && str_eq dev k)) [
        | inl e ↦ rw e new.0
        | inr e ↦ rw e (s j k)
      ]

      holding :
          (j k n : String)
          → held h n (
              if str_eq id j && str_eq dev k
              then some (add_nisd_to_device h (or_new dev (device_at bt f id dev)) p)
              else device_at bt f j k)
            ≡ ((str_eq id j && str_eq dev k && str_eq (h p).id n) || holds bt h f j k n)
      holding j k n = ground (arith, new.1 n, eq_iff id j, eq_iff dev k)

  pub delete_at-Loses :
      (h : Heap) (dev nid : String) (f : FailureDomain bt) (id : String)
      → IsSound bt h f
      → Loses bt h dev nid id f (delete_at bt h dev nid f id)
  delete_at-Loses h dev nid f id s = (
    λ j k. rw (device_at-delete_at bt h dev nid f id j k) (sound j k),
    λ j k n. rw (device_at-delete_at bt h dev nid f id j k) (holding j k n),
  )
    where
      rest :
          IsLive? h (survivor h nid (device_at bt f id dev))
          × ((n : String)
              → held h n (survivor h nid (device_at bt f id dev))
                ≡ (not (str_eq nid n) && holds bt h f id dev n))
      rest = removed h nid (device_at bt f id dev) (s id dev)

      sound :
          (j k : String)
          → IsLive? h (
              if str_eq id j && str_eq dev k
              then survivor h nid (device_at bt f id dev)
              else device_at bt f j k)
      sound j k = elim (Bool-cases (str_eq id j && str_eq dev k)) [
        | inl e ↦ rw e rest.0
        | inr e ↦ rw e (s j k)
      ]

      holding :
          (j k n : String)
          → held h n (
              if str_eq id j && str_eq dev k
              then survivor h nid (device_at bt f id dev)
              else device_at bt f j k)
            ≡ (not (str_eq id j && str_eq dev k && str_eq nid n) && holds bt h f j k n)
      holding j k n = ground (arith, rest.1 n, eq_iff id j, eq_iff dev k)
