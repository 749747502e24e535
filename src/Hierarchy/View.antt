-- ===== src/Hierarchy/View.antt =====
-- A level of controlplane/ctlplanefuncs/server/hierarchy.go seen as one map from an entity's ID and a
-- device's ID to the device, and what adding and deleting a NISD do to that map.
use niova_mdsvc.Prelude.{
  ℕ, String, ◌≡◌, refl, Bool, true, false, ◌&&◌, inl, inr, Option, none, some, arith, length, ◌==◌,
  str_eq, eq_iff, if◌then◌else◌, Option-cases,
}
use niova_mdsvc.BTree.{BTree}
use niova_mdsvc.CpLib.{DeviceAlloc}
use niova_mdsvc.Hierarchy.{
  Heap, Entities, FailureDomain, device_id, new_device, add_nisd_to_device, remove_nisd_from_device,
  add_at, write_device, get_or_create_entity, get_or_create_device_in_entity, delete_at,
  delete_empty_entity,
}

id-add_nisd_to_device :
    (h : Heap) (dn : DeviceAlloc) (p : ℕ) → (add_nisd_to_device h dn p).id ≡ dn.id
unfolding add_nisd_to_device
id-add_nisd_to_device h dn p = ground arith

abbrev pub or_new : String → Option DeviceAlloc → DeviceAlloc
or_new dev none = new_device dev
or_new dev (some dn) = dn

-- A device without its NISD `nid`; it is gone if that was its last.
abbrev pub survivor : Heap → String → Option DeviceAlloc → Option DeviceAlloc
survivor h nid none = none
survivor h nid (some dn) =
    let (dn', empty) = remove_nisd_from_device h dn nid in if empty then none else some dn'

module _ (bt : BTree) where
  abbrev pub device_of : String → Option (Entities bt) → Option DeviceAlloc
  device_of dev none = none
  device_of dev (some e) = bt.get dev e.devices

  -- The device `dev` of the entity `id`, if the level holds one.
  unfoldable pub device_at : FailureDomain bt → String → String → Option DeviceAlloc
  device_at f id dev = device_of dev (bt.get id f.tree)

  device_at-write :
      (f : FailureDomain bt) (e : Entities bt) (dn : DeviceAlloc) (j k : String)
      → device_at (write_device bt f e dn) j k ≡ (
          if str_eq e.id j
          then (if str_eq dn.id k then some dn else bt.get k e.devices)
          else device_at f j k)
  unfolding device_at write_device
  device_at-write f e dn j k =
      rw (bt.get-set j (record e { devices = bt.set dn e.devices }) f.tree)
        (ground (arith, bt.get-set k dn e.devices))

  entity_found :
      (f : FailureDomain bt) (id j k : String)
      → let r = get_or_create_entity bt f id in
        (r.0.id ≡ id)
        × (bt.get k r.0.devices ≡ device_at f id k)
        × (device_at r.1 j k ≡ device_at f j k)
  unfolding device_at get_or_create_entity
  entity_found f id j k = elim (Option-cases (bt.get id f.tree)) [
    | inl e ↦
        rw (e, get_or_create_entity)
          (refl, ground (arith, bt.get-new DeviceAlloc device_id k), new_at e)
    | inr (x, e) ↦ rw (e, get_or_create_entity) (bt.key-get id x f.tree e, refl, refl)
  ]
    where
      new_entity : Entities bt
      new_entity = record { id = id; devices = bt.new DeviceAlloc device_id }

      new_at :
          bt.get id f.tree ≡ none
          → device_at (record f { tree = bt.set new_entity f.tree }) j k ≡ device_at f j k
      new_at e =
          ground
            (arith, bt.get-set j new_entity f.tree, bt.get-new DeviceAlloc device_id k, eq_iff id j)

  device_found :
      (e : Entities bt) (dev k : String)
      → let r = get_or_create_device_in_entity bt e dev in
        (r.0 ≡ or_new dev (bt.get dev e.devices))
        × (r.1.id ≡ e.id)
        × (r.0.id ≡ dev)
        × (bt.get k r.1.devices ≡ (if str_eq dev k then some r.0 else bt.get k e.devices))
  unfolding get_or_create_device_in_entity
  device_found e dev k = elim (Option-cases (bt.get dev e.devices)) [
    | inl m ↦
        rw (m, get_or_create_device_in_entity)
          (refl, refl, refl, bt.get-set k (new_device dev) e.devices)
    | inr (dn, m) ↦
        rw (m, get_or_create_device_in_entity)
          (refl, refl, bt.key-get dev dn e.devices m, ground (arith, eq_iff dev k))
  ]

  -- Adding a NISD adds it to one device, made first where it is missing, and leaves every other.
  pub device_at-add_at :
      (h : Heap) (dev : String) (p : ℕ) (f : FailureDomain bt) (id j k : String)
      → device_at (add_at bt h dev p f id) j k ≡ (
          if str_eq id j && str_eq dev k
          then some (add_nisd_to_device h (or_new dev (device_at f id dev)) p)
          else device_at f j k)
  unfolding device_at add_at
  device_at-add_at h dev p f id j k =
      let (e, f') = get_or_create_entity bt f id in
      let (dn, e') = get_or_create_device_in_entity bt e dev in
      ground (
        arith,
        device_at-write f' e' (add_nisd_to_device h dn p) j k,
        entity_found f id j k,
        entity_found f id j dev,
        device_found e dev k,
        id-add_nisd_to_device h dn p,
        eq_iff id j,
        eq_iff dev k,
      )

  empty-get :
      {A : Type 0} {key : A → String} (t : bt.Tree A key) (k : String)
      → (length (bt.items t) == 0) ≡ true
      → bt.get k t ≡ none
  empty-get t k h = elim (Option-cases (bt.get k t)) [
    | inl e ↦ e
    | inr (a, e) ↦ let (i, lt, _) = bt.index-get k a t e in absurd (ground arith)
  ]

  -- Taking away an entity with no device changes nothing that can be seen.
  device_at-delete_empty :
      (f : FailureDomain bt) (id j k : String)
      → device_at (delete_empty_entity bt f id) j k ≡ device_at f j k
  unfolding device_at delete_empty_entity
  device_at-delete_empty f id j k = elim (Option-cases (bt.get id f.tree)) [
    | inl e ↦ rw (e, delete_empty_entity)
    | inr (x, e) ↦
        rw (e, delete_empty_entity)
          (ground (arith, bt.get-delete j id f.tree, eq_iff id j, empty-get x.devices k))
  ]

  id-remove_nisd_from_device :
      (h : Heap) (dn : DeviceAlloc) (nid : String) → (remove_nisd_from_device h dn nid).0.id ≡ dn.id
  unfolding remove_nisd_from_device
  id-remove_nisd_from_device h dn nid = ground arith

  device_at-replace_devices :
      (f : FailureDomain bt) (e : Entities bt) (t : bt.Tree DeviceAlloc device_id) (j k : String)
      → device_at (record f { tree = bt.set (record e { devices = t }) f.tree }) j k
        ≡ (if str_eq e.id j then bt.get k t else device_at f j k)
  unfolding device_at
  device_at-replace_devices f e t j k =
      rw (bt.get-set j (record e { devices = t }) f.tree) (ground arith)

  get-pruned :
      (dev k : String) (dn : DeviceAlloc) (empty : Bool) (t : bt.Tree DeviceAlloc device_id)
      → dn.id ≡ dev
      → bt.get k (if empty then bt.delete dev t else bt.set dn t)
        ≡ (if str_eq dev k then (if empty then none else some dn) else bt.get k t)
  get-pruned dev k dn true t h = bt.get-delete k dev t
  get-pruned dev k dn false t h = rw (← h) (bt.get-set k dn t)

  -- Deleting a NISD takes it from one device, and leaves every other.
  pub device_at-delete_at :
      (h : Heap) (dev nid : String) (f : FailureDomain bt) (id j k : String)
      → device_at (delete_at bt h dev nid f id) j k ≡ (
          if str_eq id j && str_eq dev k
          then survivor h nid (device_at f id dev)
          else device_at f j k)
  unfolding device_at delete_at
  device_at-delete_at h dev nid f id j k = elim (Option-cases (bt.get id f.tree)) [
    | inl e ↦ rw (e, delete_at) (ground (arith, eq_iff id j))
    | inr (x, e) ↦ elim (Option-cases (bt.get dev x.devices)) [
      | inl m ↦ rw (e, m, delete_at) (ground (arith, eq_iff id j, eq_iff dev k))
      | inr (dn, m) ↦
          let (dn', empty) = remove_nisd_from_device h dn nid in
          let t = if empty then bt.delete dev x.devices else bt.set dn' x.devices in
          rw (e, m, delete_at)
            (ground (
              arith,
              device_at-delete_empty (record f { tree = bt.set (record x { devices = t }) f.tree })
                  id j k,
              device_at-replace_devices f x t j k,
              get-pruned dev k dn' empty x.devices,
              id-remove_nisd_from_device h dn nid,
              bt.key-get id x f.tree e,
              bt.key-get dev dn x.devices m,
              eq_iff id j,
              eq_iff dev k,
            ))
    ]
  ]
