-- ===== src/Hierarchy.antt =====
-- controlplane/ctlplanefuncs/server/hierarchy.go: the tree of failure domains in memory.
-- Each level is a B-tree of entities, each entity a B-tree of devices, each device a list of pointers
-- to NISDs. Entities and devices belong to one tree only, so a write through their pointer is a write
-- of the tree; NISDs are shared between the five levels, so they are read through a heap.
pub mod View
pub mod Devices
pub mod Register
pub mod Pick
pub mod Levels
use niova_mdsvc.Prelude.{
  ℕ, zero, suc, ◌+◌, ◌-◌, ◌%◌, ◌≤◌, String, Bool, true, false, Option, none, some, List, [], ◌∷◌,
  ◌++◌, Outcome, ok, err, panic, ◌>>=◌, length, get_elem?, get_or, ltb, leb, ◌==◌, str_eq,
  if◌then◌else◌, add64, sub64, slt64, elem,
}
use niova_mdsvc.BTree.{BTree}
use niova_mdsvc.CpLib.{
  Nisd, DeviceAlloc, NisdVdevAlloc, Filter, chunk_size, fd_max, device_idx, pdu_idx, minus_one,
}
use niova_mdsvc.CpLib.Domains.{get_fd_idx}

-- A pointer to a NISD is an address; every address that the code holds has a NISD.
abbrev pub Heap : Type 0
Heap = ℕ → Nisd

abbrev pub write : Heap → ℕ → Nisd → Heap
write h p n q = if p == q then n else h q

pub data Error : Type 0 where
  not_enough_failure_domain_info : Error
  fault_tolerance_cannot_be_met : ℕ → Error
  no_devices_in_entity no_suitable_device no_suitable_nisd : String → Error
  invalid_fd_level : Error
  entity_not_found : String → ℕ → Error
  pdu_not_found : String → Error
  nisd_not_found : String → String → Error
  invalid_failure_domain no_entities_available : ℕ → Error
  failed_to_allocate_block : ℕ → ℕ → Error
  unable_to_allocate_nisds : String → Error
  invalid_size : Error

abbrev pub device_id : DeviceAlloc → String
device_id d = d.id

keep_behind : ℕ → Option (ℕ × List ℕ) → Option (ℕ × List ℕ)
keep_behind q none = none
keep_behind q (some (e, rest)) = some (e, q ∷ rest)

-- The loop of `addNisdToDevice`: the first NISD of the same ID is replaced, and handed back.
pub replace_nisd : Heap → ℕ → List ℕ → Option (ℕ × List ℕ)
unfolding keep_behind
replace_nisd h p [] = none
replace_nisd h p (q ∷ qs) =
    let rest = replace_nisd h p qs in
    if str_eq (h q).id (h p).id then some (q, p ∷ qs) else keep_behind q rest

pub add_nisd_to_device : Heap → DeviceAlloc → ℕ → DeviceAlloc
add_nisd_to_device h dn p = elim (replace_nisd h p dn.nisds) [
  | none ↦ record dn {
    nisds = dn.nisds ++ p ∷ [];
    available_size = add64 dn.available_size (h p).available_size;
  }
  | some (existing, nisds) ↦ record dn {
    nisds = nisds;
    available_size =
        add64 dn.available_size (sub64 (h p).available_size (h existing).available_size);
  }
]

-- The loop of `removeNisdFromDevice`: the first NISD of the ID is cut out, and handed back.
pub cut_nisd : Heap → String → List ℕ → Option (ℕ × List ℕ)
unfolding keep_behind
cut_nisd h id [] = none
cut_nisd h id (q ∷ qs) =
    let rest = cut_nisd h id qs in if str_eq (h q).id id then some (q, qs) else keep_behind q rest

is_empty : List ℕ → Bool
is_empty [] = true
is_empty (q ∷ qs) = false

-- The device, and whether it has no NISD left.
pub remove_nisd_from_device : Heap → DeviceAlloc → String → DeviceAlloc × Bool
unfolding is_empty
remove_nisd_from_device h dn id = elim (cut_nisd h id dn.nisds) [
  | none ↦ (dn, is_empty dn.nisds)
  | some (existing, nisds) ↦ (
    record dn {
      nisds = nisds;
      available_size = sub64 dn.available_size (h existing).available_size;
    },
    is_empty nisds,
  )
]

abbrev pub new_device : String → DeviceAlloc
new_device id = record { id = id; available_size = 0; nisds = [] }

module _ (bt : BTree) where
  pub record Entities : Type 0 where
    pub id : String
    pub devices : bt.Tree DeviceAlloc device_id

  abbrev pub entity_id : Entities → String
  entity_id e = e.id

  pub record FailureDomain : Type 0 where
    pub type : ℕ
    pub tree : bt.Tree Entities entity_id

  pub record Hierarchy : Type 0 where
    pub fd : List FailureDomain

  pub make_domains : ℕ → ℕ → List FailureDomain
  make_domains zero i = []
  make_domains (suc n) i =
      record { type = i % 256; tree = bt.new Entities entity_id } ∷ make_domains n (i + 1)

  unfoldable pub init : Hierarchy
  unfolding make_domains
  init = record { fd = make_domains fd_max 0 }

  -- Get or create: the entity, and the domain that now holds it.
  pub get_or_create_entity : FailureDomain → String → Entities × FailureDomain
  get_or_create_entity f id = elim (bt.get id f.tree) [
    | some e ↦ (e, f)
    | none ↦
        let n : Entities = record { id = id; devices = bt.new DeviceAlloc device_id } in
        (n, record f { tree = bt.set n f.tree })
  ]

  pub get_or_create_device_in_entity : Entities → String → DeviceAlloc × Entities
  get_or_create_device_in_entity e dev = elim (bt.get dev e.devices) [
    | some dn ↦ (dn, e)
    | none ↦ (new_device dev, record e { devices = bt.set (new_device dev) e.devices })
  ]

  -- What a write through a device's pointer comes to: the device, its entity and its domain anew.
  pub write_device : FailureDomain → Entities → DeviceAlloc → FailureDomain
  write_device f e dn = record f {
    tree = bt.set (record e { devices = bt.set dn e.devices }) f.tree;
  }

  pub delete_empty_entity : FailureDomain → String → FailureDomain
  delete_empty_entity f id = elim (bt.get id f.tree) [
    | none ↦ f
    | some e ↦
        if length (bt.items e.devices) == 0 then record f { tree = bt.delete id f.tree } else f
  ]

  -- One round of the loop of `AddNisd`.
  pub add_at : Heap → String → ℕ → FailureDomain → String → FailureDomain
  unfolding get_or_create_entity get_or_create_device_in_entity write_device
  add_at h dev p f id =
      let (e, f') = get_or_create_entity f id in
      let (dn, e') = get_or_create_device_in_entity e dev in
      write_device f' e' (add_nisd_to_device h dn p)

  pub add_rounds :
      Heap → String → ℕ → List String → List FailureDomain → Outcome Error (List FailureDomain)
  add_rounds h dev p [] fds = ok fds
  add_rounds h dev p (id ∷ ids) [] = panic
  add_rounds h dev p (id ∷ ids) (f ∷ fds) = do
    rest ← add_rounds h dev p ids fds
    ok (add_at h dev p f id ∷ rest)

  -- `AddNisd`; the test of the available size only logs.
  unfoldable pub add_nisd : Heap → ℕ → Hierarchy → Outcome Error Hierarchy
  unfolding add_rounds
  add_nisd h p hr =
      let ids = (h p).failure_domain in
      if length ids == fd_max
      then (do
        fds ← add_rounds h (get_or ids device_idx "") p ids hr.fd
        ok (record hr { fd = fds }))
      else err not_enough_failure_domain_info

  -- One round of the loop of `DeleteNisd`.
  pub delete_at : Heap → String → String → FailureDomain → String → FailureDomain
  unfolding delete_empty_entity
  delete_at h dev nid f id = elim (bt.get id f.tree) [
    | none ↦ f
    | some e ↦ elim (bt.get dev e.devices) [
      | none ↦ f
      | some dn ↦
          let (dn', empty) = remove_nisd_from_device h dn nid in
          let devices = if empty then bt.delete dev e.devices else bt.set dn' e.devices in
          delete_empty_entity (record f { tree = bt.set (record e { devices = devices }) f.tree })
            id
    ]
  ]

  unfoldable pub delete_rounds :
      Heap → String → String → List String → List FailureDomain → Outcome Error (List FailureDomain)
  delete_rounds h dev nid [] fds = ok fds
  delete_rounds h dev nid (id ∷ ids) [] = panic
  delete_rounds h dev nid (id ∷ ids) (f ∷ fds) = do
    rest ← delete_rounds h dev nid ids fds
    ok (delete_at h dev nid f id ∷ rest)

  -- `DeleteNisd`; a NISD with no device level is an index out of range.
  unfoldable pub delete_nisd : Heap → ℕ → Hierarchy → Outcome Error Hierarchy
  unfolding delete_rounds
  delete_nisd h p hr = elim (get_elem? (h p).failure_domain device_idx) [
    | none ↦ panic
    | some dev ↦ do
      fds ← delete_rounds h dev (h p).id (h p).failure_domain hr.fd
      ok (record hr { fd = fds })
  ]

  pub level_from : ℕ → ℕ → ℕ → List FailureDomain → Outcome Error ℕ
  level_from zero i ft fds = err (fault_tolerance_cannot_be_met ft)
  level_from (suc n) i ft [] = panic
  level_from (suc n) i ft (f ∷ fds) =
      let rest = level_from n (i + 1) ft fds in
      if leb ft (length (bt.items f.tree)) then ok i else rest

  -- `GetFDLevel`: the levels above the device level and that level are tried in turn.
  pub get_fd_level : ℕ → Hierarchy → Outcome Error ℕ
  unfolding level_from
  get_fd_level ft hr = level_from (device_idx + 1) 0 ft hr.fd

  pub get_entity_cnt : ℕ → Hierarchy → ℕ
  get_entity_cnt tier hr = elim (get_elem? hr.fd tier) [
    | none ↦ 0
    | some f ↦ length (bt.items f.tree)
  ]
