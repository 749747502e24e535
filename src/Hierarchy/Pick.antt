-- ===== src/Hierarchy/Pick.antt =====
-- Selection in controlplane/ctlplanefuncs/server/hierarchy.go: `PickDevice`, `LookupNAddNisd`,
-- `PickNISDFromDevice`, and the lookups of an entity and of a NISD.
pub mod Rotation
pub mod Ends
pub mod Filtered
pub mod Choice
pub mod Largest
pub mod Space
pub mod Members
use niova_mdsvc.Prelude.{
  ℕ, zero, suc, ◌+◌, ◌-◌, ◌%◌, String, Bool, true, false, not, ◌&&◌, ◌||◌, Option, none, some, List,
  [], ◌∷◌, Outcome, ok, err, panic, ◌>>=◌, length, get_elem?, leb, ◌==◌, str_eq, if◌then◌else◌,
  add64, sub64, slt64, two63, elem,
}
use niova_mdsvc.BTree.{BTree}
use niova_mdsvc.CpLib.{Nisd, DeviceAlloc, NisdVdevAlloc, Filter, chunk_size, pdu_idx, minus_one}
use niova_mdsvc.CpLib.Blocks.{srem64}
use niova_mdsvc.CpLib.Domains.{get_fd_idx}
use niova_mdsvc.Hierarchy.{
  Heap, Hierarchy, FailureDomain, Entities, entity_id, Error, no_devices_in_entity,
  no_suitable_device, no_suitable_nisd, invalid_fd_level, entity_not_found, pdu_not_found,
  nisd_not_found, invalid_size,
}

-- `DeviceUsageInfo`, and the map from device IDs to it: the first entry of an ID counts.
pub record DeviceUsageInfo : Type 0 where
  pub usage : ℕ
  pub available_size : ℕ

abbrev pub UsageMap : Type 0
UsageMap = List (String × DeviceUsageInfo)

pub usage_of : String → UsageMap → Option DeviceUsageInfo
usage_of k [] = none
usage_of k ((j, v) ∷ m) = if str_eq j k then some v else usage_of k m

-- What `PickDevice` goes by for a device: the vdev's own figures, or else the tree's.
unfoldable pub known_usage : UsageMap → DeviceAlloc → DeviceUsageInfo
unfolding usage_of
known_usage m dn = elim (usage_of dn.id m) [
  | none ↦ record { usage = 0; available_size = dn.available_size }
  | some info ↦ info
]

unfoldable pub has_room : UsageMap → DeviceAlloc → Bool
has_room m dn = not (slt64 (known_usage m dn).available_size chunk_size)

-- The best device so far among those picked before, with its figures.
pub record Fallback : Type 0 where
  pub best : Option DeviceAlloc
  pub best_usage : ℕ
  pub best_avail : ℕ

abbrev pub no_fallback : Fallback
no_fallback = record { best = none; best_usage = two63 - 1; best_avail = 0 }

pub keep_better : DeviceUsageInfo → DeviceAlloc → Fallback → Fallback
keep_better info dn b =
    if slt64 info.usage b.best_usage
      || (info.usage == b.best_usage && slt64 b.best_avail info.available_size)
    then record { best = some dn; best_usage = info.usage; best_avail = info.available_size }
    else b

-- The scan's callback, for round `i` on; it is called once for each item of `scan`.
pub scan_devices :
    List String
    → UsageMap
    → List DeviceAlloc
    → ℕ
    → ℕ
    → List DeviceAlloc
    → Fallback
    → Option DeviceAlloc
scan_devices picked m devices offset i [] b = b.best
scan_devices picked m devices offset i (_ ∷ scan) b =
    elim (get_elem? devices (srem64 (add64 offset i) (length devices))) [
      | none ↦ scan_devices picked m devices offset (i + 1) scan b
      | some dn ↦ elim (has_room m dn) [
        | false ↦ scan_devices picked m devices offset (i + 1) scan b
        | true ↦ elim (elem dn.id picked) [
          | false ↦ some dn
          | true ↦
              scan_devices picked m devices offset (i + 1) scan
                (keep_better (known_usage m dn) dn b)
        ]
      ]
    ]

abbrev pub or_error {ℓ} : {A : Type ℓ} {E : Type ℓ} → E → Option A → Outcome E A
or_error e none = err e
or_error e (some a) = ok a

-- One entry of the map from NISD IDs to the space left there.
pub record AllocEntry : Type 0 where
  pub key : String
  pub alloc : NisdVdevAlloc

abbrev pub alloc_key : AllocEntry → String
alloc_key a = a.key

larger_nisd : AllocEntry → Option AllocEntry → Option AllocEntry
larger_nisd e none = some e
larger_nisd e (some o) =
    if slt64 o.alloc.available_size e.alloc.available_size then some e else some o

-- One round of the loop of `PickNISDFromDevice`.
unfoldable pub better_nisd : Heap → List String → AllocEntry → Option AllocEntry → Option AllocEntry
unfolding larger_nisd
better_nisd h picked e best =
    if elem (h e.alloc.ptr).id picked || slt64 e.alloc.available_size chunk_size
    then best
    else larger_nisd e best

find_nisd : Heap → String → List ℕ → Option ℕ
find_nisd h n [] = none
find_nisd h n (p ∷ ps) = let rest = find_nisd h n ps in if str_eq (h p).id n then some p else rest

first_nisd : Heap → String → List DeviceAlloc → Option ℕ
unfolding find_nisd
first_nisd h n [] = none
first_nisd h n (dn ∷ dns) =
    let rest = first_nisd h n dns in elim (find_nisd h n dn.nisds) [ some p ↦ some p | none ↦ rest ]

module _ (bt : BTree) where
  abbrev pub NisdMap : Type 0
  NisdMap = bt.Tree AllocEntry alloc_key

  unfoldable pub pick_device : Entities bt → List String → UsageMap → ℕ → Outcome Error DeviceAlloc
  unfolding scan_devices
  pick_device ent picked m start_offset =
      let devices = bt.items ent.devices in
      if length devices == 0
      then err (no_devices_in_entity ent.id)
      else or_error (no_suitable_device ent.id) (
          scan_devices picked m devices (srem64 start_offset (length devices)) 0 devices
            no_fallback)

  -- `LookupNAddNisd`: the entry of a NISD, and the map that now holds it.
  unfoldable pub lookup_n_add_nisd : Heap → ℕ → NisdMap → AllocEntry × NisdMap
  lookup_n_add_nisd h p m = elim (bt.get (h p).id m) [
    | some e ↦ (e, m)
    | none ↦
        let e : AllocEntry = record {
          key = (h p).id;
          alloc = record { available_size = (h p).available_size; ptr = p };
        } in
        (e, bt.set e m)
  ]

  unfoldable pub scan_nisds :
      Heap → List String → List ℕ → NisdMap → Option AllocEntry → Option AllocEntry × NisdMap
  scan_nisds h picked [] m best = (best, m)
  scan_nisds h picked (p ∷ ps) m best =
      let (e, m') = lookup_n_add_nisd h p m in
      scan_nisds h picked ps m' (better_nisd h picked e best)

  -- The entry that was chosen, with a chunk less, the picked IDs and the map. An error too leaves the
  -- entries that the loop made.
  unfoldable pub pick_nisd_from_device :
      Heap
      → DeviceAlloc
      → List String
      → NisdMap
      → Outcome Error (AllocEntry × List String) × NisdMap
  pick_nisd_from_device h dn picked m =
      let (best, m') = scan_nisds h picked dn.nisds m none in
      elim best [
        | none ↦ (err (no_suitable_nisd dn.id), m')
        | some o ↦
            let left = sub64 o.alloc.available_size chunk_size in
            let o' = record o { alloc = record o.alloc { available_size = left } } in
            (ok (o', (h o.alloc.ptr).id ∷ picked), bt.set o' m')
      ]

  -- `GetEntityByID`: the filter's level is looked up without a test of the index.
  pub get_entity_by_id : Hierarchy bt → Filter → Outcome Error (Entities bt)
  get_entity_by_id hr ft =
      if ft.type == minus_one
      then err invalid_fd_level
      else elim (get_elem? hr.fd (get_fd_idx ft.type)) [
        | none ↦ panic
        | some f ↦ or_error (entity_not_found ft.id (get_fd_idx ft.type)) (bt.get ft.id f.tree)
      ]

  unfoldable pub get_nisd_by_pdu_id : Heap → Hierarchy bt → String → String → Outcome Error ℕ
  unfolding first_nisd
  get_nisd_by_pdu_id h hr pdu n = elim (get_elem? hr.fd pdu_idx) [
    | none ↦ panic
    | some f ↦ elim (bt.get pdu f.tree) [
      | none ↦ err (pdu_not_found pdu)
      | some e ↦ or_error (nisd_not_found n pdu) (first_nisd h n (bt.items e.devices))
    ]
  ]

-- The start index from a hash, `GetIdxForNisdAlloc`.
unfoldable pub get_idx_for_nisd_alloc : ℕ → ℕ → Outcome Error ℕ
get_idx_for_nisd_alloc hash size = if size == 0 then err invalid_size else ok (hash % size)
