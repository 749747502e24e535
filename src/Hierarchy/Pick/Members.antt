-- ===== src/Hierarchy/Pick/Members.antt =====
-- Where the choices of `PickDevice` and `PickNISDFromDevice` of
-- controlplane/ctlplanefuncs/server/hierarchy.go come from.
use niova_mdsvc.Prelude.{
  ℕ, suc, ◌+◌, String, ◌≡◌, refl, sym, ap, ◌∙◌, true, false, inl, inr, Option, none, some, List, [],
  ◌∷◌, Outcome, ok, err, arith, length, get_elem?, ◌==◌, str_eq, ok_eq, add64, elem, Bool-cases,
  Option-cases, ◌||◌, ◌&&◌, ◌⊎◌, str_eq→eq, slt64, sub64,
}
use mathlib.Core.Path.{subst}
use niova_mdsvc.BTree.{BTree}
use niova_mdsvc.CpLib.{DeviceAlloc, chunk_size}
use niova_mdsvc.CpLib.Blocks.{srem64}
use niova_mdsvc.Hierarchy.{Heap, Entities, Error, no_suitable_nisd}
use niova_mdsvc.Hierarchy.Pick.{
  UsageMap, or_error, DeviceUsageInfo, known_usage, has_room, Fallback, no_fallback, keep_better,
  scan_devices, pick_device, AllocEntry, NisdMap, lookup_n_add_nisd, larger_nisd, better_nisd,
  scan_nisds, pick_nisd_from_device,
}
use niova_mdsvc.Hierarchy.Pick.Space.{entry_of, key-entry_of, get-lookup}

-- An element of a list, with its index.
abbrev pub Within {ℓ} : {A : Type ℓ} → A → List A → Type ℓ
Within a xs = (i : ℕ) × (get_elem? xs i ≡ some a)

some_eq : {A : Type 0} {a b : A} → some a ≡ some b → a ≡ b
some_eq h = cc

-- The device kept as a fallback is one of the list.
Kept : List DeviceAlloc → Fallback → Type 0
Kept devices b = (dn : DeviceAlloc) → b.best ≡ some dn → Within dn devices

Kept-keep_better :
    (devices : List DeviceAlloc) (info : DeviceUsageInfo) (dn : DeviceAlloc) (b : Fallback)
    → Within dn devices
    → Kept devices b
    → Kept devices (keep_better info dn b)
unfolding keep_better Kept
Kept-keep_better devices info dn b w k d e =
    elim (Bool-cases (
      slt64 info.usage b.best_usage
      || (info.usage == b.best_usage && slt64 b.best_avail info.available_size))) [
        | inl t ↦ subst (λ (x : DeviceAlloc). Within x devices) (ground (arith, t, e)) w
        | inr t ↦ k d (ground (arith, t, e))
      ]

scan_devices-Within :
    (picked : List String) (m : UsageMap) (devices : List DeviceAlloc) (offset i : ℕ)
    (scan : List DeviceAlloc) (b : Fallback) (dn : DeviceAlloc)
    → Kept devices b
    → scan_devices picked m devices offset i scan b ≡ some dn
    → Within dn devices
unfolding scan_devices Kept
scan_devices-Within picked m devices offset i [] b dn k h = k dn h
scan_devices-Within picked m devices offset i (_ ∷ scan) b dn k h =
    elim (Option-cases (get_elem? devices (srem64 (add64 offset i) (length devices)))) [
      | inl e ↦
          scan_devices-Within picked m devices offset (i + 1) scan b dn k
            (rw (e, scan_devices) at h)
      | inr (d, e) ↦
          one (λ c. scan_devices-Within picked m devices offset (i + 1) scan c dn) d (_, e)
            (Bool-cases (has_room m d)) (Bool-cases (elem d.id picked)) (rw (e, scan_devices) at h)
    ]
  where
    next : Fallback → Option DeviceAlloc
    next = scan_devices picked m devices offset (i + 1) scan

    one :
        ((c : Fallback) → Kept devices c → next c ≡ some dn → Within dn devices)
        → (d : DeviceAlloc) → Within d devices
        → (has_room m d ≡ true) ⊎ (has_room m d ≡ false)
        → (elem d.id picked ≡ true) ⊎ (elem d.id picked ≡ false)
        → (elim (has_room m d) [
          | false ↦ next b
          | true ↦ elim (elem d.id picked) [
            | false ↦ some d
            | true ↦ next (keep_better (known_usage m d) d b)
          ]
        ])
          ≡ some dn
        → Within dn devices
    one rest d w (inr no_room) _ g = rest b k (rw no_room at g)
    one rest d w (inl room) (inr new) g =
        subst (λ (x : DeviceAlloc). Within x devices) (some_eq (rw new at (rw room at g))) w
    one rest d w (inl room) (inl used) g =
        rest (keep_better (known_usage m d) d b)
          (Kept-keep_better devices (known_usage m d) d b w k) (rw used at (rw room at g))

module _ (bt : BTree) (h : Heap) where
  pub pick_device-Within :
      (ent : Entities bt) (picked : List String) (m : UsageMap) (start : ℕ) (dev : DeviceAlloc)
      → pick_device bt ent picked m start ≡ ok dev
      → Within dev (bt.items ent.devices)
  unfolding pick_device Kept
  pick_device-Within ent picked m start dev e =
      elim (Bool-cases (length (bt.items ent.devices) == 0)) [
        | inl z ↦ absurd (ground (arith, z, e))
        | inr z ↦
            scan_devices-Within picked m (bt.items ent.devices)
              (srem64 start (length (bt.items ent.devices))) 0 (bt.items ent.devices) no_fallback
              dev (λ d g. cc) (or_error-ok _ _ (rw (z, pick_device) at e))
      ]
    where
      or_error-ok : (x : Error) (o : Option DeviceAlloc) → or_error x o ≡ ok dev → o ≡ some dev
      or_error-ok x none g = cc
      or_error-ok x (some d) g = cc

  -- Every entry of the map is for the NISD that its key names.
  abbrev pub Keyed : NisdMap bt → Type 0
  Keyed m = (k : String) (e : AllocEntry) → bt.get k m ≡ some e → (h e.alloc.ptr).id ≡ k

  id-entry_of : (p : ℕ) (m : NisdMap bt) → Keyed m → (h (entry_of bt h p m).alloc.ptr).id ≡ (h p).id
  unfolding lookup_n_add_nisd
  id-entry_of p m keyed = elim (Option-cases (bt.get (h p).id m)) [
    | inl e ↦ rw (e, entry_of, lookup_n_add_nisd) refl
    | inr (x, e) ↦ rw (e, entry_of, lookup_n_add_nisd) (keyed (h p).id x e)
  ]

  Keyed-lookup : (p : ℕ) (m : NisdMap bt) → Keyed m → Keyed (lookup_n_add_nisd bt h p m).1
  Keyed-lookup p m keyed k e g = elim (Bool-cases (str_eq (h p).id k)) [
    | inl same ↦
        let is : entry_of bt h p m ≡ e = some_eq (sym (get-lookup bt h p m k ∙ rw same refl) ∙ g) in
        ap (λ (x : AllocEntry). (h x.alloc.ptr).id) (sym is)
        ∙ id-entry_of p m keyed
        ∙ str_eq→eq (h p).id k same
    | inr other ↦ keyed k e (sym (get-lookup bt h p m k ∙ rw other refl) ∙ g)
  ]

  -- The entry is for a NISD of the list, and so is its key.
  abbrev pub IsFor : List ℕ → AllocEntry → Type 0
  IsFor ps e = (p : ℕ) × Within p ps × ((h e.alloc.ptr).id ≡ (h p).id) × (e.key ≡ (h p).id)

  abbrev IsFor? : List ℕ → Option AllocEntry → Type 0
  IsFor? ps none = Unit
  IsFor? ps (some e) = IsFor ps e

  IsFor?-better_nisd :
      (ps : List ℕ) (picked : List String) (e : AllocEntry) (best : Option AllocEntry)
      → IsFor ps e
      → IsFor? ps best
      → IsFor? ps (better_nisd h picked e best)
  unfolding better_nisd larger_nisd
  IsFor?-better_nisd ps picked e best new old =
      elim (Bool-cases
        (elem (h e.alloc.ptr).id picked || slt64 e.alloc.available_size chunk_size)) [
          | inl skip ↦ rw (skip, better_nisd) old
          | inr take ↦ rw (take, better_nisd) (larger best old)
        ]
    where
      larger : (o : Option AllocEntry) → IsFor? ps o → IsFor? ps (larger_nisd e o)
      larger none a = new
      larger (some o) a = elim (Bool-cases (slt64 o.alloc.available_size e.alloc.available_size)) [
        | inl t ↦ rw (t, larger_nisd) new
        | inr t ↦ rw (t, larger_nisd) a
      ]

  scan_nisds-IsFor? :
      (all : List ℕ) (picked : List String) (ps : List ℕ) (m : NisdMap bt)
      (best : Option AllocEntry)
      → ((p : ℕ) → Within p ps → Within p all)
      → Keyed m
      → IsFor? all best
      → IsFor? all (scan_nisds bt h picked ps m best).0 × Keyed (scan_nisds bt h picked ps m best).1
  unfolding scan_nisds
  scan_nisds-IsFor? all picked [] m best sub keyed old = (old, keyed)
  scan_nisds-IsFor? all picked (p ∷ ps) m best sub keyed old =
      scan_nisds-IsFor? all picked ps _ _ (λ q (i, w). sub q (suc i, w)) (Keyed-lookup p m keyed)
        (IsFor?-better_nisd all picked (entry_of bt h p m) best
          (p, sub p (0, refl), id-entry_of p m keyed, key-entry_of bt h p m) old)

  -- The entry for the chosen NISD.
  Keyed-set :
      (o : AllocEntry) (m : NisdMap bt) → (h o.alloc.ptr).id ≡ o.key → Keyed m → Keyed (bt.set o m)
  Keyed-set o m own keyed k e g = elim (Bool-cases (str_eq o.key k)) [
    | inl same ↦
        let is : e ≡ o = some_eq (sym g ∙ bt.get-set k o m ∙ rw same refl) in
        ap (λ (x : AllocEntry). (h x.alloc.ptr).id) is ∙ own ∙ str_eq→eq o.key k same
    | inr other ↦ keyed k e (sym (bt.get-set k o m ∙ rw other refl) ∙ g)
  ]

  -- The choice of a NISD keeps the map's entries under their NISDs' IDs, and the chosen one is the device's.
  pub pick_nisd_from_device-Keyed :
      (dn : DeviceAlloc) (picked : List String) (m : NisdMap bt)
      → Keyed m
      → Keyed (pick_nisd_from_device bt h dn picked m).1
        × ((o : AllocEntry × List String)
            → (pick_nisd_from_device bt h dn picked m).0 ≡ ok o
            → (p : ℕ) × Within p dn.nisds × ((h o.0.alloc.ptr).id ≡ (h p).id))
  unfolding pick_nisd_from_device
  pick_nisd_from_device-Keyed dn picked m keyed =
      let (is_for, kept) = scan_nisds-IsFor? dn.nisds picked dn.nisds m none (λ p w. w) keyed tt in
      go (scan_nisds bt h picked dn.nisds m none).0 refl is_for kept
    where
      go :
          (best : Option AllocEntry)
          → (scan_nisds bt h picked dn.nisds m none).0 ≡ best
          → IsFor? dn.nisds best
          → Keyed (scan_nisds bt h picked dn.nisds m none).1
          → Keyed (pick_nisd_from_device bt h dn picked m).1
            × ((o : AllocEntry × List String)
                → (pick_nisd_from_device bt h dn picked m).0 ≡ ok o
                → (p : ℕ) × Within p dn.nisds × ((h o.0.alloc.ptr).id ≡ (h p).id))
      go none e a kept = (
        rw (e, pick_nisd_from_device) kept,
        λ o g. absurd (clash o (rw (e, pick_nisd_from_device) at g)),
      )
        where
          clash :
              (o : AllocEntry × List String)
              → ◌≡◌ {A = Outcome Error (AllocEntry × List String)}
                  (err (no_suitable_nisd dn.id))
                  (ok o)
              → ⊥
          clash o g = cc
      go (some c) e (p, w, id, key) kept = (
        rw (e, pick_nisd_from_device) (Keyed-set (less c) _ (id ∙ sym key) kept),
        λ o g. (p, w, ptr o (rw (e, pick_nisd_from_device) at g) ∙ id),
      )
        where
          less : AllocEntry → AllocEntry
          less c = record c {
            alloc = record c.alloc { available_size = sub64 c.alloc.available_size chunk_size };
          }

          ptr :
              (o : AllocEntry × List String)
              → ◌≡◌ {A = Outcome Error (AllocEntry × List String)}
                  (ok (less c, (h c.alloc.ptr).id ∷ picked))
                  (ok o)
              → (h o.0.alloc.ptr).id ≡ (h c.alloc.ptr).id
          ptr o g =
              ap (λ (x : AllocEntry × List String). (h x.0.alloc.ptr).id)
                (sym (ok_eq (ok (less c, (h c.alloc.ptr).id ∷ picked)) refl g))
