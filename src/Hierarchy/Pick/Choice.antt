-- ===== src/Hierarchy/Pick/Choice.antt =====
-- What `PickDevice` of controlplane/ctlplanefuncs/server/hierarchy.go chooses in an entity.
use native.Mathlib.Nat.{mod-eq_of_lt, mod-lt, add-mod_right}
use niova_mdsvc.Prelude.{
  ℕ, ◌+◌, ◌-◌, ◌%◌, ◌^◌, ◌<◌, String, ◌≡◌, refl, ◌∙◌, ◌⊎◌, inl, inr, true, false, Option, none,
  some, List, Outcome, ok, err, panic, running, arith, length, elem, ltb, add64, two63, ◌==◌,
  Bool-cases, lt→ltb,
}
use niova_mdsvc.BTree.{BTree}
use niova_mdsvc.CpLib.{DeviceAlloc}
use niova_mdsvc.CpLib.Blocks.{srem64}
use niova_mdsvc.Hierarchy.{Entities, Error}
use niova_mdsvc.Hierarchy.Pick.{UsageMap, known_usage, has_room, no_fallback, pick_device, or_error}
use niova_mdsvc.Hierarchy.Pick.Rotation.{IsRanged, not_worse, visited, Chosen, scan_devices-Chosen}

srem64-eq-mod : (x n : ℕ) → x < two63 → srem64 x n ≡ x % n
srem64-eq-mod x n h = rw (lt→ltb x two63 h)

-- The rotation from `o` reaches the index `j` in some round.
rotation_reaches :
    (n o j : ℕ) → n < 2 ^ 62 → o < n → j < n → (t : ℕ) × (t < n) × (srem64 (add64 o t) n ≡ j)
rotation_reaches n o j hn ho hj = elim (Bool-cases (ltb j o)) [
  | inl before ↦
      let sum : add64 o (j + n - o) ≡ j + n = ground arith in
      (
        j + n - o,
        ground arith,
        rw sum (srem64-eq-mod (j + n) n (omega arith) ∙ add-mod_right j n ∙ mod-eq_of_lt hj),
      )
  | inr after ↦
      let sum : add64 o (j - o) ≡ j = ground arith in
      (j - o, ground arith, rw sum (srem64-eq-mod j n (omega arith) ∙ mod-eq_of_lt hj))
]

module _ (bt : BTree) (ent : Entities bt) (picked : List String) (m : UsageMap) where
  -- A device of the entity with room for a chunk. If it was picked before, so was every device with room,
  -- and none of these has less usage, or the same usage and more space. An error means that no device
  -- has room.
  abbrev pub Choice : Outcome Error DeviceAlloc → Type 0
  Choice (ok dn) =
      (bt.get dn.id ent.devices ≡ some dn)
      × (has_room m dn ≡ true)
      × ((elem dn.id picked ≡ false)
          ⊎ ((d : DeviceAlloc)
              → bt.get d.id ent.devices ≡ some d
              → has_room m d ≡ true
              → (elem d.id picked ≡ true)
                × (not_worse (known_usage m dn) (known_usage m d) ≡ true)))
  Choice (err e) =
      (k : String) (d : DeviceAlloc) → bt.get k ent.devices ≡ some d → has_room m d ≡ false
  Choice panic = ⊥
  Choice running = ⊥

  abbrev devices : List DeviceAlloc
  devices = bt.items ent.devices

  -- Every device of the entity is visited.
  reached :
      (offset : ℕ) (k : String) (d : DeviceAlloc)
      → length devices < 2 ^ 62
      → offset < length devices
      → bt.get k ent.devices ≡ some d
      → (t : ℕ) × (t < length devices) × (visited picked m devices offset t ≡ some d)
  reached offset k d small lt e =
      let (j, jlt, at) = bt.index-get k d ent.devices e in
      let (t, tlt, idx) = rotation_reaches (length devices) offset j small lt jlt in
      (t, tlt, rw idx at)

  scanned :
      (offset : ℕ) (e : Error) (r : Option DeviceAlloc)
      → length devices < 2 ^ 62
      → offset < length devices
      → Chosen picked m devices offset r
      → Choice (or_error e r)
  scanned offset e none small lt c =
      λ k d found. let (t, tlt, v) = reached offset k d small lt found in c t d tlt v
  scanned offset e (some dn) small lt (room, (t, v), best) = (
    bt.get-items _ dn ent.devices v,
    room,
    elim best [
      | inl fresh ↦ inl fresh
      | inr worse ↦ inr λ d found r.
          let (t', tlt, v') = reached offset d.id d small lt found in worse t' d tlt v' r
    ],
  )

  -- For a start offset that is no negative int, usage counts below 2 ^ 63 and fewer than 2 ^ 62 devices,
  -- PickDevice returns a device with room that was not picked, or, if all with room were, one of least
  -- usage and then most space; it fails only if no device has room.
  pub pick_device-Choice :
      (start : ℕ)
      → IsRanged m
      → start < two63
      → length devices < 2 ^ 62
      → Choice (pick_device bt ent picked m start)
  unfolding pick_device
  pick_device-Choice start r pos small = elim (Bool-cases (length devices == 0)) [
    | inl empty ↦
        rw empty (λ k d found.
          let (j, lt, _) = bt.index-get k d ent.devices found in absurd (ground arith))
    | inr some_device ↦
        let many : 0 < length devices = ground arith in
        rw some_device (
          scanned _ _ _ small (rw (srem64-eq-mod start _ pos) (mod-lt start many)) (
            scan_devices-Chosen picked m devices _ 0 devices no_fallback none r (omega arith) refl
              refl (λ t d lt v rm. absurd (omega arith))))
  ]
