-- ===== src/Hierarchy/Pick/Space.antt =====
-- `LookupNAddNisd` and `PickNISDFromDevice` of controlplane/ctlplanefuncs/server/hierarchy.go: the choice
-- and what is recorded in the map of the space left.
use niova_mdsvc.Prelude.{
  ℕ, ◌%◌, String, ◌≡◌, refl, sym, ap, ◌∙◌, ◌⊎◌, inl, inr, Bool, true, false, not, ◌||◌, Option,
  none, some, List, [], ◌∷◌, map, Outcome, ok, err, panic, running, arith, All, get_elem?,
  get_elem?-map, All-of_map, elem, add64, sub64, two64, slt64, str_eq, eq_iff, eq_refl,
  if◌then◌else◌, Option-cases,
}
use mathlib.Core.Path.{ap₂, subst}
use niova_mdsvc.BTree.{BTree}
use niova_mdsvc.CpLib.{DeviceAlloc, chunk_size}
use niova_mdsvc.Hierarchy.{Heap, Error}
use niova_mdsvc.Hierarchy.Devices.{Distinct, has_nisd}
use niova_mdsvc.Hierarchy.Pick.{
  AllocEntry, NisdMap, lookup_n_add_nisd, scan_nisds, pick_nisd_from_device, better_nisd,
}
use niova_mdsvc.Hierarchy.Pick.Largest.{fold_best, is_eligible, Tops, IsEligible?, fold_best-Tops}

module _ (bt : BTree) (h : Heap) where
  -- The entry of a NISD: the map's, or a new one with the NISD's own size.
  abbrev pub entry_of : ℕ → NisdMap bt → AllocEntry
  entry_of p m = (lookup_n_add_nisd bt h p m).0

  pub key-entry_of : (p : ℕ) (m : NisdMap bt) → (entry_of p m).key ≡ (h p).id
  unfolding lookup_n_add_nisd
  key-entry_of p m = elim (Option-cases (bt.get (h p).id m)) [
    | inl e ↦ rw (e, entry_of, lookup_n_add_nisd)
    | inr (x, e) ↦ rw (e, entry_of, lookup_n_add_nisd) (bt.key-get (h p).id x m e)
  ]

  pub get-lookup :
      (p : ℕ) (m : NisdMap bt) (k : String)
      → bt.get k (lookup_n_add_nisd bt h p m).1
        ≡ (if str_eq (h p).id k then some (entry_of p m) else bt.get k m)
  unfolding lookup_n_add_nisd
  get-lookup p m k = elim (Option-cases (bt.get (h p).id m)) [
    | inl e ↦ rw (e, entry_of, lookup_n_add_nisd) (bt.get-set k _ m)
    | inr (x, e) ↦ rw (e, entry_of, lookup_n_add_nisd) (ground (arith, eq_iff (h p).id k))
  ]

  entry_of-eq_of_get :
      (q : ℕ) (m m' : NisdMap bt)
      → bt.get (h q).id m' ≡ bt.get (h q).id m
      → entry_of q m' ≡ entry_of q m
  unfolding lookup_n_add_nisd
  entry_of-eq_of_get q m m' g = elim (Option-cases (bt.get (h q).id m)) [
    | inl e ↦ rw (e, entry_of, lookup_n_add_nisd) (rw (g ∙ e, entry_of, lookup_n_add_nisd) refl)
    | inr (x, e) ↦
        rw (e, entry_of, lookup_n_add_nisd) (rw (g ∙ e, entry_of, lookup_n_add_nisd) refl)
  ]

  -- The entries of other NISDs stay as they were.
  entry-after :
      (p : ℕ) (m : NisdMap bt) (q : ℕ)
      → str_eq (h q).id (h p).id ≡ false
      → entry_of q (lookup_n_add_nisd bt h p m).1 ≡ entry_of q m
  entry-after p m q n =
      entry_of-eq_of_get q m (lookup_n_add_nisd bt h p m).1
        (get-lookup p m (h q).id ∙ rw other refl)
    where
      other : str_eq (h p).id (h q).id ≡ false
      other = ground (arith, n, eq_iff (h p).id (h q).id, eq_iff (h q).id (h p).id)

  entries-after :
      (p : ℕ) (m : NisdMap bt) (qs : List ℕ)
      → has_nisd h (h p).id qs ≡ false
      → map (λ q. entry_of q (lookup_n_add_nisd bt h p m).1) qs ≡ map (λ q. entry_of q m) qs
  unfolding has_nisd
  entries-after p m [] n = refl
  entries-after p m (q ∷ qs) n =
      ap₂ ◌∷◌ (entry-after p m q (ground (arith, n))) (entries-after p m qs (ground (arith, n)))

  gets-after :
      (p : ℕ) (m n : NisdMap bt) (qs : List ℕ)
      → has_nisd h (h p).id qs ≡ false
      → All (λ q. bt.get (h q).id n ≡ some (entry_of q (lookup_n_add_nisd bt h p m).1)) qs
      → All (λ q. bt.get (h q).id n ≡ some (entry_of q m)) qs
  unfolding has_nisd
  gets-after p m n [] f a = tt
  gets-after p m n (q ∷ qs) f a = (
    a.0 ∙ ap some (entry-after p m q (ground (arith, f))),
    gets-after p m n qs (ground (arith, f)) a.1,
  )

  -- The loop: the best of the NISDs' entries, all of which the map then holds.
  scan_nisds_lem :
      (picked : List String) (ps : List ℕ) (m : NisdMap bt) (best : Option AllocEntry)
      → Distinct h ps
      → ((scan_nisds bt h picked ps m best).0
          ≡ fold_best h picked (map (λ q. entry_of q m) ps) best)
        × ((k : String)
            → has_nisd h k ps ≡ false
            → bt.get k (scan_nisds bt h picked ps m best).1 ≡ bt.get k m)
        × All (λ q. bt.get (h q).id (scan_nisds bt h picked ps m best).1 ≡ some (entry_of q m)) ps
  unfolding scan_nisds fold_best has_nisd
  scan_nisds_lem picked [] m best d = (refl, λ k n. refl, tt)
  scan_nisds_lem picked (p ∷ ps) m best d =
      let (e, m') = lookup_n_add_nisd bt h p m in
      let (same, kept, all) = scan_nisds_lem picked ps m' (better_nisd h picked e best) d.1 in
      (
        same
            ∙ ap (λ es. fold_best h picked es (better_nisd h picked e best))
                (entries-after p m ps d.0),
        λ k n.
            let other : str_eq (h p).id k ≡ false = ground (arith, n) in
            kept k (ground (arith, n)) ∙ get-lookup p m k ∙ rw other refl,
        (
          kept (h p).id d.0 ∙ get-lookup p m (h p).id ∙ rw (eq_refl (h p).id) refl,
          gets-after p m _ ps d.0 all,
        ),
      )

  -- What a successful `PickNISDFromDevice` has done: it chose the NISD `nisd` of the device.
  pub record Picked (dn : DeviceAlloc) (picked : List String) (m : NisdMap bt) (o : AllocEntry)
      (picked' : List String) (m' : NisdMap bt) : Type 0 where
    pub nisd : ℕ
    pub place : ℕ
    pub in_device : get_elem? dn.nisds place ≡ some nisd
    pub eligible : is_eligible h picked (entry_of nisd m) ≡ true
    pub largest :
        All
          (λ q.
            is_eligible h picked (entry_of q m) ≡ true
            → slt64 (entry_of nisd m).alloc.available_size (entry_of q m).alloc.available_size
              ≡ false)
          dn.nisds
    pub key : o.key ≡ (h nisd).id
    pub ptr : o.alloc.ptr ≡ (entry_of nisd m).alloc.ptr
    pub less_a_chunk :
        add64 o.alloc.available_size chunk_size ≡ (entry_of nisd m).alloc.available_size % two64
    pub no_underflow : slt64 o.alloc.available_size 0 ≡ false
    pub picks : picked' ≡ (h o.alloc.ptr).id ∷ picked
    pub recorded : bt.get o.key m' ≡ some o
    pub kept :
        All (λ q. str_eq o.key (h q).id ≡ false → bt.get (h q).id m' ≡ some (entry_of q m)) dn.nisds
    pub untouched :
        (k : String)
        → str_eq o.key k ≡ false
        → has_nisd h k dn.nisds ≡ false
        → bt.get k m' ≡ bt.get k m

  -- A failure means that no NISD of the device is eligible.
  abbrev pub Picks :
      DeviceAlloc
      → List String
      → NisdMap bt
      → Outcome Error (AllocEntry × List String)
      → NisdMap bt
      → Type 0
  Picks dn picked m (ok (o, picked')) m' = Picked dn picked m o picked' m'
  Picks dn picked m (err e) m' =
      All (λ q. is_eligible h picked (entry_of q m) ≡ false) dn.nisds
      × All (λ q. bt.get (h q).id m' ≡ some (entry_of q m)) dn.nisds
  Picks dn picked m panic m' = ⊥
  Picks dn picked m running m' = ⊥

  kept-set :
      (o : AllocEntry) (m n : NisdMap bt) (qs : List ℕ)
      → All (λ q. bt.get (h q).id n ≡ some (entry_of q m)) qs
      → All
          (λ q. str_eq o.key (h q).id ≡ false → bt.get (h q).id (bt.set o n) ≡ some (entry_of q m))
          qs
  kept-set o m n [] a = tt
  kept-set o m n (q ∷ qs) a = (λ e. bt.get-set (h q).id o n ∙ rw e a.0, kept-set o m n qs a.1)

  chunk_taken :
      (s : ℕ)
      → slt64 s chunk_size ≡ false
      → (add64 (sub64 s chunk_size) chunk_size ≡ s % two64) × (slt64 (sub64 s chunk_size) 0 ≡ false)
  chunk_taken s e = (omega arith, ground arith)

  fits : (a b : Bool) → not (a || b) ≡ true → b ≡ false
  fits a b e = ground arith

  -- On a device whose NISDs have different IDs, PickNISDFromDevice takes a chunk from the largest NISD
  -- that was not picked and has room, without underflow, leaves the space of the other NISDs, and fails
  -- only if no NISD is eligible.
  pub pick_nisd_from_device-Picks :
      (dn : DeviceAlloc) (picked : List String) (m : NisdMap bt)
      → Distinct h dn.nisds
      → let (r, m') = pick_nisd_from_device bt h dn picked m in Picks dn picked m r m'
  unfolding pick_nisd_from_device
  pick_nisd_from_device-Picks dn picked m d = go (scan_nisds bt h picked dn.nisds m none).0 refl
    where
      entries : List AllocEntry
      entries = map (λ q. entry_of q m) dn.nisds

      scanned :
          let r = scan_nisds bt h picked dn.nisds m none in
          (r.0 ≡ fold_best h picked entries none)
          × ((k : String) → has_nisd h k dn.nisds ≡ false → bt.get k r.1 ≡ bt.get k m)
          × All (λ q. bt.get (h q).id r.1 ≡ some (entry_of q m)) dn.nisds
      scanned = scan_nisds_lem picked dn.nisds m none d

      best :
          (r : Option AllocEntry)
          → fold_best h picked entries none ≡ r
          → IsEligible? h picked r
            × All (Tops h picked r) entries
            × ((r ≡ none) ⊎ ((i : ℕ) × (r ≡ get_elem? entries i)))
      best r e =
          let (v, tops, _, from) = fold_best-Tops h picked entries none tt in
          subst
            (λ r.
              IsEligible? h picked r
              × All (Tops h picked r) entries
              × ((r ≡ none) ⊎ ((i : ℕ) × (r ≡ get_elem? entries i))))
            e (v, tops, elim from [ inl n ↦ inl n | inr (i, at, _) ↦ inr (i, at) ])

      room :
          (o : AllocEntry)
          → is_eligible h picked o ≡ true
          → (add64 (sub64 o.alloc.available_size chunk_size) chunk_size
              ≡ o.alloc.available_size % two64)
            × (slt64 (sub64 o.alloc.available_size chunk_size) 0 ≡ false)
      room o v = chunk_taken o.alloc.available_size (fits (elem (h o.alloc.ptr).id picked) _ v)

      go :
          (r : Option AllocEntry)
          → (scan_nisds bt h picked dn.nisds m none).0 ≡ r
          → let (r, m') = pick_nisd_from_device bt h dn picked m in Picks dn picked m r m'
      go none e =
          let (_, tops, _) = best none (sym scanned.0 ∙ e) in
          rw (e, pick_nisd_from_device) (All-of_map _ _ dn.nisds tops, scanned.2)
      go (some o) e = elim (best (some o) (sym scanned.0 ∙ e)).2 [
        | inl n ↦ cc
        | inr (i, at) ↦
            let (p, here, is) = get_elem?-map (λ q. entry_of q m) dn.nisds i (sym at) in
            let (v, tops, _) = best (some o) (sym scanned.0 ∙ e) in
            rw (e, pick_nisd_from_device)
              (record {
                nisd = p;
                place = i;
                in_device = here;
                eligible = rw is v;
                largest = rw is (All-of_map _ _ dn.nisds tops);
                key = sym (ap (λ (e : AllocEntry). e.key) is) ∙ key-entry_of p m;
                ptr = sym (ap (λ (e : AllocEntry). e.alloc.ptr) is);
                less_a_chunk =
                    (room o v).0 ∙ ap (λ (e : AllocEntry). e.alloc.available_size % two64) (sym is);
                no_underflow = (room o v).1;
                picks = refl;
                recorded = bt.get-set o.key _ _ ∙ rw (eq_refl o.key) refl;
                kept = kept-set _ m _ dn.nisds scanned.2;
                untouched = λ k e n. bt.get-set k _ _ ∙ rw e (scanned.1 k n);
              })
      ]
