-- ===== src/Handlers/Planned.antt =====
-- The steps of an accepted creation of a vdev: `APCreateVdev` of
-- controlplane/ctlplanefuncs/server/srvctlplanefuncs.go.
use niova_mdsvc.Prelude.{
  ℕ, String, ◌≡◌, refl, sym, ap, ◌∙◌, true, false, ◌⊎◌, inl, inr, none, some, List, [], ◌++◌,
  Outcome, ok, err, panic, running, ◌>>=◌, first_call, ok_eq, str_eq, str_eq→eq, Bool-cases,
  Option-cases,
}
use niova_mdsvc.Prelude.Numbers.{parse_int, Parsed, number, bad_syntax, out_of_range}
use niova_mdsvc.BTree.{BTree}
use niova_mdsvc.CpLib.{VdevConfig, VdevReq}
use niova_mdsvc.CpLib.Blocks.{init_chunk_cnt}
use niova_mdsvc.Commit.{CommitChg, ◌/◌}
use niova_mdsvc.Hierarchy.{Heap, Hierarchy, Error}
use niova_mdsvc.Hierarchy.Pick.{NisdMap, AllocEntry, alloc_key}
use niova_mdsvc.Alloc.Levels.{alloc_nisds}
use niova_mdsvc.Alloc.Apply.{alloc_changes, apply_nisd_alloc}
use niova_mdsvc.Prepare.{map_error}
use niova_mdsvc.Store.{DataStore, StoreError, apply_kv}
use niova_mdsvc.Store.Applied.{last, all_applied}
use niova_mdsvc.Handlers.{HandlerError, not_allocated, name_taken, offset_not_read}
use niova_mdsvc.Handlers.Mount.{vname_key}
use niova_mdsvc.Handlers.Create.{
  Prepared, refused, prepared, offset_key, forward, check_unused_name, resolve_pfs, vdev_offset,
  number_or_bad, offset_changes, Plan, create_plan, after_commit, after_create_plan,
}

ok_inj : {A : Type 0} {a b : A} → ◌≡◌ {A = Outcome HandlerError A} (ok a) (ok b) → a ≡ b
ok_inj h = cc

module _ (bt : BTree) (ds : DataStore) (fuel random : ℕ) (h : Heap) (hr : Hierarchy bt) where
  abbrev Answer : Type 0
  Answer = Outcome HandlerError String × ds.State × Heap × Hierarchy bt

  is_ok :
      {r : Outcome HandlerError String} {a b : ds.State × Heap × Hierarchy bt} {id : String}
      → ◌≡◌ {A = Answer} (r, a.0, a.1, a.2) (ok id, b.0, b.1, b.2)
      → r ≡ ok id
  is_ok e = ap (λ (a : Answer). a.0) e

  after_commit-eq-ok :
      (id : String) (es : List AllocEntry) (w : Outcome StoreError (Unit {0}) × ds.State)
      {j : String} {s' : ds.State} {h' : Heap} {hr' : Hierarchy bt}
      → after_commit bt ds fuel random h hr id es w ≡ (ok j, s', h', hr')
      → (id ≡ j) × (w ≡ (ok tt, s')) × (apply_nisd_alloc bt h hr es ≡ ok (h', hr'))
  unfolding after_commit
  after_commit-eq-ok id es (ok u, s) {j} {s'} {h'} {hr'} e =
      applied (apply_nisd_alloc bt h hr es) refl e
    where
      left : Outcome Error (Heap × Hierarchy bt) → Answer
      left o = elim o [
        | ok (h', hr') ↦ (ok id, s, h', hr')
        | err e ↦ (err (not_allocated e), s, h, hr)
        | panic ↦ (panic, s, h, hr)
        | running ↦ (running, s, h, hr)
      ]

      applied :
          (o : Outcome Error (Heap × Hierarchy bt))
          → apply_nisd_alloc bt h hr es ≡ o
          → left o ≡ (ok j, s', h', hr')
          → (id ≡ j)
            × (◌≡◌ {A = Outcome StoreError (Unit {0}) × ds.State} (ok tt, s) (ok tt, s'))
            × (apply_nisd_alloc bt h hr es ≡ ok (h', hr'))
      applied (ok (h1, hr1)) is k = (
        ok_inj (is_ok k),
        ap (λ (a : Answer). (ok tt, a.1)) k,
        is ∙ ap (λ (a : Answer). ok (a.2, a.3)) k,
      )
      applied (err x) is k = let k' = is_ok k in cc
      applied panic is k = let k' = is_ok k in cc
      applied running is k = let k' = is_ok k in cc
  after_commit-eq-ok id es (err x, s) e = let e' = is_ok e in cc
  after_commit-eq-ok id es (panic, s) e = let e' = is_ok e in cc
  after_commit-eq-ok id es (running, s) e = let e' = is_ok e in cc

  -- A transaction that was planned and applied.
  pub after_create_plan-eq-ok :
      (s : ds.State) (o : Outcome HandlerError (Plan bt)) {id : String} {s' : ds.State} {h' : Heap}
      {hr' : Hierarchy bt}
      → after_create_plan bt ds fuel random h hr s o ≡ (ok id, s', h', hr')
      → (es : List AllocEntry) × (txn : List CommitChg) × (o ≡ ok (id, es, txn))
        × ((k : String) → ds.read k s' ≡ last k (txn ++ alloc_changes h es) (ds.read k s))
        × (apply_nisd_alloc bt h hr es ≡ ok (h', hr'))
  unfolding after_create_plan
  after_create_plan-eq-ok s (ok (id, es, txn)) {s' = s'} e =
      let (same, written, applied) =
        after_commit-eq-ok id es (apply_kv ds (txn ++ alloc_changes h es) s) e in
      (
        es,
        txn,
        ap (λ i. ok (i, es, txn)) same,
        all_applied ds (txn ++ alloc_changes h es) s s' written,
        applied,
      )
  after_create_plan-eq-ok s (err x) e = let e' = is_ok e in cc
  after_create_plan-eq-ok s panic e = let e' = is_ok e in cc
  after_create_plan-eq-ok s running e = let e' = is_ok e in cc

  -- No other vdev has the name.
  abbrev pub Unused : String → ds.State → Type 0
  Unused name s =
      (str_eq name "" ≡ true)
      ⊎ (ds.read (vname_key / name) s ≡ none)
      ⊎ (ds.read (vname_key / name) s ≡ some "")

  check_unused_name-Unused :
      (name : String) (s : ds.State) → check_unused_name ds name s ≡ ok tt → Unused name s
  unfolding check_unused_name
  check_unused_name-Unused name s e = elim (Bool-cases (str_eq name "")) [
    | inl t ↦ inl t
    | inr t ↦ elim (Option-cases (ds.read (vname_key / name) s)) [
      | inl u ↦ inr (inl u)
      | inr (id, u) ↦ elim (Bool-cases (str_eq id "")) [
        | inl v ↦ inr (inr (u ∙ ap some (str_eq→eq id "" v)))
        | inr v ↦
            let taken : check_unused_name ds name s ≡ err (name_taken id) =
              rw (t, u, v, check_unused_name) refl in
            let e' = sym taken ∙ e in cc
      ]
    ]
  ]

  forward-eq-ok :
      (left : Prepared) {cs : List CommitChg} {id : String}
      → forward left ≡ ok (cs, id)
      → left ≡ prepared cs id
  unfolding forward
  forward-eq-ok (refused e) k = cc
  forward-eq-ok (prepared cs id) k =
      ap (λ (p : List CommitChg × String). prepared p.0 p.1) (ok_inj k)

  number_or_bad-eq-ok : (r : Parsed) {n : ℕ} → number_or_bad r ≡ ok n → r ≡ number n
  unfolding number_or_bad
  number_or_bad-eq-ok (number n) k = ap (λ (m : ℕ). number m) (ok_inj k)
  number_or_bad-eq-ok bad_syntax k = cc
  number_or_bad-eq-ok (out_of_range n) k = cc

  -- A vdev that has the ID of its PFS has no other one looked up.
  pub resolve_pfs-known :
      (v : VdevConfig) (s : ds.State) {w : VdevConfig} {more : List CommitChg}
      → str_eq v.pfs_id "" ≡ false
      → resolve_pfs ds v s ≡ ok (w, more)
      → v ≡ w
  unfolding resolve_pfs
  resolve_pfs-known v s t k = elim (Bool-cases (str_eq v.pfs_name "")) [
    | inl u ↦
        let kept : resolve_pfs ds v s ≡ ok (v, []) = rw (t, u, resolve_pfs) refl in
        ap (λ (p : VdevConfig × List CommitChg). p.0) (ok_eq (resolve_pfs ds v s) kept k)
    | inr u ↦
        let kept : resolve_pfs ds v s ≡ ok (v, []) = rw (t, u, resolve_pfs) refl in
        ap (λ (p : VdevConfig × List CommitChg). p.0) (ok_eq (resolve_pfs ds v s) kept k)
  ]

  -- The offset that a PFS has in the store.
  abbrev pub StoredOffset : String → ℕ → ds.State → Type 0
  StoredOffset pfs_id n s =
      (res : String) × (ds.read (offset_key pfs_id) s ≡ some res) × (parse_int res ≡ number n)

  pub vdev_offset-StoredOffset :
      (v : VdevConfig) (s : ds.State) {n : ℕ}
      → str_eq v.pfs_id "" ≡ false
      → vdev_offset ds random v s ≡ ok n
      → StoredOffset v.pfs_id n s
  unfolding vdev_offset
  vdev_offset-StoredOffset v s t k = elim (Option-cases (ds.read (offset_key v.pfs_id) s)) [
    | inl u ↦
        let failed : vdev_offset ds random v s ≡ err offset_not_read =
          rw (t, u, vdev_offset) refl in
        let k' = sym failed ∙ k in cc
    | inr (res, u) ↦
        let read : vdev_offset ds random v s ≡ number_or_bad (parse_int res) =
          rw (t, u, vdev_offset) refl in
        (res, u, number_or_bad-eq-ok (parse_int res) (sym read ∙ k))
  ]

  -- The steps of a plan.
  pub record Made (req : VdevReq) (left : Prepared) (s : ds.State) (id : String)
      (es : List AllocEntry) (txn : List CommitChg) : Type 0 where
    pub cs : List CommitChg
    pub unused : Unused req.vdev.name s
    pub is : left ≡ prepared cs id
    pub v : VdevConfig
    pub more : List CommitChg
    pub resolved : resolve_pfs ds (init_chunk_cnt (record req.vdev { id = id })) s ≡ ok (v, more)
    pub offset : ℕ
    pub counted : vdev_offset ds random v s ≡ ok offset
    pub front : List CommitChg
    pub parts : front ++ offset_changes v offset ≡ txn

  pub create_plan-eq-ok :
      (req : VdevReq) (left : Prepared) (s : ds.State) {id : String} {es : List AllocEntry}
      {txn : List CommitChg}
      → create_plan bt ds fuel random h hr req left s ≡ ok (id, es, txn)
      → Made req left s id es txn
  unfolding create_plan
  create_plan-eq-ok req left s {id} {es} {txn} k =
      let (_, k1, unused) =
        first_call (λ _. after_name) (check_unused_name ds req.vdev.name s) (id, es, txn) k in
      let ((cs, i), k2, left_is) = first_call after_forward (forward left) (id, es, txn) k1 in
      let ((v, more), k3, resolved) =
        first_call (after_pfs cs i) (resolve_pfs ds (init_chunk_cnt (record req.vdev { id = i })) s)
          (id, es, txn) k2 in
      let (offset, k4, counted) =
        first_call (after_offset cs i v more) (vdev_offset ds random v s) (id, es, txn) k3 in
      let ((m, front), k5, _) =
        first_call (done i v offset)
          (map_error not_allocated (
            alloc_nisds bt h hr (record req { vdev = v }) offset fuel (bt.new AllocEntry alloc_key)
              (cs ++ more)))
          (id, es, txn) k4 in
      let same : i ≡ id = ap (λ (p : Plan bt). p.0) (ok_inj k5) in
      record {
        cs = cs;
        unused = check_unused_name-Unused req.vdev.name s unused;
        is = forward-eq-ok left left_is ∙ ap (prepared cs) same;
        v = v;
        more = more;
        resolved =
            ap (λ j. resolve_pfs ds (init_chunk_cnt (record req.vdev { id = j })) s) (sym same)
            ∙ resolved;
        offset = offset;
        counted = counted;
        front = front;
        parts = ap (λ (p : Plan bt). p.2) (ok_inj k5);
      }
    where
      done : String → VdevConfig → ℕ → NisdMap bt × List CommitChg → Outcome HandlerError (Plan bt)
      done i v offset (m, front) = ok (i, bt.items m, front ++ offset_changes v offset)

      after_offset :
          List CommitChg → String → VdevConfig → List CommitChg → ℕ → Outcome HandlerError (Plan bt)
      after_offset cs i v more offset =
          map_error not_allocated (
            alloc_nisds bt h hr (record req { vdev = v }) offset fuel (bt.new AllocEntry alloc_key)
              (cs ++ more))
          >>= done i v offset

      after_pfs :
          List CommitChg → String → VdevConfig × List CommitChg → Outcome HandlerError (Plan bt)
      after_pfs cs i (v, more) = vdev_offset ds random v s >>= after_offset cs i v more

      after_forward : List CommitChg × String → Outcome HandlerError (Plan bt)
      after_forward (cs, i) =
          resolve_pfs ds (init_chunk_cnt (record req.vdev { id = i })) s >>= after_pfs cs i

      after_name : Outcome HandlerError (Plan bt)
      after_name = forward left >>= after_forward
