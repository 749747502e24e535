-- ===== src/Handlers/Unchanged.antt =====
-- What a refused creation of a vdev leaves behind: `APCreateVdev` of
-- controlplane/ctlplanefuncs/server/srvctlplanefuncs.go.
use niova_mdsvc.Prelude.{
  ℕ, String, ◌≡◌, sym, ap, true, false, ◌⊎◌, inl, inr, Option, none, some, List, [], ◌∷◌, ◌++◌,
  Outcome, ok, err, panic, running, ◌>>=◌, get_elem?, slt64, if◌then◌else◌, Bool, map, sub64,
}
use niova_mdsvc.BTree.{BTree}
use niova_mdsvc.CpLib.{VdevReq, chunk_size, device_idx}
use niova_mdsvc.Hierarchy.{
  Heap, write, Hierarchy, FailureDomain, Error, delete_at, delete_rounds, delete_nisd,
}
use niova_mdsvc.Hierarchy.Pick.{AllocEntry}
use niova_mdsvc.Alloc.Apply.{alloc_changes, resize_level, apply_entry, apply_nisd_alloc}
use niova_mdsvc.Store.{DataStore, StoreError, apply_kv}
use niova_mdsvc.Handlers.{HandlerError, not_applied, not_allocated}
use niova_mdsvc.Handlers.Create.{
  Prepared, Plan, create_plan, after_commit, after_create_plan, ap_create_vdev,
}

-- A call that gives no error value.
abbrev NoError : {A : Type 0} → Outcome Error A → Type 0
NoError (ok a) = Unit
NoError (err e) = ⊥
NoError panic = Unit
NoError running = Unit

NoError->>= :
    {A B : Type 0} (o : Outcome Error A) (f : A → Outcome Error B)
    → NoError o
    → ((a : A) → NoError (f a))
    → NoError (o >>= f)
NoError->>= (ok a) f n g = g a
NoError->>= (err e) f n g = n
NoError->>= panic f n g = tt
NoError->>= running f n g = tt

NoError-if :
    {A : Type 0} (b : Bool) (x y : Outcome Error A)
    → NoError x
    → NoError y
    → NoError (if b then x else y)
NoError-if true x y n m = n
NoError-if false x y n m = m

-- What needs a value that may be missing.
abbrev given : {A : Type 0} → Option String → (String → Outcome Error A) → Outcome Error A
given o f = elim o [ none ↦ panic | some v ↦ f v ]

NoError-given :
    {A : Type 0} (o : Option String) (f : String → Outcome Error A)
    → ((v : String) → NoError (f v))
    → NoError (given o f)
NoError-given none f g = tt
NoError-given (some v) f g = g v

module _ (bt : BTree) where
  delete_rounds-NoError :
      (h : Heap) (dev nid : String) (ids : List String) (fds : List (FailureDomain bt))
      → NoError (delete_rounds bt h dev nid ids fds)
  unfolding delete_rounds
  delete_rounds-NoError h dev nid [] fds = tt
  delete_rounds-NoError h dev nid (id ∷ ids) [] = tt
  delete_rounds-NoError h dev nid (id ∷ ids) (f ∷ fds) =
      NoError->>= (delete_rounds bt h dev nid ids fds)
        (λ rest. ok (delete_at bt h dev nid f id ∷ rest)) (delete_rounds-NoError h dev nid ids fds)
        (λ a. tt)

  delete_nisd-NoError : (h : Heap) (p : ℕ) (hr : Hierarchy bt) → NoError (delete_nisd bt h p hr)
  unfolding delete_nisd
  delete_nisd-NoError h p hr =
      NoError-given (get_elem? (h p).failure_domain device_idx)
        (λ dev.
          delete_rounds bt h dev (h p).id (h p).failure_domain hr.fd
          >>= (λ fds. ok (record hr { fd = fds })))
        (λ dev.
          NoError->>= (delete_rounds bt h dev (h p).id (h p).failure_domain hr.fd)
            (λ fds. ok (record hr { fd = fds }))
            (delete_rounds-NoError h dev (h p).id (h p).failure_domain hr.fd) (λ fds. tt))

  apply_entry-NoError :
      (h : Heap) (hr : Hierarchy bt) (e : AllocEntry) → NoError (apply_entry bt h hr e)
  unfolding apply_entry
  apply_entry-NoError h hr e =
      NoError-if (slt64 e.alloc.available_size chunk_size)
        (delete_nisd bt left e.alloc.ptr hr >>= (λ hr'. ok (left, hr')))
        (given (get_elem? (h e.alloc.ptr).failure_domain device_idx)
          (λ dev. ok (left, resized dev)))
        (NoError->>= (delete_nisd bt left e.alloc.ptr hr) (λ hr'. ok (left, hr'))
          (delete_nisd-NoError left e.alloc.ptr hr) (λ hr'. tt))
        (NoError-given (get_elem? (h e.alloc.ptr).failure_domain device_idx)
          (λ dev. ok (left, resized dev)) (λ dev. tt))
    where
      left : Heap
      left =
          write h e.alloc.ptr (record (h e.alloc.ptr) { available_size = e.alloc.available_size })

      resized : String → Hierarchy bt
      resized dev =
          let delta = sub64 e.alloc.available_size (h e.alloc.ptr).available_size in
          record hr { fd = map (resize_level bt dev delta (h e.alloc.ptr).failure_domain) hr.fd }

  apply_nisd_alloc-NoError :
      (h : Heap) (hr : Hierarchy bt) (es : List AllocEntry) → NoError (apply_nisd_alloc bt h hr es)
  unfolding apply_nisd_alloc
  apply_nisd_alloc-NoError h hr [] = tt
  apply_nisd_alloc-NoError h hr (e ∷ es) =
      NoError->>= (apply_entry bt h hr e) (λ (h', hr'). apply_nisd_alloc bt h' hr' es)
        (apply_entry-NoError h hr e) (λ (h', hr'). apply_nisd_alloc-NoError h' hr' es)

  module _ (ds : DataStore) (fuel random : ℕ) (h : Heap) (hr : Hierarchy bt) where
    abbrev Answer : Type 0
    Answer = Outcome HandlerError String × ds.State × Heap × Hierarchy bt

    -- The hierarchy and its NISDs are as they were, and so is the store unless a write failed.
    abbrev pub Refused : HandlerError → ds.State → ds.State → Heap → Hierarchy bt → Type 0
    Refused e s s' h' hr' =
        (h' ≡ h) × (hr' ≡ hr) × ((s' ≡ s) ⊎ ((x : StoreError) × (e ≡ not_applied x)))

    err_inj : {a b : HandlerError} → ◌≡◌ {A = Outcome HandlerError String} (err a) (err b) → a ≡ b
    err_inj k = cc

    is_err :
        {r : Outcome HandlerError String} {e : HandlerError} {a b : ds.State × Heap × Hierarchy bt}
        → ◌≡◌ {A = Answer} (r, a.0, a.1, a.2) (err e, b.0, b.1, b.2)
        → r ≡ err e
    is_err k = ap (λ (t : Answer). t.0) k

    same :
        {r : Outcome HandlerError String} {e : HandlerError} {s s' : ds.State} {h' : Heap}
        {hr' : Hierarchy bt}
        → ◌≡◌ {A = Answer} (r, s, h, hr) (err e, s', h', hr')
        → (h' ≡ h) × (hr' ≡ hr) × (s' ≡ s)
    same k = (
      ap (λ (t : Answer). t.2) (sym k),
      ap (λ (t : Answer). t.3) (sym k),
      ap (λ (t : Answer). t.1) (sym k),
    )

    after_commit-Refused :
        (id : String) (es : List AllocEntry) (w : Outcome StoreError (Unit {0}) × ds.State)
        {e : HandlerError} {s s' : ds.State} {h' : Heap} {hr' : Hierarchy bt}
        → after_commit bt ds fuel random h hr id es w ≡ (err e, s', h', hr')
        → Refused e s s' h' hr'
    unfolding after_commit
    after_commit-Refused id es (ok u, t) {e} {s} {s'} {h'} {hr'} k =
        absurd (applied (apply_nisd_alloc bt h hr es) (apply_nisd_alloc-NoError h hr es) k)
      where
        left : Outcome Error (Heap × Hierarchy bt) → Answer
        left o = elim o [
          | ok (h', hr') ↦ (ok id, t, h', hr')
          | err e ↦ (err (not_allocated e), t, h, hr)
          | panic ↦ (panic, t, h, hr)
          | running ↦ (running, t, h, hr)
        ]

        applied :
            (o : Outcome Error (Heap × Hierarchy bt))
            → NoError o
            → left o ≡ (err e, s', h', hr')
            → ⊥
        applied (ok (h1, hr1)) n j = let j' = is_err j in cc
        applied (err x) n j = n
        applied panic n j = let j' = is_err j in cc
        applied running n j = let j' = is_err j in cc
    after_commit-Refused id es (err x, t) k =
        let (sh, shr, _) = same k in (sh, shr, inr (x, sym (err_inj (is_err k))))
    after_commit-Refused id es (panic, t) k = let k' = is_err k in cc
    after_commit-Refused id es (running, t) k = let k' = is_err k in cc

    after_create_plan-Refused :
        (s : ds.State) (o : Outcome HandlerError (Plan bt)) {e : HandlerError} {s' : ds.State}
        {h' : Heap} {hr' : Hierarchy bt}
        → after_create_plan bt ds fuel random h hr s o ≡ (err e, s', h', hr')
        → Refused e s s' h' hr'
    unfolding after_create_plan
    after_create_plan-Refused s (ok (id, es, txn)) k =
        after_commit-Refused id es (apply_kv ds (txn ++ alloc_changes h es) s) k
    after_create_plan-Refused s (err x) k = let (sh, shr, ss) = same k in (sh, shr, inl ss)
    after_create_plan-Refused s panic k = let k' = is_err k in cc
    after_create_plan-Refused s running k = let k' = is_err k in cc

    -- An APCreateVdev that answers with an error leaves the hierarchy and its NISDs as they were, and also
    -- the store, unless the error is that of a failed write.
    pub ap_create_vdev-Refused :
        (req : VdevReq) (left : Prepared) (s s' : ds.State) (e : HandlerError) (h' : Heap)
        (hr' : Hierarchy bt)
        → ap_create_vdev bt ds fuel random h hr req left s ≡ (err e, s', h', hr')
        → Refused e s s' h' hr'
    unfolding ap_create_vdev
    ap_create_vdev-Refused req left s s' e h' hr' k =
        after_create_plan-Refused s (create_plan bt ds fuel random h hr req left s) k
