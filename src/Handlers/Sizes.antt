-- ===== src/Handlers/Sizes.antt =====
-- The available sizes that an allocation leaves in the store and in memory, in
-- controlplane/ctlplanefuncs/server/srvctlplanefuncs.go: the changes of `commitAllocChgs` and what
-- `applyNISDAlloc` does say the same of each NISD.
use niova_mdsvc.Prelude.{
  ℕ, String, ◌≡◌, refl, sym, ap, ◌∙◌, false, inl, inr, Option, none, some, List, [], ◌∷◌, arith,
  Outcome, ok, err, panic, running, ◌>>=◌, get_elem?, first_call, str_eq, eq_refl, str_eq-ne, ◌==◌,
  slt64, itoa, if◌then◌else◌, Bool-cases, map, sub64,
}
use niova_mdsvc.BTree.{BTree}
use niova_mdsvc.CpLib.{Nisd, chunk_size, device_idx}
use niova_mdsvc.Hierarchy.{Heap, write, Hierarchy, Error, delete_nisd}
use niova_mdsvc.Hierarchy.Pick.{AllocEntry}
use niova_mdsvc.Alloc.Apply.{alloc_changes, resize_level, apply_entry, apply_nisd_alloc}
use niova_mdsvc.Store.Applied.{last}
use niova_mdsvc.Handlers.DeletedKeys.{as_key, as_key-eq}

-- The size that the last entry of a NISD has.
abbrev pub final : ℕ → List AllocEntry → Option ℕ → Option ℕ
final p [] o = o
final p (e ∷ es) o = final p es (if e.alloc.ptr == p then some e.alloc.available_size else o)

abbrev or_else : Option ℕ → Option ℕ → Option ℕ
or_else none o = o
or_else (some n) o = some n

or_else-some :
    (o : Option ℕ) (x : Option ℕ) (a : ℕ) {r : Option ℕ} → r ≡ or_else x (some a) → r ≡ or_else r o
or_else-some o none a e = e ∙ ap (λ t. or_else t o) (sym e)
or_else-some o (some b) a e = e ∙ ap (λ t. or_else t o) (sym e)

final-or_else :
    (p : ℕ) (es : List AllocEntry) (o : Option ℕ) → final p es o ≡ or_else (final p es none) o
final-or_else p [] o = refl
final-or_else p (e ∷ es) o = elim (Bool-cases (e.alloc.ptr == p)) [
  | inl t ↦ rw t (
      or_else-some o (final p es none) e.alloc.available_size
        (final-or_else p es (some e.alloc.available_size)))
  | inr t ↦ rw t (final-or_else p es o)
]

ok_inj : {E A : Type 0} {a b : A} → ◌≡◌ {A = Outcome E A} (ok a) (ok b) → a ≡ b
ok_inj h = cc

abbrev pub resized : Nisd → Option ℕ → Nisd
resized n none = n
resized n (some a) = record n { available_size = a }

abbrev pub sized : Option ℕ → Option String → Option String
sized none d = d
sized (some a) d = some (itoa a)

resized_twice : (n : Nisd) (x o : Option ℕ) → resized (resized n x) o ≡ resized n (or_else o x)
resized_twice n none none = refl
resized_twice n none (some b) = refl
resized_twice n (some a) none = refl
resized_twice n (some a) (some b) = refl

sized_twice :
    (a : ℕ) (d : Option String) (o : Option ℕ)
    → sized o (some (itoa a)) ≡ sized (or_else o (some a)) d
sized_twice a d none = refl
sized_twice a d (some b) = refl

-- `commitAllocChgs`: the last change for the NISD.
pub last-alloc_changes :
    (h : Heap) (p : ℕ) (es : List AllocEntry) (d : Option String)
    → ((q : ℕ) → (h q).id ≡ (h p).id → q ≡ p)
    → last (as_key (h p).id) (alloc_changes h es) d ≡ sized (final p es none) d
unfolding alloc_changes
last-alloc_changes h p [] d only = refl
last-alloc_changes h p (e ∷ es) d only = elim (Bool-cases (e.alloc.ptr == p)) [
  | inl t ↦
      let same : (h e.alloc.ptr).id ≡ (h p).id = ap (λ q. (h q).id) (ground (arith, t)) in
      rw (as_key-eq (h e.alloc.ptr).id (h p).id, last)
        (rw (same, eq_refl (h p).id, t)
          (last-alloc_changes h p es (some (itoa e.alloc.available_size)) only
            ∙ sized_twice e.alloc.available_size d (final p es none)
            ∙ ap (λ o. sized o d) (sym (final-or_else p es (some e.alloc.available_size)))))
  | inr t ↦
      let other : str_eq (h e.alloc.ptr).id (h p).id ≡ false =
        str_eq-ne (h e.alloc.ptr).id (h p).id
          λ same. absurd (ground (arith, t, only e.alloc.ptr same)) in
      rw (as_key-eq (h e.alloc.ptr).id (h p).id, last)
        (rw (other, t) (last-alloc_changes h p es d only))
]

module _ (bt : BTree) where
  written-resized :
      (h : Heap) (q a p : ℕ)
      → write h q (record (h q) { available_size = a }) p
        ≡ resized (h p) (if q == p then some a else none)
  written-resized h q a p = elim (Bool-cases (q == p)) [
    | inl t ↦ rw t (ap (λ (i : ℕ). resized (h i) (some a)) (ground (arith, t)))
    | inr t ↦ rw t refl
  ]

  -- The outcome for an entry whose NISD is removed.
  abbrev beside : Heap → Outcome Error (Hierarchy bt) → Outcome Error (Heap × Hierarchy bt)
  beside h o = o >>= (λ hr. ok (h, hr))

  beside-eq-ok :
      (h h' : Heap) (hr' : Hierarchy bt) (o : Outcome Error (Hierarchy bt))
      → beside h o ≡ ok (h', hr')
      → h ≡ h'
  beside-eq-ok h h' hr' (ok hr) k = ap (λ (r : Heap × Hierarchy bt). r.0) (ok_inj k)
  beside-eq-ok h h' hr' (err e) k = cc
  beside-eq-ok h h' hr' panic k = cc
  beside-eq-ok h h' hr' running k = cc

  -- The other one, where the NISD stays.
  abbrev at_device :
      Heap → (String → Hierarchy bt) → Option String → Outcome Error (Heap × Hierarchy bt)
  at_device h f none = panic
  at_device h f (some dev) = ok (h, f dev)

  at_device-eq-ok :
      (h h' : Heap) (hr' : Hierarchy bt) (f : String → Hierarchy bt) (o : Option String)
      → at_device h f o ≡ ok (h', hr')
      → h ≡ h'
  at_device-eq-ok h h' hr' f none k = cc
  at_device-eq-ok h h' hr' f (some dev) k = ap (λ (r : Heap × Hierarchy bt). r.0) (ok_inj k)

  apply_entry-heap :
      (h h' : Heap) (hr hr' : Hierarchy bt) (e : AllocEntry) (p : ℕ)
      → apply_entry bt h hr e ≡ ok (h', hr')
      → h' p ≡ resized (h p) (if e.alloc.ptr == p then some e.alloc.available_size else none)
  unfolding apply_entry
  apply_entry-heap h h' hr hr' e p k =
      ap (λ (w : Heap). w p)
        (sym (elim (Bool-cases (slt64 e.alloc.available_size chunk_size)) [
          | inl t ↦
              beside-eq-ok left h' hr' (delete_nisd bt left e.alloc.ptr hr)
                (sym (rw (t, apply_entry) refl) ∙ k)
          | inr t ↦
              at_device-eq-ok left h' hr'
                (λ dev. record hr {
                  fd = map (resize_level bt dev delta (h e.alloc.ptr).failure_domain) hr.fd;
                })
                (get_elem? (h e.alloc.ptr).failure_domain device_idx)
                (sym (rw (t, apply_entry) refl) ∙ k)
        ]))
      ∙ written-resized h e.alloc.ptr e.alloc.available_size p
    where
      delta : ℕ
      delta = sub64 e.alloc.available_size (h e.alloc.ptr).available_size

      left : Heap
      left =
          write h e.alloc.ptr (record (h e.alloc.ptr) { available_size = e.alloc.available_size })

  -- `applyNISDAlloc`: the NISD's last size.
  pub apply_nisd_alloc-heap :
      (h h' : Heap) (hr hr' : Hierarchy bt) (es : List AllocEntry) (p : ℕ)
      → apply_nisd_alloc bt h hr es ≡ ok (h', hr')
      → h' p ≡ resized (h p) (final p es none)
  unfolding apply_nisd_alloc
  apply_nisd_alloc-heap h h' hr hr' [] p k =
      ap (λ (r : Heap × Hierarchy bt). r.0 p) (sym (ok_inj k))
  apply_nisd_alloc-heap h h' hr hr' (e ∷ es) p k =
      let ((h1, hr1), later, first) = first_call after (apply_entry bt h hr e) (h', hr') k in
      let rest : h' p ≡ resized (h1 p) (final p es none) =
        apply_nisd_alloc-heap h1 h' hr1 hr' es p later in
      let o : Option ℕ = if e.alloc.ptr == p then some e.alloc.available_size else none in
      rest
      ∙ ap (λ n. resized n (final p es none)) (apply_entry-heap h h1 hr hr1 e p first)
      ∙ resized_twice (h p) o (final p es none)
      ∙ ap (resized (h p)) (sym (final-or_else p es o))
    where
      after : Heap × Hierarchy bt → Outcome Error (Heap × Hierarchy bt)
      after (h1, hr1) = apply_nisd_alloc bt h1 hr1 es
