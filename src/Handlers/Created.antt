-- ===== src/Handlers/Created.antt =====
-- What an accepted creation of a vdev leaves behind: `APCreateVdev` of
-- controlplane/ctlplanefuncs/server/srvctlplanefuncs.go.
use Prim.Native.String.{◌++◌ as str_append}
use niova_mdsvc.Prelude.{
  ℕ, String, ◌≡◌, refl, sym, ap, ◌∙◌, true, false, ◌⊎◌, inl, inr, Option, none, some, List, [], ◌∷◌,
  arith, ◌++◌, ok, str_eq, eq_refl, str_eq-ne, add64, itoa, Bool-cases, Option-cases,
}
use niova_mdsvc.BTree.{BTree}
use niova_mdsvc.CpLib.{Nisd, VdevConfig, VdevReq}
use niova_mdsvc.CpLib.Blocks.{init_chunk_cnt, total_redundancy_blocks_per_chunk}
use niova_mdsvc.Commit.{CommitChg, ◌/◌}
use niova_mdsvc.Hierarchy.{Heap, Hierarchy}
use niova_mdsvc.Hierarchy.Pick.{AllocEntry}
use niova_mdsvc.Alloc.Apply.{alloc_changes, apply_nisd_alloc}
use niova_mdsvc.Prepare.{if_set}
use niova_mdsvc.Store.{DataStore}
use niova_mdsvc.Store.Applied.{last, last-append}
use niova_mdsvc.Handlers.DeletedKeys.{as_key, as_key-begins}
use niova_mdsvc.Store.Ranges.{begins, diverge, begins-false}
use niova_mdsvc.Handlers.Create.{
  Prepared, prepared, offset_key, vdev_offset, offset_changes, create_plan, ap_create_vdev,
}
use niova_mdsvc.Handlers.Planned.{
  Unused, StoredOffset, Made, after_create_plan-eq-ok, resolve_pfs-known, vdev_offset-StoredOffset,
  create_plan-eq-ok,
}
use niova_mdsvc.Handlers.Sizes.{final, sized, resized, last-alloc_changes, apply_nisd_alloc-heap}

module _ (bt : BTree) (ds : DataStore) (fuel random : ℕ) (h : Heap) (hr : Hierarchy bt) where
  -- Whatever an allocation writes, a key of another kind keeps its value.
  last-alloc_changes_other :
      (k : String) (es : List AllocEntry) (d : Option String)
      → begins "n_" k ≡ false
      → last k (alloc_changes h es) d ≡ d
  unfolding alloc_changes
  last-alloc_changes_other k [] d b = refl
  last-alloc_changes_other k (e ∷ es) d b =
      let other : str_eq (as_key (h e.alloc.ptr).id) k ≡ false =
        str_eq-ne (as_key (h e.alloc.ptr).id) k λ same.
          let here : begins "n_" k ≡ true =
            ap (begins "n_") (sym same) ∙ as_key-begins (h e.alloc.ptr).id in
          absurd (ground (arith, here, b)) in
      rw (other, last) (last-alloc_changes_other k es d b)

  offset_key-begins : (id : String) → begins "n_" (offset_key id) ≡ false
  unfolding offset_key diverge
  offset_key-begins id = begins-false "n_" "pfs" (str_append "/" (id / "offset")) refl

  -- The offset of the PFS has moved on by the blocks of a chunk.
  abbrev pub Advanced : VdevReq → ds.State → ds.State → Type 0
  Advanced req s s' =
      (str_eq req.vdev.pfs_id "" ≡ true)
      ⊎ ((n : ℕ) × StoredOffset bt ds fuel random h hr req.vdev.pfs_id n s
          × (ds.read (offset_key req.vdev.pfs_id) s'
              ≡ some (itoa (add64 n (total_redundancy_blocks_per_chunk req.vdev)))))

  -- What a NISD has in memory is what the store has for it, unless it is as it was.
  abbrev pub InStep : ℕ → Heap → ds.State → Type 0
  InStep p h' s' = (h' p ≡ h p) ⊎ (ds.read (as_key (h p).id) s' ≡ some (itoa (h' p).available_size))

  offset_changes-last :
      (v : VdevConfig) (n : ℕ) (d : Option String)
      → str_eq v.pfs_id "" ≡ false
      → last (offset_key v.pfs_id) (offset_changes v n) d
        ≡ some (itoa (add64 n (total_redundancy_blocks_per_chunk v)))
  unfolding offset_changes if_set
  offset_changes-last v n d t = rw (t, last) (rw (eq_refl (offset_key v.pfs_id)) refl)

  module _ (req : VdevReq) (left : Prepared) (s s' : ds.State) (id : String) (h' : Heap)
      (hr' : Hierarchy bt)
      (created : ap_create_vdev bt ds fuel random h hr req left s ≡ (ok id, s', h', hr')) where
    advanced :
        (es : List AllocEntry) (txn : List CommitChg)
        (made : Made bt ds fuel random h hr req left s id es txn)
        → ((k : String) → ds.read k s' ≡ last k (txn ++ alloc_changes h es) (ds.read k s))
        → Advanced req s s'
    unfolding init_chunk_cnt total_redundancy_blocks_per_chunk
    advanced es txn made values = elim (Bool-cases (str_eq req.vdev.pfs_id "")) [
      | inl t ↦ inl t
      | inr t ↦
          let w : VdevConfig = init_chunk_cnt (record req.vdev { id = id }) in
          let same : w ≡ made.v = resolve_pfs-known bt ds fuel random h hr w s t made.resolved in
          let stored : StoredOffset bt ds fuel random h hr w.pfs_id made.offset s =
            vdev_offset-StoredOffset bt ds fuel random h hr w s t
              (ap (λ u. vdev_offset ds random u s) same ∙ made.counted) in
          let parts : made.front ++ offset_changes w made.offset ≡ txn =
            ap (λ u. made.front ++ offset_changes u made.offset) same ∙ made.parts in
          let k : String = offset_key req.vdev.pfs_id in
          inr (
            made.offset,
            stored,
            values k
                ∙ last-append k txn (alloc_changes h es) (ds.read k s)
                ∙ last-alloc_changes_other k es (last k txn (ds.read k s))
                    (offset_key-begins req.vdev.pfs_id)
                ∙ ap (λ t. last k t (ds.read k s)) (sym parts)
                ∙ last-append k made.front (offset_changes w made.offset) (ds.read k s)
                ∙ offset_changes-last w made.offset (last k made.front (ds.read k s)) t,
          )
    ]

    in_step :
        (p : ℕ) (es : List AllocEntry) (txn : List CommitChg)
        → ((q : ℕ) → (h q).id ≡ (h p).id → q ≡ p)
        → ((k : String) → ds.read k s' ≡ last k (txn ++ alloc_changes h es) (ds.read k s))
        → apply_nisd_alloc bt h hr es ≡ ok (h', hr')
        → InStep p h' s'
    in_step p es txn only values applied =
        let k : String = as_key (h p).id in
        let heap : h' p ≡ resized (h p) (final p es none) =
          apply_nisd_alloc-heap bt h h' hr hr' es p applied in
        let stored : ds.read k s' ≡ sized (final p es none) (last k txn (ds.read k s)) =
          values k
          ∙ last-append k txn (alloc_changes h es) (ds.read k s)
          ∙ last-alloc_changes h p es (last k txn (ds.read k s)) only in
        elim (Option-cases (final p es none)) [
          | inl e ↦ inl (heap ∙ ap (resized (h p)) e)
          | inr (a, e) ↦ inr (
              stored
              ∙ ap (λ o. sized o (last k txn (ds.read k s))) e
              ∙ ap (λ (n : Nisd). some (itoa n.available_size)) (sym (heap ∙ ap (resized (h p)) e)))
        ]

    -- A successful APCreateVdev answers with the ID that the write-prepare handler prepared, and no vdev
    -- with an ID had the name of the new one. If the request has the ID of a PFS, the offset that the
    -- store had for it has moved on by the blocks of a chunk. And for each NISD whose ID no other one has,
    -- the store has under its key the available size that it now has in memory, unless it is in memory as
    -- it was.
    pub ap_create_vdev-Created :
        (p : ℕ)
        → ((q : ℕ) → (h q).id ≡ (h p).id → q ≡ p)
        → (cs : List CommitChg) × (left ≡ prepared cs id)
          × Unused bt ds fuel random h hr req.vdev.name s
          × Advanced req s s'
          × InStep p h' s'
    unfolding ap_create_vdev
    ap_create_vdev-Created p only =
        let (es, txn, planned, values, applied) =
          after_create_plan-eq-ok bt ds fuel random h hr s
            (create_plan bt ds fuel random h hr req left s) created in
        let made = create_plan-eq-ok bt ds fuel random h hr req left s planned in
        (
          made.cs,
          made.is,
          made.unused,
          advanced es txn made values,
          in_step p es txn only values applied,
        )
