-- ===== src/Tests/Creation.antt =====
-- Creating a vdev at concrete inputs: a PFS with an offset, a name that is taken, and two racks.
use niova_mdsvc.Prelude.{
  ℕ, ◌≡◌, refl, sym, ap, ◌∙◌, true, str_eq, inl, inr, List, [], ◌∷◌, ok, err, ◌==◌, Bool-cases,
  arith, itoa,
}
use niova_mdsvc.BTree.Lists.{lists}
use niova_mdsvc.CpLib.{VdevReq}
use niova_mdsvc.CpLib.Blocks.{init_chunk_cnt, count_8gb_chunks, total_redundancy_blocks_per_chunk}
use niova_mdsvc.Prelude.Numbers.{parse_int}
use niova_mdsvc.Alloc.Levels.{alloc_nisds, allocate_nisd_per_vdev}
use niova_mdsvc.Commit.{CommitChg, change, gen_allocation_kv}
use niova_mdsvc.Hierarchy.{Heap, Hierarchy}
use niova_mdsvc.Store.Pairs.{Pairs, pairs_store}
use niova_mdsvc.Handlers.{name_taken}
use niova_mdsvc.Handlers.Create.{prepared, ap_create_vdev}
use niova_mdsvc.Handlers.Planned.{Unused}
use niova_mdsvc.Handlers.Created.{Advanced, InStep, ap_create_vdev-Created}
use niova_mdsvc.Handlers.Unchanged.{Refused, ap_create_vdev-Refused}
use niova_mdsvc.CpLib.Hash.{nisd_alloc_hash}
use niova_mdsvc.Hierarchy.Pick.{
  pick_device, has_room, known_usage, pick_nisd_from_device, scan_nisds, better_nisd,
  lookup_n_add_nisd, get_idx_for_nisd_alloc,
}
use niova_mdsvc.CpLib.Domains.{get_fd_idx}
use niova_mdsvc.Alloc.{is_used}
use niova_mdsvc.Store.{apply_kv}
use niova_mdsvc.Tests.{heap, two_racks, request}

abbrev in_pfs : VdevReq
in_pfs = record (request 1) { vdev = record (request 1).vdev { pfs_id = "p0" } }

abbrev one_pfs : Pairs
one_pfs = ("pfs/p0/offset", "0") ∷ ("vname/v0", "u1") ∷ []

abbrev named : List CommitChg
named = change "vname/v1" "u9" ∷ []

created :
    (s' : Pairs) × (h' : Heap) × (hr' : Hierarchy lists) × (ap_create_vdev lists pairs_store 6 3
        heap two_racks in_pfs
        (prepared named "u9")
        one_pfs
      ≡ (ok "u9", s', h', hr'))
unfolding ap_create_vdev init_chunk_cnt parse_int lists alloc_nisds allocate_nisd_per_vdev
    nisd_alloc_hash pick_device has_room known_usage pick_nisd_from_device scan_nisds better_nisd
    lookup_n_add_nisd count_8gb_chunks get_fd_idx get_idx_for_nisd_alloc
    total_redundancy_blocks_per_chunk is_used itoa apply_kv gen_allocation_kv
created = (_, _, _, refl)

only_one : (q : ℕ) → (heap q).id ≡ (heap 0).id → q ≡ 0
only_one q e = elim (Bool-cases (q == 0)) [
  | inl t ↦ ground (arith, t)
  | inr t ↦
      let is_b : (heap q).id ≡ "nisd-b" = rw t refl in
      let same : str_eq "nisd-b" "nisd-a" ≡ true = sym (ap (str_eq "nisd-b") (sym is_b ∙ e)) in cc
]

ap_create_vdev-Created_example :
    (cs : List CommitChg) × (prepared named "u9" ≡ prepared cs "u9")
    × Unused lists pairs_store 6 3 heap two_racks "v1" one_pfs
    × Advanced lists pairs_store 6 3 heap two_racks in_pfs one_pfs created.0
    × InStep lists pairs_store 6 3 heap two_racks 0 created.1 created.0
ap_create_vdev-Created_example =
    ap_create_vdev-Created lists pairs_store 6 3 heap two_racks in_pfs (prepared named "u9") one_pfs
      created.0 "u9" created.1 created.2 created.3 0 only_one

abbrev of_v0 : VdevReq
of_v0 = record (request 1) { vdev = record (request 1).vdev { name = "v0" } }

refusal :
    ap_create_vdev lists pairs_store 6 3 heap two_racks of_v0 (prepared named "u9") one_pfs
    ≡ (err (name_taken "u1"), one_pfs, heap, two_racks)
unfolding ap_create_vdev
refusal = refl

ap_create_vdev-Refused_example :
    Refused lists pairs_store 6 3 heap two_racks (name_taken "u1") one_pfs one_pfs heap two_racks
ap_create_vdev-Refused_example =
    ap_create_vdev-Refused lists pairs_store 6 3 heap two_racks of_v0 (prepared named "u9") one_pfs
      one_pfs (name_taken "u1") heap two_racks refusal
