-- ===== src/Hierarchy/Pick/Filtered.antt =====
-- The level that `GetEntityByID` of controlplane/ctlplanefuncs/server/hierarchy.go reads for a filter.
use niova_mdsvc.Prelude.{
  ℕ, ◌-◌, ◌≤◌, zero, suc, ◌≡◌, ◌≢◌, refl, ◌∙◌, true, false, ◌&&◌, none, List, [], ◌∷◌, panic, Ends,
  arith, length, get_elem?, get_elem?-length, leb, ◌==◌,
}
use niova_mdsvc.BTree.{BTree}
use niova_mdsvc.CpLib.{Filter, fd_max, minus_one}
use niova_mdsvc.CpLib.Domains.{fd_pdu, fd_partition, get_fd_idx, get_fd_idx_cases}
use niova_mdsvc.Hierarchy.{Hierarchy}
use niova_mdsvc.Hierarchy.Pick.{get_entity_by_id}
use niova_mdsvc.Hierarchy.Pick.Ends.{Ends-or_error}

no_index {ℓ} : {A : Type ℓ} (xs : List A) (i : ℕ) → length xs ≤ i → get_elem? xs i ≡ none
no_index [] i le = refl
no_index (x ∷ xs) zero le = absurd (omega arith)
no_index (x ∷ xs) (suc i) le = no_index xs i (omega arith)

module _ (bt : BTree) where
  -- On five levels GetEntityByID returns for each of the five named levels, and panics for every other one
  -- but -1, FD_ANY among them.
  pub get_entity_by_id_cases :
      (hr : Hierarchy bt) (ft : Filter)
      → length hr.fd ≡ fd_max
      → ((leb fd_pdu ft.type && leb ft.type fd_partition) ≡ true → Ends (get_entity_by_id bt hr ft))
        × ((leb fd_pdu ft.type && leb ft.type fd_partition) ≡ false
            → ft.type ≢ minus_one
            → get_entity_by_id bt hr ft ≡ panic)
  unfolding get_entity_by_id
  get_entity_by_id_cases hr ft init = (
    λ named.
        let idx : get_fd_idx ft.type ≡ ft.type - 1 = get_fd_idx_cases ft.type ∙ rw named refl in
        let (f, at) = get_elem?-length hr.fd (ft.type - 1) (ground arith) in
        let level : (ft.type == minus_one) ≡ false = ground arith in
        rw (level, get_entity_by_id)
          (rw (idx, get_entity_by_id) (rw (at, get_entity_by_id) (Ends-or_error _ _))),
    λ other ne.
        let idx : get_fd_idx ft.type ≡ minus_one = get_fd_idx_cases ft.type ∙ rw other refl in
        let level : (ft.type == minus_one) ≡ false = ground arith in
        let at : get_elem? hr.fd minus_one ≡ none = no_index hr.fd minus_one (omega arith) in
        rw (level, get_entity_by_id) (rw (idx, get_entity_by_id) (rw (at, get_entity_by_id) refl)),
  )
