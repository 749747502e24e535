-- ===== src/Hierarchy/Levels.antt =====
-- The choice of a failure-domain level in controlplane/ctlplanefuncs/server/hierarchy.go: `GetFDLevel`.
use niova_mdsvc.Prelude.{
  ℕ, zero, suc, ◌+◌, ◌-◌, ◌<◌, ◌≤◌, ◌≡◌, inl, inr, List, [], ◌∷◌, Outcome, ok, err, panic, running,
  arith, length, leb, leb→le, Bool-cases,
}
use niova_mdsvc.BTree.{BTree}
use niova_mdsvc.CpLib.{fd_max, device_idx}
use niova_mdsvc.Hierarchy.{Hierarchy, FailureDomain, Error, level_from, get_fd_level}

module _ (bt : BTree) where
  -- How many entities the level `i` has; a missing level has none.
  abbrev pub entities_at : List (FailureDomain bt) → ℕ → ℕ
  entities_at [] i = 0
  entities_at (f ∷ fs) zero = length (bt.items f.tree)
  entities_at (f ∷ fs) (suc i) = entities_at fs i

  -- From the level `i` on, the result is the first of `n` levels with `ft` entities, or an error if
  -- none of them has so many.
  abbrev pub First : ℕ → ℕ → ℕ → List (FailureDomain bt) → Outcome Error ℕ → Type 0
  First n i ft fs (ok r) =
      (i ≤ r)
      × (r < i + n)
      × (ft ≤ entities_at fs (r - i))
      × ((j : ℕ) → i + j < r → entities_at fs j < ft)
  First n i ft fs (err e) = (j : ℕ) → j < n → entities_at fs j < ft
  First n i ft fs panic = ⊥
  First n i ft fs running = ⊥

  level_from-First :
      (n i ft : ℕ) (fs : List (FailureDomain bt))
      → n ≤ length fs
      → First n i ft fs (level_from bt n i ft fs)
  unfolding level_from
  level_from-First zero i ft fs le = λ j lt. absurd (omega arith)
  level_from-First (suc n) i ft [] le = absurd (omega arith)
  level_from-First (suc n) i ft (f ∷ fs) le =
      elim (Bool-cases (leb ft (length (bt.items f.tree)))) [
        | inl here ↦
            rw here
              (omega arith, omega arith, rw self (leb→le _ _ here), λ j lt. absurd (omega arith))
        | inr not_here ↦ rw not_here (
            later (level_from bt n (i + 1) ft fs) (ground arith)
              (level_from-First n (i + 1) ft fs (omega arith)))
      ]
    where
      self : i - i ≡ 0
      self = omega arith

      step :
          (c : ℕ)
          → length (bt.items f.tree) < ft
          → ((j : ℕ) → i + 1 + j < c → entities_at fs j < ft)
          → (j : ℕ) → i + j < c
          → entities_at (f ∷ fs) j < ft
      step c few before zero lt = few
      step c few before (suc j) lt = before j (omega arith)

      later :
          (r : Outcome Error ℕ)
          → length (bt.items f.tree) < ft
          → First n (i + 1) ft fs r
          → First (suc n) i ft (f ∷ fs) r
      later (ok r) few (le, lt, enough, before) =
          let next : r - i ≡ suc (r - (i + 1)) = omega arith in
          (omega arith, omega arith, rw next enough, step r few before)
      later (err e) few before =
          λ j lt. step (i + 1 + n) few (λ j lt. before j (omega arith)) j (omega arith)
      later panic few b = b
      later running few b = b

  -- On five levels GetFDLevel returns the lowest of the levels 0 to 3 with at least ft entities, and an
  -- error only when none of them has so many.
  pub get_fd_level-First :
      (ft : ℕ) (hr : Hierarchy bt)
      → length hr.fd ≡ fd_max
      → First (device_idx + 1) 0 ft hr.fd (get_fd_level bt ft hr)
  unfolding get_fd_level
  get_fd_level-First ft hr init = level_from-First (device_idx + 1) 0 ft hr.fd (omega arith)
