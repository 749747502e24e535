-- ===== src/Hierarchy/Pick/Largest.antt =====
-- `PickNISDFromDevice` of controlplane/ctlplanefuncs/server/hierarchy.go: the choice among a device's
-- NISDs, and what it does to the map of the space left.
use niova_mdsvc.Prelude.{
  ℕ, suc, ◌<◌, String, ◌≡◌, refl, ap, ◌∙◌, ◌⊎◌, inl, inr, Bool, true, false, not, ◌||◌, Option,
  none, some, List, [], ◌∷◌, arith, All, length, get_elem?, elem, slt64, Bool-cases,
}
use niova_mdsvc.CpLib.{chunk_size}
use niova_mdsvc.Hierarchy.{Heap}
use niova_mdsvc.Hierarchy.Pick.{AllocEntry, better_nisd}

-- An entry that may be chosen: its NISD is not picked and has room for a chunk.
abbrev pub is_eligible : Heap → List String → AllocEntry → Bool
is_eligible h picked e =
    not (elem (h e.alloc.ptr).id picked || slt64 e.alloc.available_size chunk_size)

slt64_irrefl : (a : ℕ) → slt64 a a ≡ false
slt64_irrefl a = ground arith

slt64_trans : (a b c : ℕ) → slt64 a b ≡ true → slt64 a c ≡ false → slt64 b c ≡ false
slt64_trans a b c l g = ground arith

unfoldable pub fold_best :
    Heap → List String → List AllocEntry → Option AllocEntry → Option AllocEntry
fold_best h picked [] best = best
fold_best h picked (e ∷ es) best = fold_best h picked es (better_nisd h picked e best)

module _ (h : Heap) (picked : List String) where
  -- No eligible entry of the list is larger than `o`, and with no `o` none is eligible.
  abbrev pub Tops : Option AllocEntry → AllocEntry → Type 0
  Tops none e = is_eligible h picked e ≡ false
  Tops (some o) e =
      is_eligible h picked e ≡ true → slt64 o.alloc.available_size e.alloc.available_size ≡ false

  abbrev pub IsEligible? : Option AllocEntry → Type 0
  IsEligible? none = Unit
  IsEligible? (some o) = is_eligible h picked o ≡ true

  abbrev bar : AllocEntry → Bool
  bar e = elem (h e.alloc.ptr).id picked || slt64 e.alloc.available_size chunk_size

  better_nisd-Tops :
      (e : AllocEntry) (best : Option AllocEntry)
      → IsEligible? best
      → IsEligible? (better_nisd h picked e best)
        × Tops (better_nisd h picked e best) e
        × ((e' : AllocEntry) → Tops best e' → Tops (better_nisd h picked e best) e')
        × ((better_nisd h picked e best ≡ best) ⊎ (better_nisd h picked e best ≡ some e))
  better_nisd-Tops e none v = elim (Bool-cases (bar e)) [
    | inl b ↦
        let same : better_nisd h picked e none ≡ none = unfold better_nisd in rw b in
        rw same (tt, ap not b, λ e' t. t, inl refl)
    | inr b ↦
        let new : better_nisd h picked e none ≡ some e = unfold better_nisd in rw b in
        rw new (ap not b, λ _. slt64_irrefl e.alloc.available_size, λ e' t r. cc (t, r), inr refl)
  ]
  better_nisd-Tops e (some o) v = elim (Bool-cases (bar e)) [
    | inl b ↦
        let same : better_nisd h picked e (some o) ≡ some o = unfold better_nisd in rw b in
        rw same (v, λ r. cc (r, b), λ e' t. t, inl refl)
    | inr b ↦ elim (Bool-cases (slt64 o.alloc.available_size e.alloc.available_size)) [
      | inl less ↦
          let new : better_nisd h picked e (some o) ≡ some e =
            unfold better_nisd in rw b (rw less refl) in
          rw new (
            ap not b,
            λ _. slt64_irrefl e.alloc.available_size,
            λ e' t r. slt64_trans o.alloc.available_size e.alloc.available_size _ less (t r),
            inr refl,
          )
      | inr most ↦
          let same : better_nisd h picked e (some o) ≡ some o =
            unfold better_nisd in rw b (rw most refl) in
          rw same (v, λ _. most, λ e' t. t, inl refl)
    ]
  ]

  -- The fold's result is eligible and tops every entry; it is an entry, or where the fold began.
  pub fold_best-Tops :
      (es : List AllocEntry) (best : Option AllocEntry)
      → IsEligible? best
      → IsEligible? (fold_best h picked es best)
        × All (Tops (fold_best h picked es best)) es
        × ((e' : AllocEntry) → Tops best e' → Tops (fold_best h picked es best) e')
        × ((fold_best h picked es best ≡ best)
            ⊎ ((i : ℕ) × (fold_best h picked es best ≡ get_elem? es i) × (i < length es)))
  unfolding fold_best
  fold_best-Tops [] best v = (v, tt, λ e' t. t, inl refl)
  fold_best-Tops (e ∷ es) best v =
      let (v', top, keep, from) = better_nisd-Tops e best v in
      let (w, tops, keeps, came) = fold_best-Tops es (better_nisd h picked e best) v' in
      (w, (keeps e top, tops), λ e' t. keeps e' (keep e' t), origin from came)
    where
      origin :
          (better_nisd h picked e best ≡ best) ⊎ (better_nisd h picked e best ≡ some e)
          → (fold_best h picked es (better_nisd h picked e best) ≡ better_nisd h picked e best)
            ⊎ ((i : ℕ) × (fold_best h picked es (better_nisd h picked e best) ≡ get_elem? es i)
                × (i < length es))
          → (fold_best h picked es (better_nisd h picked e best) ≡ best)
            ⊎ ((i : ℕ) × (fold_best h picked es (better_nisd h picked e best)
                  ≡ get_elem? (e ∷ es) i)
                × (i < length (e ∷ es)))
      origin (inl a) (inl b) = inl (b ∙ a)
      origin (inr a) (inl b) = inr (0, b ∙ a, omega arith)
      origin _ (inr (i, b, lt)) = inr (suc i, b, omega arith)
