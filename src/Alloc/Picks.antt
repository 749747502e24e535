-- ===== src/Alloc/Picks.antt =====
-- Sets of picked entities, as lists of indices without duplicates, and how many there can be.
use niova_mdsvc.Prelude.{
  ℕ, zero, suc, ◌+◌, ◌<◌, ◌≤◌, ◌≡◌, inl, inr, true, false, List, [], ◌∷◌, arith, All, length, ◌==◌,
  if◌then◌else◌, Bool-cases,
}
use niova_mdsvc.Alloc.{is_used}

-- No index comes twice.
abbrev pub NoDup : List ℕ → Type 0
NoDup [] = Unit
NoDup (i ∷ is) = (is_used i is ≡ false) × NoDup is

drop_index : ℕ → List ℕ → List ℕ
drop_index i [] = []
drop_index i (j ∷ js) = let rest = drop_index i js in if i == j then rest else j ∷ rest

le-drop_index : (i : ℕ) (js : List ℕ) → length (drop_index i js) ≤ length js
unfolding drop_index
le-drop_index i [] = omega arith
le-drop_index i (j ∷ js) = ground (arith, le-drop_index i js)

length-drop_index :
    (i : ℕ) (js : List ℕ) → is_used i js ≡ true → length (drop_index i js) < length js
unfolding drop_index is_used
length-drop_index i [] u = cc
length-drop_index i (j ∷ js) u = ground (arith, length-drop_index i js, le-drop_index i js)

is_used-drop_index :
    (i k : ℕ) (js : List ℕ) → k < i → is_used k js ≡ true → is_used k (drop_index i js) ≡ true
unfolding drop_index is_used
is_used-drop_index i k [] lt u = cc
is_used-drop_index i k (j ∷ js) lt u = ground (arith, is_used-drop_index i k js lt)

-- Fewer than `n` picks leave an index below `n` free.
pub free_index : (n : ℕ) (js : List ℕ) → length js < n → (u : ℕ) × (u < n) × (is_used u js ≡ false)
free_index zero js lt = absurd (omega arith)
free_index (suc n) js lt = elim (Bool-cases (is_used n js)) [
  | inr f ↦ (n, omega arith, f)
  | inl u ↦
      let (v, below, f) =
        free_index n (drop_index n js) (omega (arith, length-drop_index n js u)) in
      elim (Bool-cases (is_used v js)) [
        | inr f' ↦ (v, omega arith, f')
        | inl u' ↦ absurd (ground (arith, is_used-drop_index n v js below u', f))
      ]
]

free-drop_index :
    (i k : ℕ) (js : List ℕ) → is_used k js ≡ false → is_used k (drop_index i js) ≡ false
unfolding drop_index is_used
free-drop_index i k [] f = f
free-drop_index i k (j ∷ js) f = ground (arith, free-drop_index i k js)

NoDup-drop_index : (i : ℕ) (js : List ℕ) → NoDup js → NoDup (drop_index i js)
unfolding drop_index
NoDup-drop_index i [] d = tt
NoDup-drop_index i (j ∷ js) d =
    ground (arith, NoDup-drop_index i js d.1, free-drop_index i j js d.0)

unused-drop_index :
    (i : ℕ) (js : List ℕ) → is_used i js ≡ false → length js ≤ length (drop_index i js)
unfolding drop_index is_used
unused-drop_index i [] f = omega arith
unused-drop_index i (j ∷ js) f = ground (arith, unused-drop_index i js)

shorter-drop_index : (i : ℕ) (js : List ℕ) → NoDup js → length js ≤ length (drop_index i js) + 1
unfolding drop_index
shorter-drop_index i [] d = omega arith
shorter-drop_index i (j ∷ js) d =
    ground (arith, shorter-drop_index i js d.1, unused-drop_index i js, d.0)

below-drop_index :
    (n : ℕ) (js : List ℕ) → All (λ j. j < suc n) js → All (λ j. j < n) (drop_index n js)
unfolding drop_index
below-drop_index n [] a = tt
below-drop_index n (j ∷ js) a = ground (arith, below-drop_index n js a.1, a.0)

-- There are at most `n` different indices below `n`.
pub length-NoDup : (n : ℕ) (js : List ℕ) → NoDup js → All (λ j. j < n) js → length js ≤ n
length-NoDup n [] d a = omega arith
length-NoDup zero (j ∷ js) d a = absurd (omega (arith, a.0))
length-NoDup (suc n) (j ∷ js) d a = omega (
  arith,
  shorter-drop_index n (j ∷ js) d,
  length-NoDup n (drop_index n (j ∷ js)) (NoDup-drop_index n (j ∷ js) d)
      (below-drop_index n (j ∷ js) a),
)
