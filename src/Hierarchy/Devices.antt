-- ===== src/Hierarchy/Devices.antt =====
-- `addNisdToDevice` and `removeNisdFromDevice` of controlplane/ctlplanefuncs/server/hierarchy.go keep a
-- device's count of available bytes equal to the sum over its NISDs, in int64 arithmetic.
pub mod Resize
use niova_mdsvc.Prelude.{
  ℕ, ◌+◌, ◌%◌, String, ◌≡◌, ◌≢◌, refl, sym, ap, ◌∙◌, Bool, true, false, not, ◌||◌, ◌&&◌, ◌↔◌, ◌<◌,
  inl, inr, Option, none, some, List, [], ◌∷◌, ◌++◌, arith, str_eq, eq_iff, str_eq→eq,
  if◌then◌else◌, Bool-cases, Option-cases, add64, sub64, two64,
}
use niova_mdsvc.CpLib.{DeviceAlloc}
use niova_mdsvc.Hierarchy.{
  Heap, replace_nisd, cut_nisd, keep_behind, is_empty, add_nisd_to_device, remove_nisd_from_device,
  new_device,
}

unfoldable pub sum_sizes : Heap → List ℕ → ℕ
sum_sizes h [] = 0
sum_sizes h (q ∷ qs) = add64 (h q).available_size (sum_sizes h qs)

unfoldable pub has_nisd : Heap → String → List ℕ → Bool
has_nisd h id [] = false
has_nisd h id (q ∷ qs) = str_eq (h q).id id || has_nisd h id qs

-- No two NISDs of the list have one ID.
abbrev pub Distinct : Heap → List ℕ → Type 0
Distinct h [] = Unit
Distinct h (q ∷ qs) = (has_nisd h (h q).id qs ≡ false) × Distinct h qs

pub record IsCounted (h : Heap) (dn : DeviceAlloc) : Type 0 where
  pub counted : dn.available_size ≡ sum_sizes h dn.nisds
  pub distinct : Distinct h dn.nisds

sum_sizes-append :
    (h : Heap) (qs : List ℕ) (p : ℕ)
    → sum_sizes h (qs ++ p ∷ []) ≡ add64 (sum_sizes h qs) (h p).available_size
unfolding sum_sizes
sum_sizes-append h [] p = omega arith
sum_sizes-append h (q ∷ qs) p = omega (arith, sum_sizes-append h qs p)

has_nisd-append :
    (h : Heap) (id : String) (qs : List ℕ) (p : ℕ)
    → has_nisd h id (qs ++ p ∷ []) ≡ (has_nisd h id qs || str_eq (h p).id id)
unfolding has_nisd
has_nisd-append h id [] p = ground arith
has_nisd-append h id (q ∷ qs) p = ground (arith, has_nisd-append h id qs p)

Distinct-append :
    (h : Heap) (qs : List ℕ) (p : ℕ)
    → Distinct h qs
    → has_nisd h (h p).id qs ≡ false
    → Distinct h (qs ++ p ∷ [])
Distinct-append h [] p d n = (unfold has_nisd in refl, tt)
Distinct-append h (q ∷ qs) p d n = (
  unfold has_nisd in
      ground (
        arith,
        has_nisd-append h (h q).id qs p,
        d.0,
        n,
        eq_iff (h q).id (h p).id,
        eq_iff (h p).id (h q).id,
      ),
  Distinct-append h qs p d.1 (unfold has_nisd in ground (arith, n)),
)

sum_sizes-lt : (h : Heap) (qs : List ℕ) → sum_sizes h qs < two64
unfolding sum_sizes
sum_sizes-lt h [] = omega arith
sum_sizes-lt h (q ∷ qs) = omega arith

is_empty_iff : (qs : List ℕ) → (is_empty qs ≡ true) ↔ (qs ≡ [])
unfolding is_empty
is_empty_iff [] = ground arith
is_empty_iff (q ∷ qs) = ground arith

-- What the loop of `addNisdToDevice` finds.
abbrev Replaced : Heap → ℕ → List ℕ → Option (ℕ × List ℕ) → Type 0
Replaced h p qs none = has_nisd h (h p).id qs ≡ false
Replaced h p qs (some (e, rs)) =
    (add64 (sum_sizes h rs) (h e).available_size ≡ add64 (sum_sizes h qs) (h p).available_size)
    × (has_nisd h (h p).id qs ≡ true)
    × ((id : String) → has_nisd h id rs ≡ has_nisd h id qs)
    × (Distinct h qs → Distinct h rs)

replace_nisd-Replaced : (h : Heap) (p : ℕ) (qs : List ℕ) → Replaced h p qs (replace_nisd h p qs)
unfolding replace_nisd sum_sizes has_nisd
replace_nisd-Replaced h p [] = refl
replace_nisd-Replaced h p (q ∷ qs) = elim (Bool-cases (str_eq (h q).id (h p).id)) [
  | inl same ↦
      let e = str_eq→eq (h q).id (h p).id same in
      rw same (omega arith, ground (arith, same), λ id. rw e refl, λ d. (rw e at d.0, d.1))
  | inr other ↦ rw other (behind (replace_nisd h p qs) (replace_nisd-Replaced h p qs) other)
]
  where
    behind :
        (r : Option (ℕ × List ℕ))
        → Replaced h p qs r
        → str_eq (h q).id (h p).id ≡ false
        → Replaced h p (q ∷ qs) (keep_behind q r)
    behind none n other = ground arith
    behind (some (e, rs)) f other = (
      omega (arith, f.0),
      ground (arith, f.1),
      λ id. ground (arith, f.2 id),
      λ d. (f.2 (h q).id ∙ d.0, f.3 d.1),
    )

-- Adding or replacing a NISD keeps a device's available size equal to the sum over its NISDs and their IDs
-- apart, and the device then holds what it held and that NISD.
pub add_nisd_to_device-IsCounted :
    (h : Heap) (dn : DeviceAlloc) (p : ℕ)
    → IsCounted h dn
    → IsCounted h (add_nisd_to_device h dn p)
      × ((id : String)
          → has_nisd h id (add_nisd_to_device h dn p).nisds
            ≡ (str_eq (h p).id id || has_nisd h id dn.nisds))
unfolding add_nisd_to_device
add_nisd_to_device-IsCounted h dn p v =
    go (replace_nisd h p dn.nisds) refl (replace_nisd-Replaced h p dn.nisds)
  where
    go :
        (r : Option (ℕ × List ℕ))
        → replace_nisd h p dn.nisds ≡ r
        → Replaced h p dn.nisds r
        → IsCounted h (add_nisd_to_device h dn p)
          × ((id : String)
              → has_nisd h id (add_nisd_to_device h dn p).nisds
                ≡ (str_eq (h p).id id || has_nisd h id dn.nisds))
    go none e f =
        let new = f in
        rw (e, add_nisd_to_device)
          (
            record {
              counted = omega (arith, sum_sizes-append h dn.nisds p, v.counted);
              distinct = Distinct-append h dn.nisds p v.distinct new;
            },
            λ id. ground (arith, has_nisd-append h id dn.nisds p),
          )
    go (some (x, rs)) e f =
        let (sum, held, same, apart) = f in
        rw (e, add_nisd_to_device)
          (
            record {
              counted = omega (arith, sum, v.counted, sum_sizes-lt h rs);
              distinct = apart v.distinct;
            },
            λ id. ground (arith, same id, held, eq_iff (h p).id id),
          )

-- What the loop of `removeNisdFromDevice` finds.
abbrev pub Cut : Heap → String → List ℕ → Option (ℕ × List ℕ) → Type 0
Cut h id qs none = has_nisd h id qs ≡ false
Cut h id qs (some (e, rs)) =
    (sum_sizes h qs ≡ add64 (h e).available_size (sum_sizes h rs))
    × ((j : String) → has_nisd h j qs ≡ (str_eq id j || has_nisd h j rs))
    × (Distinct h qs → Distinct h rs × (has_nisd h id rs ≡ false))

pub cut_nisd-Cut : (h : Heap) (id : String) (qs : List ℕ) → Cut h id qs (cut_nisd h id qs)
unfolding cut_nisd sum_sizes has_nisd
cut_nisd-Cut h id [] = refl
cut_nisd-Cut h id (q ∷ qs) = elim (Bool-cases (str_eq (h q).id id)) [
  | inl same ↦
      let e = str_eq→eq (h q).id id same in rw same (refl, λ j. rw e refl, λ d. (d.1, rw e at d.0))
  | inr other ↦ rw other (behind (cut_nisd h id qs) (cut_nisd-Cut h id qs) other)
]
  where
    behind :
        (r : Option (ℕ × List ℕ))
        → Cut h id qs r
        → str_eq (h q).id id ≡ false
        → Cut h id (q ∷ qs) (keep_behind q r)
    behind none n other = ground arith
    behind (some (e, rs)) f other = (
      omega (arith, f.0),
      λ j. ground (arith, f.1 j),
      λ d. ((ground (arith, f.1 (h q).id, d.0), (f.2 d.1).0), ground (arith, other, (f.2 d.1).1)),
    )

-- Removing a NISD keeps a device's available size equal to the sum over its NISDs; the device then holds
-- what it held but that NISD, and is reported empty exactly when it holds none.
pub remove_nisd_from_device-IsCounted :
    (h : Heap) (dn : DeviceAlloc) (id : String)
    → IsCounted h dn
    → let (dn', empty) = remove_nisd_from_device h dn id in
      IsCounted h dn'
      × ((j : String) → has_nisd h j dn'.nisds ≡ (not (str_eq id j) && has_nisd h j dn.nisds))
      × ((empty ≡ true) ↔ (dn'.nisds ≡ []))
unfolding remove_nisd_from_device
remove_nisd_from_device-IsCounted h dn id v =
    go (cut_nisd h id dn.nisds) refl (cut_nisd-Cut h id dn.nisds)
  where
    go :
        (r : Option (ℕ × List ℕ))
        → cut_nisd h id dn.nisds ≡ r
        → Cut h id dn.nisds r
        → let (dn', empty) = remove_nisd_from_device h dn id in
          IsCounted h dn'
          × ((j : String) → has_nisd h j dn'.nisds ≡ (not (str_eq id j) && has_nisd h j dn.nisds))
          × ((empty ≡ true) ↔ (dn'.nisds ≡ []))
    go none e f =
        let absent = f in
        rw (e, remove_nisd_from_device)
          (v, λ j. ground (arith, absent, eq_iff id j), is_empty_iff dn.nisds)
    go (some (x, rs)) e f =
        let (sum, held, apart) = f in
        rw (e, remove_nisd_from_device)
          (
            record {
              counted = omega (arith, sum, v.counted, sum_sizes-lt h rs);
              distinct = (apart v.distinct).0;
            },
            λ j. ground (arith, held j, (apart v.distinct).1, eq_iff id j),
            is_empty_iff rs,
          )

pub IsCounted-new_device : (h : Heap) (dev : String) → IsCounted h (new_device dev)
IsCounted-new_device h dev = record { counted = unfold sum_sizes in refl; distinct = tt }

pub has-ne-nil : (h : Heap) (n : String) (qs : List ℕ) → has_nisd h n qs ≡ true → qs ≢ []
unfolding has_nisd
has-ne-nil h n [] e = cc
has-ne-nil h n (q ∷ qs) e = λ m. cc

pub has_nisd-nil : (h : Heap) (n : String) → has_nisd h n [] ≡ false
unfolding has_nisd
has_nisd-nil h n = refl
