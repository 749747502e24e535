-- ===== src/Hierarchy/Devices/Resize.antt =====
-- The count of a device while `applyNISDAlloc` of controlplane/ctlplanefuncs/server/srvctlplanefuncs.go
-- changes the size of one of its NISDs.
use mathlib.Core.Bool.{true≢false}
use niova_mdsvc.Prelude.{
  ℕ, String, ◌≡◌, refl, sym, ap, ◌∙◌, Bool, true, false, ◌||◌, inl, inr, Option, none, some, List,
  [], ◌∷◌, arith, str_eq, eq_refl, ◌==◌, Bool-cases, add64, sub64,
}
use niova_mdsvc.CpLib.{Nisd, DeviceAlloc}
use niova_mdsvc.Hierarchy.{Heap, write, cut_nisd, remove_nisd_from_device}
use niova_mdsvc.Hierarchy.Devices.{
  sum_sizes, sum_sizes-lt, has_nisd, Distinct, IsCounted, Cut, cut_nisd-Cut,
}

-- `dn.AvailableSize += delta`
unfoldable pub resize_device : DeviceAlloc → ℕ → DeviceAlloc
resize_device dn delta = record dn { available_size = add64 dn.available_size delta }

-- Whether a list of pointers has one.
unfoldable pub points : ℕ → List ℕ → Bool
points p [] = false
points p (q ∷ qs) = p == q || points p qs

module _ (h : Heap) (p : ℕ) (n : Nisd) where
  id-write : n.id ≡ (h p).id → (q : ℕ) → (write h p n q).id ≡ (h q).id
  id-write same q = ground (arith, same)

  has_nisd-write :
      n.id ≡ (h p).id
      → (id : String) (qs : List ℕ) → has_nisd (write h p n) id qs ≡ has_nisd h id qs
  unfolding has_nisd
  has_nisd-write same id [] = refl
  has_nisd-write same id (q ∷ qs) = rw (id-write same q) (rw (has_nisd-write same id qs) refl)

  Distinct-write : n.id ≡ (h p).id → (qs : List ℕ) → Distinct h qs → Distinct (write h p n) qs
  Distinct-write same [] d = tt
  Distinct-write same (q ∷ qs) d = (
    ap (λ i. has_nisd (write h p n) i qs) (id-write same q) ∙ has_nisd-write same (h q).id qs ∙ d.0,
    Distinct-write same qs d.1,
  )

  has-of_points : (qs : List ℕ) → points p qs ≡ true → has_nisd h (h p).id qs ≡ true
  unfolding has_nisd points
  has-of_points [] e = absurd (ground (arith, e))
  has-of_points (q ∷ qs) e = elim (Bool-cases (p == q)) [
    | inl here ↦
        let same : p ≡ q = ground arith in
        let hit : str_eq (h q).id (h p).id ≡ true =
          ap (λ r. str_eq (h r).id (h p).id) (sym same) ∙ eq_refl (h p).id in
        rw hit refl
    | inr there ↦
        let rest : has_nisd h (h p).id qs ≡ true = has-of_points qs (ground (arith, e, there)) in
        ground (arith, rest)
  ]

  sum_sizes-write_other :
      (qs : List ℕ) → points p qs ≡ false → sum_sizes (write h p n) qs ≡ sum_sizes h qs
  unfolding sum_sizes points
  sum_sizes-write_other [] e = refl
  sum_sizes-write_other (q ∷ qs) e = ground (arith, sum_sizes-write_other qs)

  -- The sum follows the change of size of one NISD of the list.
  sum_sizes-write :
      (qs : List ℕ)
      → Distinct h qs
      → points p qs ≡ true
      → sum_sizes (write h p n) qs
        ≡ add64 (sum_sizes h qs) (sub64 n.available_size (h p).available_size)
  unfolding sum_sizes points
  sum_sizes-write [] d e = absurd (ground (arith, e))
  sum_sizes-write (q ∷ qs) d e = elim (Bool-cases (p == q)) [
    | inl here ↦
        let same : p ≡ q = ground arith in
        let size : (h q).available_size ≡ (h p).available_size =
          ap (λ r. (h r).available_size) (sym same) in
        rw here (omega (arith, size, sum_sizes-write_other qs (once same), sum_sizes-lt h qs))
    | inr there ↦ rw there (omega (arith, sum_sizes-write qs d.1 (ground (arith, e, there))))
  ]
    where
      once : p ≡ q → points p qs ≡ false
      once same = elim (Bool-cases (points p qs)) [
        | inr f ↦ f
        | inl t ↦
            let twice : has_nisd h (h q).id qs ≡ true =
              ap (λ r. has_nisd h (h r).id qs) (sym same) ∙ has-of_points qs t in
            absurd (ground (arith, twice, d.0))
      ]

  -- If a NISD of a device changes its size and the difference is added to the device, the device's
  -- available size is again the sum over its NISDs.
  pub resize_device-IsCounted :
      (dn : DeviceAlloc)
      → n.id ≡ (h p).id
      → points p dn.nisds ≡ true
      → IsCounted h dn
      → IsCounted (write h p n) (resize_device dn (sub64 n.available_size (h p).available_size))
  unfolding resize_device
  resize_device-IsCounted dn same on v = record {
    counted =
        ap (λ a. add64 a (sub64 n.available_size (h p).available_size)) v.counted
        ∙ sym (sum_sizes-write dn.nisds v.distinct on);
    distinct = Distinct-write same dn.nisds v.distinct;
  }

  -- If the size of a NISD is written before the NISD is removed from its device, the device's available
  -- size is the sum over the remaining NISDs plus what the NISD had lost.
  pub remove_nisd_from_device-stale :
      (dn : DeviceAlloc)
      → n.id ≡ (h p).id
      → points p dn.nisds ≡ true
      → IsCounted h dn
      → let dn' = (remove_nisd_from_device (write h p n) dn n.id).0 in
        dn'.available_size
        ≡ add64 (sum_sizes (write h p n) dn'.nisds) (sub64 (h p).available_size n.available_size)
  unfolding remove_nisd_from_device
  remove_nisd_from_device-stale dn same on v =
      go (cut_nisd (write h p n) n.id dn.nisds) refl (cut_nisd-Cut (write h p n) n.id dn.nisds)
    where
      go :
          (r : Option (ℕ × List ℕ))
          → cut_nisd (write h p n) n.id dn.nisds ≡ r
          → Cut (write h p n) n.id dn.nisds r
          → let dn' = (remove_nisd_from_device (write h p n) dn n.id).0 in
            dn'.available_size
            ≡ add64
                (sum_sizes (write h p n) dn'.nisds)
                (sub64 (h p).available_size n.available_size)
      go none e f =
          let held : has_nisd (write h p n) n.id dn.nisds ≡ true =
            has_nisd-write same n.id dn.nisds
            ∙ ap (λ i. has_nisd h i dn.nisds) same
            ∙ has-of_points dn.nisds on in
          absurd (true≢false (sym held ∙ f))
      go (some (x, rs)) e f =
          let (sum, _, _) = f in
          rw (e, remove_nisd_from_device)
            (omega (
              arith,
              sum,
              v.counted,
              sum_sizes-write dn.nisds v.distinct on,
              sum_sizes-lt (write h p n) rs,
              sum_sizes-lt h dn.nisds,
            ))
