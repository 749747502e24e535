-- ===== src/Hierarchy/Pick/Rotation.antt =====
-- `PickDevice` of controlplane/ctlplanefuncs/server/hierarchy.go: the rotation visits every device, and
-- the choice is an eligible device, an unpicked one where there is one, or else one of least usage.
use niova_mdsvc.Prelude.{
  ℕ, suc, ◌+◌, ◌<◌, String, ◌≡◌, refl, sym, ap, ◌∙◌, ◌⊎◌, Bool, true, false, not, ◌&&◌, ◌||◌, inl,
  inr, Option, none, some, List, [], ◌∷◌, arith, length, get_elem?, elem, ◌==◌, slt64, add64, two63,
  Bool-cases, Option-cases, some_eq,
}
use mathlib.Core.Path.{subst}
use niova_mdsvc.CpLib.{DeviceAlloc}
use niova_mdsvc.CpLib.Blocks.{srem64}
use niova_mdsvc.Hierarchy.Pick.{
  DeviceUsageInfo, UsageMap, usage_of, known_usage, has_room, Fallback, no_fallback, keep_better,
  scan_devices,
}

-- `u` is not worse than `w`: less usage, or the same and no less space.
abbrev pub not_worse : DeviceUsageInfo → DeviceUsageInfo → Bool
not_worse u w =
    not (slt64 w.usage u.usage || (w.usage == u.usage && slt64 u.available_size w.available_size))

-- The counts of picks of the map are no negative int.
abbrev pub IsRanged : UsageMap → Type 0
IsRanged m = (k : String) (v : DeviceUsageInfo) → usage_of k m ≡ some v → v.usage < two63

pub IsRanged-nil : IsRanged []
unfolding usage_of
IsRanged-nil k v e = cc

known_usage-lt : (m : UsageMap) (dn : DeviceAlloc) → IsRanged m → (known_usage m dn).usage < two63
unfolding known_usage
known_usage-lt m dn r = elim (Option-cases (usage_of dn.id m)) [
  | inl e ↦ rw (e, known_usage) (omega arith)
  | inr (v, e) ↦ rw (e, known_usage) (r dn.id v e)
]

not_worse_trans :
    (u v w : DeviceUsageInfo)
    → u.usage < two63
    → v.usage < two63
    → w.usage < two63
    → not_worse u v ≡ true
    → not_worse v w ≡ true
    → not_worse u w ≡ true
not_worse_trans u v w hu hv hw a b = ground arith

abbrev is_better : DeviceUsageInfo → Fallback → Bool
is_better u b =
    slt64 u.usage b.best_usage || (u.usage == b.best_usage && slt64 b.best_avail u.available_size)

not_worse_refl : (u : DeviceUsageInfo) → not_worse u u ≡ true
not_worse_refl u = ground arith

module _ (u v : DeviceUsageInfo) (b : Fallback) (eu : b.best_usage ≡ v.usage)
    (ea : b.best_avail ≡ v.available_size) where
  better_not_worse : u.usage < two63 → v.usage < two63 → is_better u b ≡ true → not_worse u v ≡ true
  better_not_worse hu hv t = ground arith

  kept_not_worse : is_better u b ≡ false → not_worse v u ≡ true
  kept_not_worse t = ground arith

module _ (picked : List String) (m : UsageMap) (devices : List DeviceAlloc) (offset : ℕ) where
  -- The device of round `t`.
  abbrev pub visited : ℕ → Option DeviceAlloc
  visited t = get_elem? devices (srem64 (add64 offset t) (length devices))

  -- The fallback is no device yet, or an eligible device with its figures.
  abbrev pub IsKept : Fallback → Option DeviceAlloc → Type 0
  IsKept b none = b ≡ no_fallback
  IsKept b (some dn) =
      (has_room m dn ≡ true)
      × (elem dn.id picked ≡ true)
      × ((t : ℕ) × (visited t ≡ some dn))
      × (b.best_usage ≡ (known_usage m dn).usage)
      × (b.best_avail ≡ (known_usage m dn).available_size)

  abbrev pub Beats : Option DeviceAlloc → DeviceAlloc → Type 0
  Beats none d = ⊥
  Beats (some dn) d = not_worse (known_usage m dn) (known_usage m d) ≡ true

  -- An eligible device of an earlier round was picked before, and the fallback is not worse.
  abbrev pub Covers : ℕ → Option DeviceAlloc → Type 0
  Covers i o =
      (t : ℕ) (d : DeviceAlloc)
      → t < i
      → visited t ≡ some d
      → has_room m d ≡ true
      → (elem d.id picked ≡ true) × Beats o d

  abbrev pub Chosen : Option DeviceAlloc → Type 0
  Chosen none =
      (t : ℕ) (d : DeviceAlloc) → t < length devices → visited t ≡ some d → has_room m d ≡ false
  Chosen (some dn) =
      (has_room m dn ≡ true)
      × ((t : ℕ) × (visited t ≡ some dn))
      × ((elem dn.id picked ≡ false) ⊎ Covers (length devices) (some dn))

  -- At the end of the scan.
  finish :
      (b : Fallback) (o : Option DeviceAlloc)
      → b.best ≡ o
      → IsKept b o
      → Covers (length devices) o
      → Chosen b.best
  finish b none e k c =
      rw e (λ t d lt v. elim (Bool-cases (has_room m d)) [
        | inl r ↦ absurd (c t d lt v r).1
        | inr r ↦ r
      ])
  finish b (some dn) e (room, was, at, _, _) c = rw e (room, at, inr c)

  -- The better of the fallback and the device of round `i`.
  betters :
      (b : Fallback) (o : Option DeviceAlloc) (dn : DeviceAlloc) (i : ℕ)
      → IsRanged m
      → b.best ≡ o
      → IsKept b o
      → has_room m dn ≡ true
      → (((keep_better (known_usage m dn) dn b) ≡ b) × Beats o dn)
        ⊎ ((keep_better (known_usage m dn) dn b ≡ record {
          best = some dn;
          best_usage = (known_usage m dn).usage;
          best_avail = (known_usage m dn).available_size;
        })
            × ((d : DeviceAlloc) → Beats o d → Beats (some dn) d))
  unfolding keep_better
  betters b none dn i r e k room =
      inr (unfold has_room in ground (arith, known_usage-lt m dn r), λ d x. absurd x)
  betters b (some o) dn i r e (_, _, _, eu, ea) room =
      elim (Bool-cases (is_better (known_usage m dn) b)) [
        | inl t ↦ inr (
          rw t refl,
          λ d x.
              not_worse_trans _ (known_usage m o) _ (known_usage-lt m dn r) (known_usage-lt m o r)
                (known_usage-lt m d r)
                (better_not_worse _ _ b eu ea (known_usage-lt m dn r) (known_usage-lt m o r) t) x,
        )
        | inr t ↦ inl (rw t refl, kept_not_worse _ (known_usage m o) b eu ea t)
      ]

  -- The device of round `i` joins those covered.
  extend :
      (o : Option DeviceAlloc) (dn : DeviceAlloc) (i : ℕ)
      → Covers i o
      → visited i ≡ some dn
      → elem dn.id picked ≡ true
      → Beats o dn
      → Covers (suc i) o
  extend o dn i c v was beats t d lt vd r = elim (Bool-cases (t == i)) [
    | inl e ↦
        let e' : t ≡ i = ground arith in
        let same : dn ≡ d = some_eq (sym v ∙ ap visited (sym e') ∙ vd) in
        subst (λ d. (elem d.id picked ≡ true) × Beats o d) same (was, beats)
    | inr e ↦ c t d (ground arith) vd r
  ]

  -- A round that does not count.
  skip :
      (o : Option DeviceAlloc) (i : ℕ)
      → Covers i o
      → ((d : DeviceAlloc) → visited i ≡ some d → has_room m d ≡ false)
      → Covers (suc i) o
  skip o i c full t d lt vd r = elim (Bool-cases (t == i)) [
    | inl e ↦ let e' : t ≡ i = ground arith in cc (r, full d (ap visited (sym e') ∙ vd))
    | inr e ↦ c t d (ground arith) vd r
  ]

  round-Chosen :
      (i : ℕ) (x : DeviceAlloc) (scan : List DeviceAlloc) (b : Fallback) (o : Option DeviceAlloc)
      → IsRanged m
      → b.best ≡ o
      → IsKept b o
      → Covers i o
      → ((b' : Fallback) (o' : Option DeviceAlloc)
          → b'.best ≡ o'
          → IsKept b' o'
          → Covers (suc i) o'
          → Chosen (scan_devices picked m devices offset (i + 1) scan b'))
      → (v : Option DeviceAlloc) → visited i ≡ v
      → Chosen (scan_devices picked m devices offset i (x ∷ scan) b)
  unfolding scan_devices
  round-Chosen i x scan b o r e k c rest none v =
      rw (v, scan_devices) (rest b o e k (skip o i c (λ d vd. cc (v, vd))))
  round-Chosen i x scan b o r e k c rest (some dn) v = elim (Bool-cases (has_room m dn)) [
    | inr full ↦
        rw (v, scan_devices)
          (rw (full, scan_devices)
            (rest b o e k (skip o i c (λ d vd. ap (has_room m) (some_eq (sym vd ∙ v)) ∙ full))))
    | inl room ↦ elim (Bool-cases (elem dn.id picked)) [
      | inr fresh ↦
          rw (v, scan_devices)
            (rw (room, scan_devices) (rw (fresh, scan_devices) (room, (i, v), inl fresh)))
      | inl was ↦
          rw (v, scan_devices)
            (rw (room, scan_devices) (rw (was, scan_devices) (picked_before room was)))
    ]
  ]
    where
      picked_before :
          has_room m dn ≡ true
          → elem dn.id picked ≡ true
          → Chosen (
              scan_devices picked m devices offset
                (i + 1)
                scan
                (keep_better (known_usage m dn) dn b))
      picked_before room was = elim (betters b o dn i r e k room) [
        | inl (same, beats) ↦ rw same (rest b o e k (extend o dn i c v was beats))
        | inr (new, beats) ↦ rw new (
            rest _ (some dn) refl (room, was, (i, v), refl, refl)
              (extend (some dn) dn i
                (λ t d lt vd rm. ((c t d lt vd rm).0, beats d (c t d lt vd rm).1)) v was
                (not_worse_refl (known_usage m dn))))
      ]

  -- From any round on, with as many rounds left as the scan has items.
  pub scan_devices-Chosen :
      (i : ℕ) (scan : List DeviceAlloc) (b : Fallback) (o : Option DeviceAlloc)
      → IsRanged m
      → i + length scan ≡ length devices
      → b.best ≡ o
      → IsKept b o
      → Covers i o
      → Chosen (scan_devices picked m devices offset i scan b)
  scan_devices-Chosen i [] b o r n e k c =
      let e' : i ≡ length devices = omega arith in
      unfold scan_devices in finish b o e k (subst (λ j. Covers j o) e' c)
  scan_devices-Chosen i (x ∷ scan) b o r n e k c =
      let next : i + 1 + length scan ≡ length devices = omega arith in
      let one : suc i ≡ i + 1 = omega arith in
      round-Chosen i x scan b o r e k c
        (λ b' o' e' k' c'.
          scan_devices-Chosen (i + 1) scan b' o' r next e' k' (subst (λ j. Covers j o') one c'))
        (visited i) refl
