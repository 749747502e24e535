-- ===== src/Alloc/Search.antt =====
-- The search for an entity in `allocateNisdPerChunk` of
-- controlplane/ctlplanefuncs/server/srvctlplanefuncs.go: what it returns, when it ends, and when not.
use niova_mdsvc.Prelude.{
  add64, ℕ, zero, suc, ◌+◌, ◌-◌, ◌*◌, ◌%◌, ◌<◌, ◌≤◌, ◌≡◌, ◌≢◌, refl, sym, ap, ◌∙◌, ◌⊎◌, inl, inr,
  true, false, some, List, Outcome, Ends, ok, err, panic, running, arith, length, get_elem?, ltb,
  leb, if◌then◌else◌, Bool-cases, Option-cases,
}
use native.Mathlib.Nat.{mod-lt, mod-eq_of_lt, mod_self}
use niova_mdsvc.BTree.{BTree}
use niova_mdsvc.CpLib.{VdevReq, DeviceAlloc}
use niova_mdsvc.Hierarchy.{Heap, Hierarchy, Entities, Error}
use niova_mdsvc.Hierarchy.Pick.{AllocEntry, pick_device}
use niova_mdsvc.Hierarchy.Pick.Ends.{Ends-pick_device, Ends-pick_nisd_from_device}
use niova_mdsvc.Hierarchy.Pick.Members.{Keyed}
use niova_mdsvc.Alloc.Placement.{Sits, Keeps, place_block-Sits}
use niova_mdsvc.Alloc.{ChunkState, is_used, place_block, search_entity}

-- The index after `idx` in the round of `n`.
next_cases :
    (idx n : ℕ)
    → idx < n
    → (((idx + 1) % n ≡ idx + 1) × (idx + 1 < n)) ⊎ (((idx + 1) % n ≡ 0) × (idx + 1 ≡ n))
next_cases idx n h = elim (Bool-cases (ltb (idx + 1) n)) [
  | inl inside ↦ inl (mod-eq_of_lt (ground arith), ground arith)
  | inr edge ↦ let e : idx + 1 ≡ n = ground arith in inr (ap (λ m. m % n) e ∙ mod_self n, e)
]

-- How many steps it takes from `idx` to `u`.
abbrev pub distance : ℕ → ℕ → ℕ → ℕ
distance n u idx = if leb idx u then u - idx else u + n - idx

closer :
    (n u idx : ℕ) → u < n → idx < n → idx ≢ u → distance n u ((idx + 1) % n) + 1 ≡ distance n u idx
closer n u idx hu hi d = elim (next_cases idx n hi) [
  | inl (e, lt) ↦ rw e (ground arith)
  | inr (e, eq) ↦ rw e (ground arith)
]

pub distance-lt : (n u idx : ℕ) → u < n → idx < n → distance n u idx < n
distance-lt n u idx hu hi = ground arith

module _ (bt : BTree) (h : Heap) (hr : Hierarchy bt) (req : VdevReq) (chunk_idx offset : ℕ) where
  Ends-place_block :
      (ent : Entities bt) (i : ℕ) (s : ChunkState bt)
      → Ends (place_block bt h hr req chunk_idx offset ent i s).0
  unfolding place_block
  Ends-place_block ent i s =
      go (pick_device bt ent s.picked_devices s.usage _) refl
        (Ends-pick_device bt ent s.picked_devices s.usage _)
    where
      go :
          (r : Outcome Error DeviceAlloc)
          → pick_device bt ent s.picked_devices s.usage (add64 (add64 chunk_idx offset) i) ≡ r
          → Ends r
          → Ends (place_block bt h hr req chunk_idx offset ent i s).0
      go (ok dev) e t =
          rw (e, place_block)
            (ground (arith, Ends-pick_nisd_from_device bt h dev s.picked_nisd s.nisd_map))
      go (err x) e t = rw (e, place_block) tt
      go panic e t = absurd t
      go running e t = absurd t

  module _ (entities : List (Entities bt)) where
    abbrev search :
        ℕ → ℕ → ℕ → ℕ → ChunkState bt → Outcome Error (AllocEntry × ℕ × ℕ × ChunkState bt)
    search = search_entity bt h hr req chunk_idx offset entities

    -- One round of the search: all that can happen in it, for a property `P` of the result.
    pub search_entity-round {ℓ} :
        (P : Outcome Error (AllocEntry × ℕ × ℕ × ChunkState bt) → Type ℓ) (fuel i tried idx : ℕ)
        (s : ChunkState bt)
        → (length entities ≤ tried → (e : Error) → P (err e))
        → (tried < length entities
            → is_used idx s.picked_entity ≡ true
            → P (search fuel i tried ((idx + 1) % length entities) s))
        → (tried < length entities
            → is_used idx s.picked_entity ≡ false
            → (s' : ChunkState bt) → Keeps bt h s s'
            → P (search fuel i (tried + 1) ((idx + 1) % length entities) s'))
        → (tried < length entities
            → is_used idx s.picked_entity ≡ false
            → (ent : Entities bt) (dev : DeviceAlloc) (nisd : AllocEntry) (s' : ChunkState bt)
            → get_elem? entities idx ≡ some ent
            → Keeps bt h s s'
            → (Keyed bt h s.nisd_map → Sits bt h ent dev nisd)
            → P (ok (nisd, idx, (idx + 1) % length entities, s')))
        → P (search (suc fuel) i tried idx s)
    unfolding search_entity
    search_entity-round P fuel i tried idx s over used failed found =
        elim (Bool-cases (ltb tried (length entities))) [
          | inr o ↦ rw (o, search, search_entity) (over (ground arith) _)
          | inl t ↦ elim (Bool-cases (is_used idx s.picked_entity)) [
            | inl u ↦
                rw (t, search, search_entity)
                  (rw (u, search, search_entity) (used (ground arith) u))
            | inr f ↦ elim (Option-cases (get_elem? entities idx)) [
              | inl n ↦
                  rw (t, search, search_entity)
                    (rw (f, search, search_entity)
                      (rw (n, search, search_entity)
                        (failed (ground arith) f s (refl, refl, λ k. k))))
              | inr (ent, a) ↦ placed ent t f a _ refl (Ends-place_block ent i s)
            ]
          ]
        ]
      where
        placed :
            (ent : Entities bt)
            → ltb tried (length entities) ≡ true
            → is_used idx s.picked_entity ≡ false
            → get_elem? entities idx ≡ some ent
            → (r : Outcome Error (DeviceAlloc × AllocEntry))
            → (place_block bt h hr req chunk_idx offset ent i s).0 ≡ r
            → Ends r
            → P (search (suc fuel) i tried idx s)
        placed ent t f a (ok (dev, nisd)) e _ =
            rw (t, search, search_entity)
              (rw (f, search, search_entity)
                (rw (a, search, search_entity)
                  (rw (e, search, search_entity)
                    (found (ground arith) f ent dev nisd _ a
                      (place_block-Sits bt h hr req chunk_idx offset ent i s).0
                      ((place_block-Sits bt h hr req chunk_idx offset ent i s).1 dev nisd e)))))
        placed ent t f a (err x) e _ =
            rw (t, search, search_entity)
              (rw (f, search, search_entity)
                (rw (a, search, search_entity)
                  (rw (e, search, search_entity)
                    (failed (ground arith) f _
                      (place_block-Sits bt h hr req chunk_idx offset ent i s).0))))
        placed ent t f a panic e x = absurd x
        placed ent t f a running e x = absurd x

    -- A choice is an entity that no block of the chunk has, and the search changes nothing else of that.
    abbrev pub Found : List ℕ → Outcome Error (AllocEntry × ℕ × ℕ × ChunkState bt) → Type 0
    Found used (ok (nisd, picked, next, s')) =
        (is_used picked used ≡ false)
        × (picked < length entities)
        × (next < length entities)
        × (s'.picked_entity ≡ used)
    Found used (err e) = Unit
    Found used panic = Unit
    Found used running = Unit

    pub search_entity-Found :
        (fuel i tried idx : ℕ) (s : ChunkState bt) (used : List ℕ)
        → idx < length entities
        → s.picked_entity ≡ used
        → Found used (search_entity bt h hr req chunk_idx offset entities fuel i tried idx s)
    search_entity-Found zero i tried idx s used l e = unfold search_entity in tt
    search_entity-Found (suc fuel) i tried idx s used l e =
        search_entity-round (Found used) fuel i tried idx s (λ _ _. tt)
          (λ t u. search_entity-Found fuel i tried _ s used (next_lt t) e)
          (λ t u s' keeps.
            search_entity-Found fuel i (tried + 1) _ s' used (next_lt t) (keeps.0 ∙ e))
          (λ t u ent dev nisd s' at keeps sits.
            (ap (is_used idx) (sym e) ∙ u, l, next_lt t, keeps.0 ∙ e))
      where
        next_lt : tried < length entities → (idx + 1) % length entities < length entities
        next_lt t = mod-lt (idx + 1) (omega arith)

    -- As long as some entity `u` is not picked, `n` rounds of `n` steps are enough fuel.
    pub search_entity-Ends :
        (fuel k i tried idx u : ℕ) (s : ChunkState bt)
        → idx < length entities
        → u < length entities
        → is_used u s.picked_entity ≡ false
        → tried + k ≡ length entities
        → distance (length entities) u idx + k * length entities < fuel
        → Ends (search_entity bt h hr req chunk_idx offset entities fuel i tried idx s)
    search_entity-Ends zero k i tried idx u s l lu n t enough = absurd (omega arith)
    search_entity-Ends (suc fuel) zero i tried idx u s l lu n t enough =
        search_entity-round Ends fuel i tried idx s (λ _ _. tt) (λ lt. absurd (omega arith))
          (λ lt. absurd (omega arith)) (λ _ _ _ _ _ _ _ _ _. tt)
    search_entity-Ends (suc fuel) (suc k) i tried idx u s l lu n t enough =
        search_entity-round Ends fuel i tried idx s (λ _ _. tt)
          (λ lt used.
            search_entity-Ends fuel (suc k) i tried _ u s (next_lt lt) lu n t
              (omega (arith, walk used)))
          (λ lt _ s' keeps.
            search_entity-Ends fuel k i (tried + 1) _ u s' (next_lt lt) lu
              (ap (is_used u) keeps.0 ∙ n) (omega arith)
              (omega (arith, distance-lt _ u _ lu (next_lt lt))))
          (λ _ _ _ _ _ _ _ _ _. tt)
      where
        next_lt : tried < length entities → (idx + 1) % length entities < length entities
        next_lt t = mod-lt (idx + 1) (omega arith)

        walk :
            is_used idx s.picked_entity ≡ true
            → distance (length entities) u ((idx + 1) % length entities) + 1
              ≡ distance (length entities) u idx
        walk used = closer (length entities) u idx lu l λ same.
            let clash : true ≡ false = sym used ∙ ap (λ j. is_used j s.picked_entity) same ∙ n in cc

    -- If every entity of the level is picked, the search for an entity does not return within any number
    -- of steps.
    pub search_entity_hangs :
        (fuel i tried idx : ℕ) (s : ChunkState bt)
        → tried < length entities
        → idx < length entities
        → ((j : ℕ) → j < length entities → is_used j s.picked_entity ≡ true)
        → search_entity bt h hr req chunk_idx offset entities fuel i tried idx s ≡ running
    search_entity_hangs zero i tried idx s t l all = unfold search_entity in refl
    search_entity_hangs (suc fuel) i tried idx s t l all =
        search_entity-round (λ r. r ≡ running) fuel i tried idx s (λ over _. absurd (omega arith))
          (λ _ _. search_entity_hangs fuel i tried _ s t (mod-lt (idx + 1) (omega arith)) all)
          (λ _ f _ _. absurd (ground (arith, all idx l)))
          (λ _ f _ _ _ _ _ _ _. absurd (ground (arith, all idx l)))
