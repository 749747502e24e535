-- ===== src/Parser/Grouping.antt =====
-- What the map of entities holds under one ID after the loop of `ParseEntities` in
-- controlplane/ctlplanefuncs/server/parser.go.
use niova_mdsvc.Prelude.{
  String, ◌≡◌, ◌≢◌, refl, ◌∙◌, ap, Option, none, some, List, [], ◌∷◌, str_eq, if◌then◌else◌, arith,
  All, eq_iff, ◌⊎◌, true, false, sym, str_eq→eq, Bool-cases, inl, inr, Option-cases,
}
use niova_mdsvc.Keys.{key_parts}
use niova_mdsvc.Authorizer.{lookup}
use niova_mdsvc.Parser.{ParseEntity, update, collect}

abbrev pub or_else {ℓ} : {A : Type ℓ} → Option A → A → A
or_else none d = d
or_else (some a) d = a

module _ {E : Type 0} where
  lookup-update :
      (i id : String) (new : E) (f : E → E) (m : List (String × E))
      → lookup i (update id new f m)
        ≡ (if str_eq id i then some (f (or_else (lookup i m) new)) else lookup i m)
  unfolding update
  lookup-update i id new f [] = refl
  lookup-update i id new f ((j, e) ∷ m) =
      ground (arith, eq_iff id i, eq_iff j i, eq_iff j id, lookup-update i id new f m)

module _ {E R : Type 0} (pe : ParseEntity E R) (select : List String → Option String)
    (P : String → E → Type 0) (new : (id : String) → P id (pe.new_entity id))
    (parsed : (id : String) (e : E) (parts : List String) (v : String)
      → P id e
      → P id (pe.parse_field e parts v)) where
  update-All :
      (id : String) (parts : List String) (v : String) (m : List (String × E))
      → All (λ (p : String × E). P p.0 p.1) m
      → All
          (λ (p : String × E). P p.0 p.1)
          (update id (pe.new_entity id) (λ e. pe.parse_field e parts v) m)
  unfolding update
  update-All id parts v [] a = (parsed id (pe.new_entity id) parts v (new id), tt)
  update-All id parts v ((j, e) ∷ m) a = elim (Bool-cases (str_eq j id)) [
    | inl t ↦ rw t (parsed j e parts v a.0, a.1)
    | inr t ↦ rw t (a.0, update-All id parts v m a.1)
  ]

  -- What a new entity has and parsing keeps, every entity of the map has.
  pub collect-All :
      (kvs : List (String × String)) (m : List (String × E))
      → All (λ (p : String × E). P p.0 p.1) m
      → All (λ (p : String × E). P p.0 p.1) (collect pe select kvs m)
  unfolding collect
  collect-All [] m a = a
  collect-All ((k, v) ∷ kvs) m a =
      collect-All kvs _
        (elim (select (key_parts k))
          as (λ o.
            All (λ (p : String × E). P p.0 p.1)
              (elim o [
                | none ↦ m
                | some id ↦ update id (pe.new_entity id) (λ e. pe.parse_field e (key_parts k) v) m
              ])) [ none ↦ a | some id ↦ update-All id (key_parts k) v m a ])

module _ {E R : Type 0} (pe : ParseEntity E R) (select : List String → Option String) where
  -- The pieces and values of the keys that belong to this ID, in the order of the read.
  unfoldable pub own : String → List (String × String) → List (List String × String)
  own i [] = []
  own i ((k, v) ∷ kvs) = elim (select (key_parts k)) [
    | none ↦ own i kvs
    | some id ↦ if str_eq id i then (key_parts k, v) ∷ own i kvs else own i kvs
  ]

  unfoldable pub parse_all : E → List (List String × String) → E
  parse_all e [] = e
  parse_all e ((parts, v) ∷ fields) = parse_all (pe.parse_field e parts v) fields

  -- The entity of this ID after its fields, of a new one if there was none.
  unfoldable pub grown : String → Option E → List (List String × String) → Option E
  unfolding parse_all
  grown i o [] = o
  grown i o (field ∷ fields) = some (parse_all (or_else o (pe.new_entity i)) (field ∷ fields))

  grown-cons :
      (i : String) (o : Option E) (parts : List String) (v : String)
      (fields : List (List String × String))
      → grown i (some (pe.parse_field (or_else o (pe.new_entity i)) parts v)) fields
        ≡ grown i o ((parts, v) ∷ fields)
  unfolding grown
  grown-cons i o parts v [] = refl
  grown-cons i o parts v (field ∷ fields) = refl

  grown-nil : (i : String) (o : Option E) → o ≡ grown i o []
  unfolding grown
  grown-nil i o = refl

  module _ (k v : String) (kvs : List (String × String)) where
    collect-skip :
        (m : List (String × E))
        → select (key_parts k) ≡ none
        → collect pe select ((k, v) ∷ kvs) m ≡ collect pe select kvs m
    unfolding collect
    collect-skip m e = rw e refl

    collect-take :
        (id : String) (m : List (String × E))
        → select (key_parts k) ≡ some id
        → collect pe select ((k, v) ∷ kvs) m
          ≡ collect pe select kvs
              (update id (pe.new_entity id) (λ e. pe.parse_field e (key_parts k) v) m)
    unfolding collect
    collect-take id m e = rw e refl

    own-skip : (i : String) → select (key_parts k) ≡ none → own i ((k, v) ∷ kvs) ≡ own i kvs
    unfolding own
    own-skip i e = rw (e, own) refl

    own-take :
        (i id : String)
        → select (key_parts k) ≡ some id
        → own i ((k, v) ∷ kvs) ≡ (if str_eq id i then (key_parts k, v) ∷ own i kvs else own i kvs)
    unfolding own
    own-take i id e = rw (e, own) refl

  pub own-nil : (i : String) → own i [] ≡ []
  unfolding own
  own-nil i = refl

  -- A key belongs to the ID or is passed over.
  abbrev pub OwnCases : String → String → String → List (String × String) → Type 0
  OwnCases i k v kvs =
      ((select (key_parts k) ≡ some i) × (own i ((k, v) ∷ kvs) ≡ (key_parts k, v) ∷ own i kvs))
      ⊎ ((select (key_parts k) ≢ some i) × (own i ((k, v) ∷ kvs) ≡ own i kvs))

  pub own_cases : (i k v : String) (kvs : List (String × String)) → OwnCases i k v kvs
  own_cases i k v kvs = elim (Option-cases (select (key_parts k))) [
    | inl e ↦ inr (λ h. cc, own-skip k v kvs i e)
    | inr (id, e) ↦ elim (Bool-cases (str_eq id i)) [
      | inl same ↦ inl (e ∙ ap some (str_eq→eq id i same), own-take k v kvs i id e ∙ rw same refl)
      | inr other ↦ inr (
        λ h. absurd (ground (arith, eq_iff id i, other, e, h)),
        own-take k v kvs i id e ∙ rw other refl,
      )
    ]
  ]

  at_end :
      (i : String) (m : List (String × E))
      → lookup i (collect pe select [] m) ≡ grown i (lookup i m) (own i [])
  unfolding collect own
  at_end i m = grown-nil i (lookup i m)

  taken :
      (i k v : String) (kvs : List (String × String)) (m : List (String × E)) (id : String)
      → select (key_parts k) ≡ some id
      → (str_eq id i ≡ true) ⊎ (str_eq id i ≡ false)
      → grown i
          (lookup i (update id (pe.new_entity id) (λ e. pe.parse_field e (key_parts k) v) m))
          (own i kvs)
        ≡ grown i (lookup i m) (own i ((k, v) ∷ kvs))
  taken i k v kvs m id e (inl same) =
      rw (lookup-update i id (pe.new_entity id) (λ e. pe.parse_field e (key_parts k) v) m) (
        rw (own-take k v kvs i id e) (
          rw same
            (rw (str_eq→eq id i same) (grown-cons i (lookup i m) (key_parts k) v (own i kvs)))))
  taken i k v kvs m id e (inr other) =
      rw (lookup-update i id (pe.new_entity id) (λ e. pe.parse_field e (key_parts k) v) m)
        (rw (own-take k v kvs i id e) (rw other refl))

  -- ParseEntitiesMap keeps the entities apart: whatever keys of others the read result has between them,
  -- the entity of an ID is the one that was there, or else a new one, into which the ID's own keys were
  -- parsed in their order, and there is none exactly when there was none and the ID has no key.
  pub lookup-collect :
      (i : String) (kvs : List (String × String)) (m : List (String × E))
      → lookup i (collect pe select kvs m) ≡ grown i (lookup i m) (own i kvs)
  lookup-collect i [] m = at_end i m
  lookup-collect i ((k, v) ∷ kvs) m = elim (Option-cases (select (key_parts k))) [
    | inl e ↦
        ap (lookup i) (collect-skip k v kvs m e)
        ∙ lookup-collect i kvs m
        ∙ ap (grown i (lookup i m)) (sym (own-skip k v kvs i e))
    | inr (id, e) ↦
        ap (lookup i) (collect-take k v kvs id m e)
        ∙ lookup-collect i kvs _
        ∙ taken i k v kvs m id e (Bool-cases (str_eq id i))
  ]
