-- ===== src/Parser/Holds.antt =====
-- A read result that holds the changes of one entity, `PopulateEntities` of
-- controlplane/ctlplanefuncs/server/populate.go, in any order and among other keys.
use mathlib.Core.Path.{subst}
use niova_mdsvc.Prelude.{
  String, ◌≡◌, ◌≢◌, refl, sym, ap, ◌∙◌, ◌⊎◌, inl, inr, Option, some, List, [], ◌∷◌, str_eq,
  Bool-cases, str_eq→eq,
}
use niova_mdsvc.Keys.{key_parts}
use niova_mdsvc.Commit.{CommitChg, change, ◌/◌}
use niova_mdsvc.Populate.{all_fields, set_fields}
use niova_mdsvc.Parser.{ParseEntity}
use niova_mdsvc.Parser.Grouping.{own, own-nil, OwnCases, own_cases}
use niova_mdsvc.Parser.Fields.{Among}
use niova_mdsvc.Parser.Stored.{Stored}

-- Among the pairs are all of the changes, and every pair that belongs to the ID is one of the changes.
pub record Holds (select : List String → Option String) (i : String) (cs : List CommitChg)
    (kvs : List (String × String)) : Type 0 where
  pub only :
      (k v : String) → Among (k, v) kvs → select (key_parts k) ≡ some i → Among (change k v) cs
  pub all : (k v : String) → Among (change k v) cs → Among (k, v) kvs

-- The changes of the fields of an entity are pairs of a key that the pieces give and the field's value.
pub record FieldsOf (key_of : String → String) (fields : List (String × String))
    (cs : List CommitChg) : Type 0 where
  pub only :
      (k v : String) → Among (change k v) cs → (f : String) × Among (f, v) fields × (k ≡ key_of f)
  pub all : (f v : String) → Among (f, v) fields → v ≢ "" → Among (change (key_of f) v) cs

module _ {E R : Type 0} (pe : ParseEntity E R) (select : List String → Option String)
    (i : String) where
  -- The key of which a pair of `own` has the pieces.
  abbrev Source : List String → String → List (String × String) → Type 0
  Source parts v kvs =
      (k : String) × Among (k, v) kvs × (select (key_parts k) ≡ some i) × (parts ≡ key_parts k)

  own-only_step :
      (k w v : String) (kvs : List (String × String)) (parts : List String)
      → OwnCases pe select i k w kvs
      → (Among (parts, v) (own pe select i kvs) → Source parts v kvs)
      → Among (parts, v) (own pe select i ((k, w) ∷ kvs))
      → Source parts v ((k, w) ∷ kvs)
  own-only_step k w v kvs parts (inl (s, o)) rest m = from (subst (Among (parts, v)) o m)
    where
      from :
          Among (parts, v) ((key_parts k, w) ∷ own pe select i kvs) → Source parts v ((k, w) ∷ kvs)
      from (inl same) = (
        k,
        inl (ap (λ (p : List String × String). (k, p.1)) same),
        s,
        sym (ap (λ (p : List String × String). p.0) same),
      )
      from (inr n) = let (j, mj, sj, pj) = rest n in (j, inr mj, sj, pj)
  own-only_step k w v kvs parts (inr (s, o)) rest m =
      let (j, mj, sj, pj) = rest (subst (Among (parts, v)) o m) in (j, inr mj, sj, pj)

  own-only :
      (kvs : List (String × String)) (parts : List String) (v : String)
      → Among (parts, v) (own pe select i kvs)
      → Source parts v kvs
  own-only [] parts v m = absurd (subst (Among (parts, v)) (own-nil pe select i) m)
  own-only ((k, w) ∷ kvs) parts v m =
      own-only_step k w v kvs parts (own_cases pe select i k w kvs) (own-only kvs parts v) m

  own-all_step :
      (j w k v : String) (kvs : List (String × String))
      → OwnCases pe select i j w kvs
      → (Among (k, v) kvs → Among (key_parts k, v) (own pe select i kvs))
      → select (key_parts k) ≡ some i
      → Among (k, v) ((j, w) ∷ kvs)
      → Among (key_parts k, v) (own pe select i ((j, w) ∷ kvs))
  own-all_step j w k v kvs (inl (s, o)) rest e (inl same) =
      rw o (inl (ap (λ (p : String × String). (key_parts p.0, p.1)) same))
  own-all_step j w k v kvs (inl (s, o)) rest e (inr n) = rw o (inr (rest n))
  own-all_step j w k v kvs (inr (s, o)) rest e (inl same) =
      absurd (s (ap (λ (p : String × String). select (key_parts p.0)) same ∙ e))
  own-all_step j w k v kvs (inr (s, o)) rest e (inr n) = rw o (rest n)

  pub own-all :
      (kvs : List (String × String)) (k v : String)
      → Among (k, v) kvs
      → select (key_parts k) ≡ some i
      → Among (key_parts k, v) (own pe select i kvs)
  own-all [] k v m e = absurd m
  own-all ((j, w) ∷ kvs) k v m e =
      own-all_step j w k v kvs (own_cases pe select i j w kvs) (λ n. own-all kvs k v n e) e m

  pub Holds-Stored :
      (pieces : String → List String) (key_of : String → String) (fields : List (String × String))
      (cs : List CommitChg) (kvs : List (String × String))
      → FieldsOf key_of fields cs
      → ((f v : String) → Among (f, v) fields → key_parts (key_of f) ≡ pieces f)
      → ((f : String) → select (pieces f) ≡ some i)
      → Holds select i cs kvs
      → Stored pieces fields (own pe select i kvs)
  Holds-Stored pieces key_of fields cs kvs fo split mine h = record {
    only = λ parts v m.
        let (k, mk, sel, same) = own-only kvs parts v m in
        let (f, mf, is_key) = fo.only k v (h.only k v mk sel) in
        (f, mf, same ∙ ap key_parts is_key ∙ split f v mf);
    all = λ f v m full.
        subst (λ (p : List String). Among (p, v) (own pe select i kvs)) (split f v m)
          (own-all kvs (key_of f) v (h.all (key_of f) v (fo.all f v m full))
            (ap select (split f v m) ∙ mine f));
  }

fields_only :
    (key : String) (fields : List (String × String)) (k v : String)
    → Among (change k v) (all_fields key fields)
    → (f : String) × Among (f, v) fields × (k ≡ (key / f))
unfolding all_fields
fields_only key [] k v m = absurd m
fields_only key ((f, w) ∷ fields) k v (inl same) =
    (f, inl (ap (λ (c : CommitChg). (f, c.value)) same), sym (ap (λ (c : CommitChg). c.key) same))
fields_only key ((f, w) ∷ fields) k v (inr m) =
    let (g, mg, e) = fields_only key fields k v m in (g, inr mg, e)

fields_all :
    (key : String) (fields : List (String × String)) (f v : String)
    → Among (f, v) fields
    → Among (change (key / f) v) (all_fields key fields)
unfolding all_fields
fields_all key [] f v m = absurd m
fields_all key ((g, w) ∷ fields) f v (inl same) =
    inl (ap (λ (p : String × String). change (key / p.0) p.1) same)
fields_all key ((g, w) ∷ fields) f v (inr m) = inr (fields_all key fields f v m)

pub all_fields-FieldsOf :
    (key : String) (fields : List (String × String))
    → FieldsOf (λ f. key / f) fields (all_fields key fields)
all_fields-FieldsOf key fields = record {
  only = fields_only key fields;
  all = λ f v m full. fields_all key fields f v m;
}

set_fields_cases :
    (key g w : String) (fields : List (String × String))
    → ((w ≡ "") × (set_fields key ((g, w) ∷ fields) ≡ set_fields key fields))
      ⊎ (set_fields key ((g, w) ∷ fields) ≡ change (key / g) w ∷ set_fields key fields)
unfolding set_fields
set_fields_cases key g w fields = elim (Bool-cases (str_eq w "")) [
  | inl e ↦ inl (str_eq→eq w "" e, rw (e, set_fields) refl)
  | inr e ↦ inr (rw (e, set_fields) refl)
]

-- A pair of an entity's fields behind the change of that field.
abbrev FieldOf : String → List (String × String) → String → String → Type 0
FieldOf key fields k v = (f : String) × Among (f, v) fields × (k ≡ (key / f))

later :
    (key k v : String) (fields : List (String × String)) (p : String × String)
    → FieldOf key fields k v
    → FieldOf key (p ∷ fields) k v
later key k v fields p (f, m, e) = (f, inr m, e)

set_nil : (key : String) → set_fields key [] ≡ []
unfolding set_fields
set_nil key = refl

set_only :
    (key : String) (fields : List (String × String)) (k v : String)
    → Among (change k v) (set_fields key fields)
    → FieldOf key fields k v
set_only key [] k v m = absurd (subst (Among (change k v)) (set_nil key) m)
set_only key ((f, w) ∷ fields) k v m =
    set_step (set_fields_cases key f w fields) (set_only key fields k v)
  where
    first :
        (Among (change k v) (set_fields key fields) → FieldOf key fields k v)
        → Among (change k v) (change (key / f) w ∷ set_fields key fields)
        → FieldOf key ((f, w) ∷ fields) k v
    first rest (inl same) = (
      f,
      inl (ap (λ (c : CommitChg). (f, c.value)) same),
      sym (ap (λ (c : CommitChg). c.key) same),
    )
    first rest (inr n) = later key k v fields (f, w) (rest n)

    set_step :
        ((w ≡ "") × (set_fields key ((f, w) ∷ fields) ≡ set_fields key fields))
          ⊎ (set_fields key ((f, w) ∷ fields) ≡ change (key / f) w ∷ set_fields key fields)
        → (Among (change k v) (set_fields key fields) → FieldOf key fields k v)
        → FieldOf key ((f, w) ∷ fields) k v
    set_step (inl (empty, o)) rest =
        later key k v fields (f, w) (rest (subst (Among (change k v)) o m))
    set_step (inr o) rest = first rest (subst (Among (change k v)) o m)

set_all :
    (key : String) (fields : List (String × String)) (f v : String)
    → Among (f, v) fields
    → v ≢ ""
    → Among (change (key / f) v) (set_fields key fields)
set_all key [] f v m full = absurd m
set_all key ((g, w) ∷ fields) f v (inl same) full = elim (set_fields_cases key g w fields) [
  | inl (empty, o) ↦ absurd (full (sym (ap (λ (p : String × String). p.1) same) ∙ empty))
  | inr o ↦ rw o (inl (ap (λ (p : String × String). change (key / p.0) p.1) same))
]
set_all key ((g, w) ∷ fields) f v (inr m) full = elim (set_fields_cases key g w fields) [
  | inl (empty, o) ↦ rw o (set_all key fields f v m full)
  | inr o ↦ rw o (inr (set_all key fields f v m full))
]

pub set_fields-FieldsOf :
    (key : String) (fields : List (String × String))
    → FieldsOf (λ f. key / f) fields (set_fields key fields)
set_fields-FieldsOf key fields = record { only = set_only key fields; all = set_all key fields }
