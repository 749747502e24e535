-- ===== src/Parser/Fields.antt =====
-- What the loop of `ParseEntities` in controlplane/ctlplanefuncs/server/parser.go makes of one field: a
-- field of the entity is changed by the keys with its name only, so the order of the read does not matter
-- where these agree.
use niova_mdsvc.Prelude.{
  String, ◌≡◌, refl, ap, ◌∙◌, Bool, true, false, ◌⊎◌, inl, inr, Option, some, List, [], ◌∷◌, str_eq,
  if◌then◌else◌, arith, Bool-cases, eq_iff, not, ◌&&◌,
}
use niova_mdsvc.Authorizer.{lookup}
use niova_mdsvc.Parser.{ParseEntity}
use niova_mdsvc.Parser.Grouping.{parse_all}

-- The list has the element `x`.
abbrev pub Among : {A : Type 0} → A → List A → Type 0
Among x [] = ⊥
Among x (y ∷ ys) = (y ≡ x) ⊎ Among x ys

abbrev pub Found : {A : Type 0} → (A → Bool) → List A → Type 0
Found p [] = ⊥
Found p (y ∷ ys) = (p y ≡ true) ⊎ Found p ys

abbrev pub named : String → List (String × String) → Bool
named f [] = false
named f ((g, v) ∷ fields) = if str_eq g f then true else named f fields

-- The names of the fields are different.
abbrev pub distinct : List (String × String) → Bool
distinct [] = true
distinct ((f, v) ∷ fields) = not (named f fields) && distinct fields

module _ {E R A : Type 0} (pe : ParseEntity E R) (proj : E → A) (test : List String → Bool)
    (upd : A → String → A) where
  -- The value of a field after these keys.
  pub value_at : List (List String × String) → A → A
  value_at [] d = d
  value_at ((parts, v) ∷ fields) d = value_at fields (if test parts then upd d v else d)

  -- `ParseField` changes the field just by the keys that pass the test.
  abbrev pub Step : Type 0
  Step =
      (e : E) (parts : List String) (v : String)
      → proj (pe.parse_field e parts v) ≡ (if test parts then upd (proj e) v else proj e)

  pub proj-parse_all :
      (select : List String → Option String)
      → Step
      → (fields : List (List String × String)) (e : E)
      → proj (parse_all pe select e fields) ≡ value_at fields (proj e)
  unfolding parse_all value_at
  proj-parse_all select step [] e = refl
  proj-parse_all select step ((parts, v) ∷ fields) e =
      proj-parse_all select step fields (pe.parse_field e parts v)
      ∙ ap (value_at fields) (step e parts v)

  -- Where all keys of the field agree on `x`, and there is one or the default is `x` too, it is `x`.
  pub value_at-eq :
      (x : A) (fields : List (List String × String)) (d : A)
      → ((parts : List String) (v : String)
          → Among (parts, v) fields
          → test parts ≡ true
          → (c : A) → upd c v ≡ x)
      → Found (λ (e : List String × String). test e.0) fields ⊎ (d ≡ x)
      → value_at fields d ≡ x
  unfolding value_at
  value_at-eq x [] d agree (inl f) = absurd f
  value_at-eq x [] d agree (inr e) = e
  value_at-eq x ((parts, v) ∷ fields) d agree found =
      value_at-eq x fields _ (λ p w m. agree p w (inr m)) (next (Bool-cases (test parts)) found)
    where
      next :
          (test parts ≡ true) ⊎ (test parts ≡ false)
          → Found (λ (e : List String × String). test e.0) ((parts, v) ∷ fields) ⊎ (d ≡ x)
          → Found (λ (e : List String × String). test e.0) fields
            ⊎ ((if test parts then upd d v else d) ≡ x)
      next (inl t) f = inr (rw t (agree parts v (inl refl) t d))
      next (inr t) (inl (inl t')) = cc
      next (inr t) (inl (inr f)) = inl f
      next (inr t) (inr e) = inr (rw t e)

pub Found-Among :
    (p : List String → Bool) (parts : List String) (v : String)
    (fields : List (List String × String))
    → Among (parts, v) fields
    → p parts ≡ true
    → Found (λ (e : List String × String). p e.0) fields
Found-Among p parts v (e ∷ fields) (inl same) h = inl (rw same h)
Found-Among p parts v (e ∷ fields) (inr m) h = inr (Found-Among p parts v fields m h)
Found-Among p parts v [] m h = absurd m

named-Among :
    (f v : String) (fields : List (String × String)) → Among (f, v) fields → named f fields ≡ true
named-Among f v [] m = absurd m
named-Among f v ((g, w) ∷ fields) (inl same) = ground (arith, same, eq_iff g f)
named-Among f v ((g, w) ∷ fields) (inr m) = ground (arith, named-Among f v fields m, eq_iff g f)

pub lookup-Among :
    (f v w : String) (fields : List (String × String))
    → distinct fields ≡ true
    → lookup f fields ≡ some w
    → Among (f, v) fields
    → v ≡ w
lookup-Among f v w [] d h m = absurd m
lookup-Among f v w ((g, u) ∷ fields) d h (inl same) = ground (arith, same, eq_iff g f)
lookup-Among f v w ((g, u) ∷ fields) d h (inr m) =
    ground (arith, lookup-Among f v w fields, named-Among f v fields m, eq_iff g f, m)

pub Among-lookup :
    (f w : String) (fields : List (String × String))
    → lookup f fields ≡ some w
    → Among (f, w) fields
Among-lookup f w [] h = cc
Among-lookup f w ((g, u) ∷ fields) h = elim (Bool-cases (str_eq g f)) [
  | inl e ↦ inl (ground (arith, eq_iff g f, h, e))
  | inr e ↦ inr (Among-lookup f w fields (ground (arith, h, e)))
]
