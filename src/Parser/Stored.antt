-- ===== src/Parser/Stored.antt =====
-- The fields of an entity that a read result of controlplane/ctlplanefuncs/server/parser.go holds, in any
-- order and among other keys, and the entity that the parser then makes.
use mathlib.Core.Path.{subst}
use niova_mdsvc.Prelude.{
  String, ◌≡◌, ◌≢◌, refl, sym, ap, ◌∙◌, Bool, true, false, ◌⊎◌, inl, inr, Option, some, List, [],
  ◌∷◌, str_eq, arith, Bool-cases, eq_iff, str_eq→eq,
}
use niova_mdsvc.Authorizer.{lookup}
use niova_mdsvc.Parser.{ParseEntity}
use niova_mdsvc.Parser.Grouping.{parse_all}
use niova_mdsvc.Parser.Fields.{
  Among, Found, Found-Among, distinct, Step, proj-parse_all, value_at-eq, lookup-Among,
  Among-lookup,
}

-- The keys of an ID, by their pieces: fields from the list only, and all of those that are not empty.
pub record Stored (pieces : String → List String) (fields : List (String × String))
    (keys : List (List String × String)) : Type 0 where
  pub only :
      (parts : List String) (v : String)
      → Among (parts, v) keys
      → (f : String) × Among (f, v) fields × (parts ≡ pieces f)
  pub all : (f v : String) → Among (f, v) fields → v ≢ "" → Among (pieces f, v) keys

module _ {E R : Type 0} (pe : ParseEntity E R) (select : List String → Option String) where
  pub kept :
      {A : Type 0} (proj : E → A)
      → ((e : E) (parts : List String) (v : String) → proj (pe.parse_field e parts v) ≡ proj e)
      → (keys : List (List String × String)) (e : E) → proj (parse_all pe select e keys) ≡ proj e
  unfolding parse_all
  kept proj same [] e = refl
  kept proj same ((parts, v) ∷ keys) e =
      kept proj same keys (pe.parse_field e parts v) ∙ same e parts v

  module _ (pieces : String → List String) (fields : List (String × String))
      (keys : List (List String × String)) (st : Stored pieces fields keys)
      (different : distinct fields ≡ true) where
    module _ {A : Type 0} (proj : E → A) (test : List String → Bool) (upd : A → String → A)
        (step : Step pe proj test upd) (f : String)
        (names : (g : String) → test (pieces g) ≡ str_eq g f) where
      -- A field has the value `x` that its stored text `w` stands for.
      pub field-eq :
          (w : String) (x : A) (e : E)
          → lookup f fields ≡ some w
          → ((c : A) → upd c w ≡ x)
          → (w ≢ "") ⊎ (proj e ≡ x)
          → proj (parse_all pe select e keys) ≡ x
      field-eq w x e h reads default =
          proj-parse_all pe proj test upd select step keys e
          ∙ value_at-eq pe proj test upd x keys (proj e) agree (present default)
        where
          agree :
              (parts : List String) (v : String)
              → Among (parts, v) keys
              → test parts ≡ true
              → (c : A) → upd c v ≡ x
          agree parts v m t c =
              let (g, mg, same) = st.only parts v m in
              let is_f : g ≡ f = str_eq→eq g f (sym (names g) ∙ sym (ap test same) ∙ t) in
              let is_w : v ≡ w =
                lookup-Among f v w fields different h
                  (subst (λ (n : String). Among (n, v) fields) is_f mg) in
              ap (upd c) is_w ∙ reads c

          present :
              (w ≢ "") ⊎ (proj e ≡ x)
              → Found (λ (k : List String × String). test k.0) keys ⊎ (proj e ≡ x)
          present (inr d) = inr d
          present (inl full) = inl (
              Found-Among test (pieces f) w keys (st.all f w (Among-lookup f w fields h) full)
                (names f ∙ ground (arith, eq_iff f f)))

    -- A field that is a text, and empty in the new entity.
    pub text-eq :
        (proj : E → String) (test : List String → Bool)
        → Step pe proj test (λ old v. v)
        → (f : String) → ((g : String) → test (pieces g) ≡ str_eq g f)
        → (w : String) (e : E) → lookup f fields ≡ some w
        → proj e ≡ ""
        → proj (parse_all pe select e keys) ≡ w
    text-eq proj test step f names w e h new =
        field-eq proj test (λ old v. v) step f names w w e h (λ c. refl)
          (default (Bool-cases (str_eq w "")))
      where
        default : (str_eq w "" ≡ true) ⊎ (str_eq w "" ≡ false) → (w ≢ "") ⊎ (proj e ≡ w)
        default (inl t) = inr (new ∙ sym (str_eq→eq w "" t))
        default (inr t) = inl (λ q. absurd (ground (arith, t, q, eq_iff w "")))
