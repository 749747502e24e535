-- ===== src/Parser/Switch.antt =====
-- What a `switch` over a field's name in controlplane/ctlplanefuncs/server/parser.go does to one field of
-- the entity.
use niova_mdsvc.Prelude.{
  String, ◌≡◌, refl, sym, ap, ◌∙◌, Bool, true, false, inl, inr, ◌⊎◌, List, [], ◌∷◌, get_or, str_eq,
  if◌then◌else◌, arith, Bool-cases, eq_iff, str_eq→eq,
}
use niova_mdsvc.Parser.Hardware.{switch, is_field}
use niova_mdsvc.Parser.Storage.{is_element}

-- At most one name passes the test.
abbrev pub Single : (String → Bool) → Type 0
Single is = (f g : String) → is f ≡ true → is g ≡ true → str_eq f g ≡ true

module _ {E A : Type 0} (proj : E → A) (name : String) (new old : A) where
  -- No case changes the field.
  abbrev pub Untouched : List (String × E) → Type 0
  Untouched [] = Unit
  Untouched ((f, e) ∷ cases) = (proj e ≡ old) × Untouched cases

  -- The case `name` gives the field its new value and the others do not change it.
  abbrev pub Fits : List (String × E) → Type 0
  Fits [] = ⊥
  Fits ((f, e) ∷ cases) =
      if str_eq f name then (proj e ≡ new) × Untouched cases else (proj e ≡ old) × Fits cases

  module _ (is : String → Bool) (single : Single is) where
    pub untouched :
        (cases : List (String × E)) (d : E)
        → Untouched cases
        → proj d ≡ old
        → proj (switch is cases d) ≡ old
    unfolding switch
    untouched [] d u h = h
    untouched ((f, e) ∷ cases) d u h = elim (Bool-cases (is f)) [
      | inl t ↦ rw t u.0
      | inr t ↦ rw t (untouched cases d u.1 h)
    ]

    -- The first case decides, or it is passed over.
    module _ (f : String) (e : E) (cases : List (String × E)) (d : E) where
      chosen : is f ≡ true → switch is ((f, e) ∷ cases) d ≡ e
      unfolding switch
      chosen t = rw t refl

      passed : is f ≡ false → switch is ((f, e) ∷ cases) d ≡ switch is cases d
      unfolding switch
      passed t = rw t refl

      step :
          (str_eq f name ≡ true) ⊎ (str_eq f name ≡ false)
          → (is f ≡ true) ⊎ (is f ≡ false)
          → Fits ((f, e) ∷ cases)
          → proj d ≡ old
          → (Fits cases → proj (switch is cases d) ≡ (if is name then new else old))
          → proj (switch is ((f, e) ∷ cases) d) ≡ (if is name then new else old)
      step (inl same) (inl t) fits h rest =
          ap proj (chosen t)
          ∙ (rw same at fits).0
          ∙ sym (ap (λ b. if b then new else old) (ap is (sym (str_eq→eq f name same)) ∙ t))
      step (inl same) (inr t) fits h rest =
          ap proj (passed t)
          ∙ untouched cases d (rw same at fits).1 h
          ∙ sym (ap (λ b. if b then new else old) (ap is (sym (str_eq→eq f name same)) ∙ t))
      step (inr other) (inl t) fits h rest =
          ap proj (chosen t) ∙ (rw other at fits).0 ∙ sym (not_named (Bool-cases (is name)))
        where
          not_named : (is name ≡ true) ⊎ (is name ≡ false) → (if is name then new else old) ≡ old
          not_named (inl n) = let clash : str_eq f name ≡ true = single f name t n in cc
          not_named (inr n) = rw n refl
      step (inr other) (inr t) fits h rest = ap proj (passed t) ∙ rest (rw other at fits).1

    pub proj-switch :
        (cases : List (String × E)) (d : E)
        → Fits cases
        → proj d ≡ old
        → proj (switch is cases d) ≡ (if is name then new else old)
    proj-switch [] d fits h = absurd fits
    proj-switch ((f, e) ∷ cases) d fits h =
        step f e cases d (Bool-cases (str_eq f name)) (Bool-cases (is f)) fits h
          (λ rest. proj-switch cases d rest h)

pub same_name : (t f g : String) → str_eq t f ≡ true → str_eq t g ≡ true → str_eq f g ≡ true
same_name t f g h k = ground (arith, eq_iff t f, eq_iff t g, eq_iff f g)

pub is_field-Single : (parts : List String) → Single (λ f. is_field f parts)
unfolding is_field
is_field-Single parts f g h k =
    same_name (get_or parts 2 "") f g (ground (arith, h)) (ground (arith, k))

pub is_element-Single :
    (group : String) (parts : List String) → Single (λ f. is_element group f parts)
unfolding is_element
is_element-Single group parts f g h k =
    same_name (get_or parts 3 "") f g (ground (arith, h)) (ground (arith, k))
